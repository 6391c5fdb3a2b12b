-- ===== src/Raft/Append.antt =====
-- `AppendEntries`: the handler of a follower.
pub mod Matching
pub mod Accepted
pub mod OwnTerm
use major_assignments.Common.{
  ltb, ◌==◌, if◌then◌else◌, ◌>>=◌, slice_to, length, ℕ, zero, suc, ◌+◌, ◌-◌, Bool, true, false,
  ◌&&◌, Option, some, List, ◌++◌,
}
use major_assignments.Labgob.{Labgob}
use major_assignments.Raft.Log.{get_last_log_term_and_index, entry_at}
use major_assignments.Raft.Persist.{Saved, persist}
use major_assignments.Raft.Role.{change_role}
use major_assignments.Raft.Timers.{reset_election_timer}
use major_assignments.Raft.Types.{follower, LogEntry, Raft}

pub record AppendEntriesArgs (C : Type 0) : Type 0 where
  pub term : ℕ
  pub leader_id : ℕ
  pub prev_log_index : ℕ
  pub prev_log_term : ℕ
  pub entries : List (LogEntry C)
  pub leader_commit : ℕ

pub record AppendEntriesReply : Type 0 where
  pub term : ℕ
  pub success : Bool
  pub next_log_term : ℕ
  pub next_log_index : ℕ

-- The outcome of the five cases: the new log, `Success` and `NextLogIndex`.
pub record Appended (C : Type 0) : Type 0 where
  pub logs : List (LogEntry C)
  pub success : Bool
  pub next_log_index : ℕ

module _ {C : Type 0} where
  unfoldable pub is_out_of_args_append_entries : AppendEntriesArgs C → Raft C → Option Bool
  unfolding get_last_log_term_and_index
  is_out_of_args_append_entries args rf = do
    (last_term, last_index) ← get_last_log_term_and_index rf
    some (last_term == args.term && ltb (args.prev_log_index + length args.entries) last_index)

  -- Keep `n` stored entries and put the leader's behind them, unless that would drop entries of the
  -- leader's own term. `NextLogIndex` 0 says that it would.
  unfoldable pub append_after : ℕ → AppendEntriesArgs C → Raft C → Option (Appended C)
  unfolding is_out_of_args_append_entries get_last_log_term_and_index
  append_after n args rf = do
    out ← is_out_of_args_append_entries args rf
    if out then some (record { logs = rf.logs; success = false; next_log_index = 0 }) else do
      kept ← slice_to n rf.logs
      let logs' = kept ++ args.entries
      (_, current) ← get_last_log_term_and_index (record rf { logs = logs' })
      some (record { logs = logs'; success = true; next_log_index = current + 1 })

  -- The loop of case 5: step back over the entries of one term.
  unfoldable pub back_up : ℕ → ℕ → Raft C → Option ℕ
  back_up zero term rf = some zero
  back_up (suc index) term rf =
      let rest = back_up index term rf in
      if ltb rf.commit_index (suc index) && ltb rf.last_snapshot_index (suc index)
      then (do
        entry ← entry_at (suc index) rf
        if entry.term == term then rest else some (suc index))
      else some (suc index)

  abbrev pub reject_append : ℕ → Raft C → Appended C
  reject_append next rf = record { logs = rf.logs; success = false; next_log_index = next }

  -- Cases 4 and 5: the index before the entries lies behind the snapshot, in the log.
  unfoldable pub middle_append : AppendEntriesArgs C → Raft C → Option (Appended C)
  middle_append args rf = do
    entry ← entry_at args.prev_log_index rf
    if args.prev_log_term == entry.term
        then append_after (args.prev_log_index - rf.last_snapshot_index + 1) args rf
        else do
          index ← back_up args.prev_log_index entry.term rf
          some (reject_append (index + 1) rf)

  -- The five cases.
  unfoldable pub try_append : AppendEntriesArgs C → Raft C → Option (Appended C)
  unfolding get_last_log_term_and_index
  try_append args rf = do
    (_, last) ← get_last_log_term_and_index rf
    if ltb args.prev_log_index rf.last_snapshot_index
        then some (reject_append (rf.last_snapshot_index + 1) rf)
        else if ltb last args.prev_log_index
        then some (reject_append (last + 1) rf)
        else if args.prev_log_index == rf.last_snapshot_index
        then append_after 1 args rf
        else middle_append args rf

  unfoldable pub follow_commit : ℕ → Raft C → Raft C
  follow_commit leader_commit rf =
      if ltb rf.commit_index leader_commit
      then record rf { commit_index = leader_commit; notify_apply_ch = rf.notify_apply_ch + 1 }
      else rf

module _ {C : Type 0} (gob : Labgob (Saved C)) where
  unfoldable pub append_entries :
      AppendEntriesArgs C → Raft C → Option (Raft C × AppendEntriesReply)
  unfolding change_role reset_election_timer follow_commit persist
  append_entries args rf =
      if ltb args.term rf.current_term
      then some (
        rf,
        record { term = rf.current_term; success = false; next_log_term = 0; next_log_index = 0 },
      )
      else do
        rf1 ← change_role follower (record rf { current_term = args.term })
        let rf2 = reset_election_timer rf1
        r ← try_append args rf2
        let rf3 = record rf2 { logs = r.logs }
        some (
          persist gob (if r.success then follow_commit args.leader_commit rf3 else rf3),
          record {
            term = rf.current_term;
            success = r.success;
            next_log_term = 0;
            next_log_index = r.next_log_index;
          },
        )
