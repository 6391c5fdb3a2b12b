-- ===== src/Lab3a/Append.antt =====
-- `AppendEntries`, and the message that a leader sends.
pub mod Matching
pub mod Heartbeat
use major_assignments.Common.{
  ltb, ◌==◌, if◌then◌else◌, ◌>>=◌, slice_from, slice_to, length, get_elem?, ℕ, ◌+◌, ◌-◌, Bool, true,
  false, ◌&&◌, Option, none, some, List, [], ◌++◌,
}
use major_assignments.Lab3a.Log.{last_log_info, truncate_log}
use major_assignments.Lab3a.Persist.{Saved, persist}
use major_assignments.Lab3a.Timers.{reset_election_timer}
use major_assignments.Lab3a.Types.{follower, LogEntry, Raft}
use major_assignments.Labgob.{Labgob}

pub record HeartBeatArgs (C : Type 0) : Type 0 where
  pub leader_id : ℕ
  pub term : ℕ
  pub prev_log_index : ℕ
  pub perv_log_term : ℕ
  pub entries : List (LogEntry C)
  pub leader_commit : ℕ

pub record AppendEntriesReply : Type 0 where
  pub follower_id : ℕ
  pub term : ℕ
  pub success : Bool
  pub next_index : ℕ

module _ {C : Type 0} where
  -- The log is sliced before the last index is compared with -1, but the entry in front of index 0
  -- does not exist.
  unfoldable pub get_append_entries_args : ℕ → Raft C → Option (HeartBeatArgs C)
  unfolding last_log_info
  get_append_entries_args peer_idx rf = do
    next_idx ← get_elem? rf.next_index peer_idx
    (last_term, last_index) ← last_log_info rf
    let args : ℕ → ℕ → List (LogEntry C) → HeartBeatArgs C = λ prev_index prev_term entries.
        record {
          leader_id = rf.me;
          term = rf.term;
          prev_log_index = prev_index;
          perv_log_term = prev_term;
          entries = entries;
          leader_commit = rf.commit_index;
        }
    if ltb last_index next_idx
        then some (args last_index last_term [])
        else if next_idx == 0
        then none
        else do
          entries ← slice_from next_idx rf.log_entries
          prev ← get_elem? rf.log_entries (next_idx - 1)
          some (args (next_idx - 1) prev.term entries)

-- What the stretch under the lock leaves: the peer, `Success` and `NextIndex`, and whether the code
-- after it may commit.
pub record Received (C : Type 0) : Type 0 where
  pub peer : Raft C
  pub success : Bool
  pub next_index : ℕ
  pub may_commit : Bool

module _ {C : Type 0} (gob : Labgob (Saved C)) where
  -- The follower has more than the leader's `PrevLogIndex`.
  unfoldable pub append_shorter : HeartBeatArgs C → ℕ → Raft C → Option (Received C)
  unfolding truncate_log persist last_log_info
  append_shorter args last_index rf =
      if length args.entries == 0
      then some (record {
        peer = persist gob (truncate_log (args.prev_log_index + 1) rf);
        success = false;
        next_index = last_index + 1;
        may_commit = false;
      })
      else do
        prev ← get_elem? rf.log_entries args.prev_log_index
        if prev.term == args.perv_log_term
            then (do
              kept ← slice_to (args.prev_log_index + 1) rf.log_entries
              let rf1 = record rf { log_entries = kept ++ args.entries }
              (_, new_last) ← last_log_info rf1
              some (record {
                peer = persist gob rf1;
                success = true;
                next_index = new_last + 1;
                may_commit = false;
              }))
            else some (record {
              peer = persist gob (truncate_log args.prev_log_index rf);
              success = false;
              next_index = args.prev_log_index + 1;
              may_commit = false;
            })

  -- The follower's last index is the leader's `PrevLogIndex`. On a conflict nothing is persisted.
  unfoldable pub append_equal : HeartBeatArgs C → ℕ → Raft C → Option (Received C)
  unfolding persist last_log_info
  append_equal args last_index rf = do
    last ← get_elem? rf.log_entries last_index
    if args.perv_log_term == last.term
        then (do
          let rf1 = record rf { log_entries = rf.log_entries ++ args.entries }
          (_, new_last) ← last_log_info rf1
          some (record {
            peer = persist gob rf1;
            success = true;
            next_index = new_last + 1;
            may_commit = true;
          }))
        else some
            (record { peer = rf; success = false; next_index = last_index + 1; may_commit = false })

  -- The commitment at the end, which holds no lock.
  unfoldable pub follow_commit : Bool → ℕ → Raft C → Raft C
  follow_commit may_commit leader_commit rf =
      if may_commit && ltb rf.commit_index leader_commit
      then record rf { commit_index = leader_commit; notify_apply_ch = rf.notify_apply_ch + 1 }
      else rf

  unfoldable pub append_entries : HeartBeatArgs C → Raft C → Option (Raft C × AppendEntriesReply)
  unfolding persist reset_election_timer append_shorter append_equal follow_commit last_log_info
  append_entries args rf =
      let answer : Bool → ℕ → AppendEntriesReply = λ success next. record {
        follower_id = rf.me;
        term = rf.term;
        success = success;
        next_index = next;
      } in
      do
        (_, last_index) ← last_log_info rf
        if ltb args.term rf.term then some (rf, answer false 0) else do
          let rf1 = reset_election_timer (record rf { term = args.term; state = follower })
          if ltb last_index args.prev_log_index
              then some (persist gob rf1, answer false (last_index + 1))
              else do
                r ←
                    if ltb args.prev_log_index last_index
                    then append_shorter args last_index rf1
                    else append_equal args last_index rf1
                some (
                  follow_commit r.may_commit args.leader_commit r.peer,
                  answer r.success r.next_index,
                )
