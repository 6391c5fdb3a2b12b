-- ===== src/Raft/Snapshot.antt =====
-- Snapshots: `Snapshot`, `CondInstallSnapshot`, `InstallSnapshot` and the sender.
pub mod SecondVote
pub mod Trim
use major_assignments.Common.{
  ltb, leb, ◌==◌, if◌then◌else◌, ◌>>=◌, set?, slice_from, get_elem?, ℕ, ◌+◌, ◌-◌, Bool, true, false,
  not, ◌||◌, Option, none, some, List, [], ◌∷◌, ◌++◌,
}
use major_assignments.Labgob.{Labgob}
use major_assignments.Raft.Log.{is_leader, is_follower, get_last_log_term_and_index, entry_at}
use major_assignments.Raft.Persist.{Saved, get_persist_data, persist}
use major_assignments.Raft.Persister.{save_state_and_snapshot, read_snapshot}
use major_assignments.Raft.Role.{change_role}
use major_assignments.Raft.Timers.{reset_election_timer}
use major_assignments.Raft.Types.{follower, LogEntry, Raft}

pub record InstallSnapshotArgs : Type 0 where
  pub term : ℕ
  pub leader_id : ℕ
  pub last_included_index : ℕ
  pub last_included_term : ℕ
  pub snapshot_bytes : List ℕ

pub record InstallSnapshotReply : Type 0 where
  pub term : ℕ

-- `if v > xs[i] { xs[i] = v }`
unfoldable pub raise : ℕ → ℕ → List ℕ → Option (List ℕ)
raise i v xs = do old ← get_elem? xs i; if ltb old v then set? xs i v else some xs

module _ {C : Type 0} where
  -- `logs[0].Term = term` and `logs[0].Command = nil`
  unfoldable pub mark_head : ℕ → List (LogEntry C) → Option (List (LogEntry C))
  mark_head term [] = none
  mark_head term (_ ∷ es) = some (record { term = term; command = none } ∷ es)

  -- The log behind a snapshot that ends at the given index. A negative slice bound panics.
  unfoldable pub trim_log : ℕ → ℕ → Raft C → Option (List (LogEntry C))
  unfolding get_last_log_term_and_index mark_head
  trim_log term index rf = do
    (_, last) ← get_last_log_term_and_index rf
    if ltb last index
        then mark_head term (record { term = 0; command = none } ∷ [])
        else if ltb index rf.last_snapshot_index
        then none
        else do es ← slice_from (index - rf.last_snapshot_index) rf.logs; mark_head term es

module _ {C : Type 0} (gob : Labgob (Saved C)) where
  unfoldable pub save_snapshot : List ℕ → Raft C → Raft C
  unfolding get_persist_data
  save_snapshot bytes rf = record rf {
    persister = save_state_and_snapshot (get_persist_data gob rf) bytes rf.persister;
  }

  -- `CondInstallSnapshot`, which always answers true, and the same lines in `InstallSnapshot`.
  unfoldable pub cond_install_snapshot : ℕ → ℕ → List ℕ → Raft C → Option (Raft C × Bool)
  unfolding trim_log save_snapshot
  cond_install_snapshot term index bytes rf = do
    es ← trim_log term index rf
    some (
      save_snapshot bytes (record rf {
        logs = es;
        last_snapshot_index = index;
        last_snapshot_term = term;
        last_applied = index;
        commit_index = index;
      }),
      true,
    )

  -- `Snapshot`: the service has made a snapshot up to `index`.
  unfoldable pub snapshot_to : ℕ → List ℕ → Raft C → Option (Raft C)
  unfolding entry_at mark_head save_snapshot
  snapshot_to index bytes rf = if leb index rf.last_snapshot_index then some rf else do
    entry ← entry_at index rf
    es ← slice_from (index - rf.last_snapshot_index) rf.logs
    es' ← mark_head entry.term es
    some (
        save_snapshot bytes
          (record rf { logs = es'; last_snapshot_term = entry.term; last_snapshot_index = index }))

  unfoldable pub adopt_term : ℕ → Raft C → Option (Raft C)
  unfolding change_role reset_election_timer persist
  adopt_term term rf =
      if ltb rf.current_term term || not (is_follower rf.role)
      then (do
        rf' ← change_role follower rf
        some (
            persist gob
              (reset_election_timer (record rf' { voted_for = none; current_term = term }))))
      else some rf

  unfoldable pub install_snapshot :
      InstallSnapshotArgs → Raft C → Option (Raft C × InstallSnapshotReply)
  unfolding adopt_term cond_install_snapshot
  install_snapshot args rf =
      let reply : InstallSnapshotReply = record { term = rf.current_term } in
      if ltb args.term rf.current_term then some (rf, reply) else do
        rf1 ← adopt_term args.term rf
        if leb args.last_included_index rf1.last_snapshot_index then some (rf1, reply) else do
          (rf2, _) ←
              cond_install_snapshot args.last_included_term args.last_included_index
                args.snapshot_bytes rf1
          some (
            record rf2 {
              apply_ch =
                  rf2.apply_ch
                  ++ record {
                    command_valid = false;
                    command = none;
                    command_index = 0;
                    snapshot_valid = true;
                    snapshot = args.snapshot_bytes;
                    snapshot_term = args.last_included_term;
                    snapshot_index = args.last_included_index;
                  }
                    ∷ [];
            },
            reply,
          )

  -- The sender's first stretch: the arguments. There is no test that the peer still leads.
  unfoldable pub prepare_snapshot : Raft C → InstallSnapshotArgs
  prepare_snapshot rf = record {
    term = rf.current_term;
    leader_id = rf.me;
    last_included_index = rf.last_snapshot_index;
    last_included_term = rf.last_snapshot_term;
    snapshot_bytes = read_snapshot rf.persister;
  }

  -- The sender's second stretch, with the reply.
  unfoldable pub finish_snapshot :
      ℕ → InstallSnapshotArgs → InstallSnapshotReply → Raft C → Option (Raft C)
  unfolding change_role reset_election_timer persist raise
  finish_snapshot server args reply rf =
      if not (is_leader rf.role) || not (args.term == rf.current_term)
      then some rf
      else if ltb rf.current_term reply.term
      then (do
        rf' ← change_role follower rf
        some (persist gob (reset_election_timer (record rf' { current_term = reply.term }))))
      else do
        matches ← raise server args.last_included_index rf.match_index
        nexts ← raise server (args.last_included_index + 1) rf.next_index
        some (record rf { match_index = matches; next_index = nexts })
