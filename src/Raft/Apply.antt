-- ===== src/Raft/Apply.antt =====
-- `Start`, `startApplyLogs` and `Make`.
pub mod InOrder
pub mod Restart
use major_assignments.Common.{
  ltb, leb, if◌then◌else◌, ◌>>=◌, set?, replicate, ℕ, zero, suc, ◌+◌, ◌-◌, true, false, Option,
  none, some, List, [], ◌∷◌, ◌++◌,
}
use major_assignments.Labgob.{Labgob}
use major_assignments.Raft.Log.{is_leader, get_last_log_term_and_index, entry_at}
use major_assignments.Raft.Persist.{read_persist, Saved}
use major_assignments.Raft.Persister.{Persister, read_raft_state}
use major_assignments.Raft.Snapshot.{cond_install_snapshot}
use major_assignments.Raft.Timers.{
  heart_beat_interval, apply_interval, get_election_timeout, reset_append_entries_timers_zero,
}
use major_assignments.Raft.Types.{follower, LogEntry, ApplyMsg, Raft}

module _ {C : Type 0} where
  unfoldable pub start : C → Raft C → Option (Raft C × Option (ℕ × ℕ))
  unfolding get_last_log_term_and_index reset_append_entries_timers_zero
  -- `none` beside the state is the answer -1, -1, false.
  start command rf =
      if is_leader rf.role
      then (do
        let rf1 = record rf {
          logs = rf.logs ++ record { term = rf.current_term; command = some command } ∷ [];
        }
        (_, last) ← get_last_log_term_and_index rf1
        matches ← set? rf1.match_index rf1.me last
        nexts ← set? rf1.next_index rf1.me (last + 1)
        some (
          reset_append_entries_timers_zero
              (record rf1 { match_index = matches; next_index = nexts }),
          some (last, rf1.current_term),
        ))
      else some (rf, none)

  -- The message for the entry of index `i`.
  abbrev pub message_for : ℕ → LogEntry C → ApplyMsg C
  message_for i entry = record {
    command_valid = true;
    command = entry.command;
    command_index = i;
    snapshot_valid = false;
    snapshot = [];
    snapshot_term = 0;
    snapshot_index = 0;
  }

  -- The messages for `k` indices from `i` on.
  unfoldable pub collect : ℕ → ℕ → Raft C → Option (List (ApplyMsg C))
  unfolding entry_at
  collect zero i rf = some []
  collect (suc k) i rf = do
    entry ← entry_at i rf
    rest ← collect k (i + 1) rf
    some (message_for i entry ∷ rest)

  -- One message is sent and noted.
  unfoldable pub deliver : ApplyMsg C → Raft C → Raft C
  deliver msg rf = record rf {
    apply_ch = rf.apply_ch ++ msg ∷ [];
    last_applied = msg.command_index;
  }

  unfoldable pub deliver_all : List (ApplyMsg C) → Raft C → Raft C
  unfolding deliver
  deliver_all [] rf = rf
  deliver_all (msg ∷ msgs) rf = deliver_all msgs (deliver msg rf)

module _ {C : Type 0} (gob : Labgob (Saved C)) where
  -- A whole run, while nothing else happens to the peer.
  unfoldable pub start_apply_logs : Raft C → Option (Raft C)
  unfolding collect deliver_all cond_install_snapshot
  start_apply_logs rf = do
    rf' ←
        if ltb rf.last_applied rf.last_snapshot_index
        then (do
          (rf1, _) ←
              cond_install_snapshot gob rf.last_snapshot_term rf.last_snapshot_index
                rf.persister.snapshot rf
          some rf1)
        else if leb rf.commit_index rf.last_applied
        then some rf
        else do
          msgs ← collect (rf.commit_index - rf.last_applied) (rf.last_applied + 1) rf
          some (deliver_all msgs rf)
    some (record rf' { apply_timer = apply_interval })

  -- `Make`, with the random numbers that the process is going to draw.
  unfoldable pub make : ℕ → ℕ → Persister → (ℕ → ℕ) → Option (Raft C)
  unfolding read_persist
  make peers me persister entropy = do
    rf ← read_persist gob (read_raft_state persister) (record {
      peers = peers;
      persister = persister;
      me = me;
      dead = false;
      role = follower;
      current_term = 0;
      voted_for = none;
      logs = record { term = 0; command = none } ∷ [];
      commit_index = 0;
      last_applied = 0;
      next_index = replicate peers 0;
      match_index = replicate peers 0;
      election_timer = 0;
      append_entries_timers = [];
      apply_timer = 0;
      apply_ch = [];
      notify_apply_ch = 0;
      last_snapshot_index = 0;
      last_snapshot_term = 0;
      entropy = entropy;
      draws = 0;
    })
    some (record rf {
      election_timer = get_election_timeout (rf.entropy rf.draws);
      draws = rf.draws + 1;
      append_entries_timers = replicate peers heart_beat_interval;
      apply_timer = apply_interval;
    })
