-- ===== src/Lab3a/Apply.antt =====
-- `Start`, `startApplyLogs`, `Make` and the calls of the service that do nothing.
use major_assignments.Common.{
  leb, if◌then◌else◌, ◌>>=◌, set?, get_elem?, replicate, ℕ, zero, suc, ◌+◌, ◌-◌, ◌%◌, Bool, true,
  false, Option, none, some, List, [], ◌∷◌, ◌++◌,
}
use major_assignments.Lab3a.Log.{last_log_info}
use major_assignments.Lab3a.Persist.{read_persist, Saved, persist}
use major_assignments.Lab3a.Persister.{Persister, read_raft_state}
use major_assignments.Lab3a.Timers.{
  is_leader, election_time_limit, heart_beat_time_limit, send_heart_beat,
}
use major_assignments.Lab3a.Types.{follower, ApplyMsg, Raft}
use major_assignments.Labgob.{Labgob}

module _ {C : Type 0} where
  unfoldable pub start : C → Raft C → Option (Raft C × ℕ × ℕ × Bool)
  unfolding last_log_info send_heart_beat
  start command rf = do
    (_, last_index) ← last_log_info rf
    let index = last_index + 1
    if is_leader rf.state
        then (do
          matches ← set? rf.match_index rf.me index
          some (
            send_heart_beat (record rf {
              log_entries =
                  rf.log_entries
                  ++ record { term = rf.term; idx = index; command = some command } ∷ [];
              match_index = matches;
            }),
            index,
            rf.term,
            true,
          ))
        else some (rf, index, rf.term, false)

  -- The messages for `k` indices from `i` on.
  unfoldable pub collect : ℕ → ℕ → Raft C → Option (List (ApplyMsg C))
  collect zero i rf = some []
  collect (suc k) i rf = do
    entry ← get_elem? rf.log_entries i
    rest ← collect k (i + 1) rf
    some (record { command_valid = true; command = entry.command; command_index = i } ∷ rest)

  unfoldable pub cond_install_snapshot : ℕ → ℕ → List ℕ → Raft C → Raft C × Bool
  cond_install_snapshot term index bytes rf = (rf, true)

  unfoldable pub snapshot_to : ℕ → List ℕ → Raft C → Raft C
  snapshot_to index bytes rf = rf

module _ {C : Type 0} (gob : Labgob (Saved C)) where
  -- One message is sent and noted, and the note is persisted.
  unfoldable pub deliver : ApplyMsg C → Raft C → Raft C
  unfolding persist
  deliver msg rf =
      persist gob
        (record rf { apply_ch = rf.apply_ch ++ msg ∷ []; last_applied = msg.command_index })

  unfoldable pub deliver_all : List (ApplyMsg C) → Raft C → Raft C
  unfolding deliver
  deliver_all [] rf = rf
  deliver_all (msg ∷ msgs) rf = deliver_all msgs (deliver msg rf)

  unfoldable pub start_apply_logs : Raft C → Option (Raft C)
  unfolding collect deliver_all
  start_apply_logs rf = if leb rf.commit_index rf.last_applied then some rf else do
    msgs ← collect (rf.commit_index - rf.last_applied) (rf.last_applied + 1) rf
    some (deliver_all msgs rf)

  unfoldable pub make : ℕ → ℕ → Persister → (ℕ → ℕ) → Option (Raft C)
  unfolding read_persist
  make peers me persister entropy = do
    rf ← read_persist gob (read_raft_state persister) (record {
      peers = peers;
      persister = persister;
      me = me;
      dead = false;
      election_timer = election_time_limit + entropy 0 % election_time_limit;
      append_entries_timers = [];
      state = follower;
      term = 0;
      vote_for = none;
      log_entries = record { term = 0; idx = 0; command = none } ∷ [];
      match_index = [];
      next_index = [];
      apply_ch = [];
      notify_apply_ch = 0;
      commit_index = 0;
      okbutnocommit = 0;
      last_applied = 0;
      entropy = entropy;
      draws = 1;
    })
    some (record rf { append_entries_timers = replicate peers heart_beat_time_limit })
