-- ===== src/Raft/Log.antt =====
-- How raft.go reads its log: position 0 of `logs` is a marker for the snapshot, and the entry with
-- index `i` is stored at `i - lastSnapshotIndex`.
use major_assignments.Common.{
  ltb, if◌then◌else◌, ◌>>=◌, length, get_elem?, ℕ, ◌+◌, ◌-◌, Bool, true, false, Option, none, some,
}
use major_assignments.Raft.Types.{Role, follower, candidate, leader, LogEntry, Raft}

abbrev pub is_leader : Role → Bool
is_leader leader = true
is_leader _ = false

abbrev pub is_follower : Role → Bool
is_follower follower = true
is_follower _ = false

abbrev pub is_candidate : Role → Bool
is_candidate candidate = true
is_candidate _ = false

module _ {C : Type 0} where
  unfoldable pub get_state : Raft C → ℕ × Bool
  get_state rf = (rf.current_term, is_leader rf.role)

  -- The index alone: it is computed with no access to the log.
  abbrev pub last_log_index : Raft C → ℕ
  last_log_index rf = rf.last_snapshot_index + length rf.logs - 1

  unfoldable pub get_last_log_term_and_index : Raft C → Option (ℕ × ℕ)
  get_last_log_term_and_index rf = do
    entry ← get_elem? rf.logs (length rf.logs - 1)
    some (entry.term, last_log_index rf)

  -- `none` is the result -1, with which an access to the log panics.
  unfoldable pub get_store_index_by_log_index : ℕ → Raft C → Option ℕ
  get_store_index_by_log_index log_index rf =
      if ltb log_index rf.last_snapshot_index
      then none
      else some (log_index - rf.last_snapshot_index)

  -- `rf.logs[rf.getStoreIndexByLogIndex(i)]`
  unfoldable pub entry_at : ℕ → Raft C → Option (LogEntry C)
  unfolding get_store_index_by_log_index
  entry_at log_index rf = do i ← get_store_index_by_log_index log_index rf; get_elem? rf.logs i
