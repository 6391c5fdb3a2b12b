-- ===== src/Raft/Append/Accepted.antt =====
-- What a successful `AppendEntries` has tested.
use major_assignments.Common.{
  ◌==◌, ==→eq, Bool-cases, >>=-eq-some, get_elem?, ℕ, ◌-◌, ◌≤◌, ◌≡◌, ◌⊎◌, inl, inr, true, false,
  some, arith,
}
use major_assignments.Labgob.{Labgob}
use major_assignments.Raft.Append.{
  AppendEntriesArgs, AppendEntriesReply, Appended, append_after, middle_append, try_append,
  append_entries,
}
use major_assignments.Raft.Append.Matching.{try_of}
use major_assignments.Raft.Log.{entry_at}
use major_assignments.Raft.Persist.{Saved, saved}
use major_assignments.Raft.Timers.{reset_election_timer}
use major_assignments.Raft.Types.{follower, LogEntry, Raft}

module _ {C : Type 0} where
  middle_term :
      (args : AppendEntriesArgs C) (rf : Raft C) {r : Appended C}
      → middle_append args rf ≡ some r
      → r.success ≡ true
      → (e : LogEntry C) × (entry_at args.prev_log_index rf ≡ some e)
        × (e.term ≡ args.prev_log_term)
  unfolding middle_append
  middle_term args rf h g =
      let (e, p, _) = >>=-eq-some (entry_at args.prev_log_index rf) _ h in (e, p, ground arith)

  tried_term :
      (args : AppendEntriesArgs C) (rf : Raft C) {r : Appended C}
      → try_append args rf ≡ some r
      → r.success ≡ true
      → (args.prev_log_index ≡ rf.last_snapshot_index)
        ⊎ ((e : LogEntry C) × (entry_at args.prev_log_index rf ≡ some e)
            × (e.term ≡ args.prev_log_term))
  unfolding try_append
  tried_term args rf {r} h g = elim (Bool-cases (args.prev_log_index == rf.last_snapshot_index)) [
    | inl e ↦ inl (==→eq _ _ e)
    | inr e ↦ inr (middle_term args rf {r = r} (ground arith) g)
  ]

  pub stored_at :
      (i : ℕ) (rf : Raft C) {e : LogEntry C}
      → entry_at i rf ≡ some e
      → (rf.last_snapshot_index ≤ i) × (get_elem? rf.logs (i - rf.last_snapshot_index) ≡ some e)
  unfolding entry_at
  stored_at i rf h = ground arith

module _ {C : Type 0} (gob : Labgob (Saved C)) where
  -- A success at an index behind the snapshot has found the term there.
  pub accepted_term :
      (args : AppendEntriesArgs C) (rf : Raft C) {rf' : Raft C} {reply : AppendEntriesReply}
      → append_entries gob args rf ≡ some (rf', reply)
      → reply.success ≡ true
      → (args.prev_log_index ≡ rf.last_snapshot_index)
        ⊎ ((e : LogEntry C) × (get_elem? rf.logs (args.prev_log_index - rf.last_snapshot_index)
              ≡ some e)
            × (e.term ≡ args.prev_log_term))
  unfolding reset_election_timer entry_at
  accepted_term args rf h g =
      let (r, e, ok, _, _, _, _, _) = try_of gob args rf h g in
      elim (tried_term args
        (reset_election_timer (record rf { current_term = args.term; role = follower })) e ok) [
          | inl p ↦ inl p
          | inr (x, p, q) ↦ inr (x, ground arith, q)
        ]

  -- A handler that does not succeed leaves the log alone.
  pub rejected_same :
      (args : AppendEntriesArgs C) (rf : Raft C) {rf' : Raft C} {reply : AppendEntriesReply}
      → append_entries gob args rf ≡ some (rf', reply)
      → reply.success ≡ false
      → (rf'.logs ≡ rf.logs)
        × (rf'.last_snapshot_index ≡ rf.last_snapshot_index)
        × (rf'.last_snapshot_term ≡ rf.last_snapshot_term)
  unfolding append_entries try_append middle_append append_after
  rejected_same args rf h g = ground arith

  pub accepted_same :
      (args : AppendEntriesArgs C) (rf : Raft C) {rf' : Raft C} {reply : AppendEntriesReply}
      → append_entries gob args rf ≡ some (rf', reply)
      → reply.success ≡ true
      → (rf'.last_snapshot_term ≡ rf.last_snapshot_term)
        × (rf'.role ≡ follower)
        × (rf'.persister.raftstate ≡ gob.encode (saved rf'))
        × (rf'.current_term ≡ args.term)
  unfolding append_entries
  accepted_same args rf h g = ground arith
