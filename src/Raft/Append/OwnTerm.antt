-- ===== src/Raft/Append/OwnTerm.antt =====
-- `isOutOfArgsAppendEntries`: a message of the leader whose entries the log already ends with takes
-- nothing away.
use major_assignments.Common.{
  Bool-cases, length, get_elem?, ℕ, ◌+◌, ◌-◌, ◌≤◌, ◌≡◌, ap, inl, inr, true, false, some, arith,
}
use major_assignments.Labgob.{Labgob}
use major_assignments.Raft.Append.{
  AppendEntriesArgs, AppendEntriesReply, Appended, append_after, middle_append, try_append,
  append_entries,
}
use major_assignments.Raft.Append.Matching.{found_append, try_of, append_entries_success}
use major_assignments.Raft.Log.{last_log_index}
use major_assignments.Raft.Persist.{Saved}
use major_assignments.Raft.Timers.{reset_election_timer}
use major_assignments.Raft.Types.{follower, LogEntry, Raft}

module _ {C : Type 0} (gob : Labgob (Saved C)) where
  out_of_args :
      (args : AppendEntriesArgs C) (rf : Raft C) (e : LogEntry C)
      → get_elem? rf.logs (length rf.logs - 1) ≡ some e
      → e.term ≡ args.term
      → (n : ℕ) {r : Appended C} → append_after n args rf ≡ some r
      → r.success ≡ true
      → last_log_index rf ≤ args.prev_log_index + length args.entries
  unfolding append_after
  out_of_args args rf e p t n h g = ground arith

  failed_same :
      (args : AppendEntriesArgs C) (rf : Raft C) {rf' : Raft C} {reply : AppendEntriesReply}
      → append_entries gob args rf ≡ some (rf', reply)
      → reply.success ≡ false
      → (rf'.logs ≡ rf.logs)
        × (rf'.last_snapshot_index ≡ rf.last_snapshot_index)
        × (rf'.commit_index ≡ rf.commit_index)
  unfolding append_entries try_append middle_append append_after
  failed_same args rf h g = ground arith

  -- If the last entry is of the sender's term, the log does not get shorter, whatever old message of
  -- that term arrives; and without a success the log and the commit index stay as they are.
  pub append_entries_keeps_own_term :
      (args : AppendEntriesArgs C) (rf : Raft C) {rf' : Raft C} {reply : AppendEntriesReply}
      (e : LogEntry C)
      → append_entries gob args rf ≡ some (rf', reply)
      → get_elem? rf.logs (length rf.logs - 1) ≡ some e
      → e.term ≡ args.term
      → (last_log_index rf ≤ last_log_index rf')
        × (reply.success ≡ false → (rf'.logs ≡ rf.logs) × (rf'.commit_index ≡ rf.commit_index))
  unfolding reset_election_timer
  append_entries_keeps_own_term args rf {rf'} {reply} e h p t = elim (Bool-cases reply.success) [
    | inl g ↦
        let w = try_of gob args rf h g in
        let rf2 = reset_election_timer (record rf { current_term = args.term; role = follower }) in
        let bound = out_of_args args rf2 e p t _ (found_append args rf2 w.1 w.2).1 w.2 in
        (omega (arith, (append_entries_success gob args rf h g).0), λ f. absurd (cc (f, g)))
    | inr g ↦
        let (l, s, c) = failed_same args rf h g in (omega (arith, ap length l, s), λ _. (l, c))
  ]
