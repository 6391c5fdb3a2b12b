-- ===== src/Raft/Append/Matching.antt =====
-- What a successful `AppendEntries` leaves in the log.
use Prim.Native.Nat.{max}
use major_assignments.Common.{
  ◌==◌, ==→eq, Bool-cases, Option-cases, >>=-eq-some, length, get_elem?, take, length-append,
  length-take, get_elem?-take, get_elem?-append_left, get_elem?-append_right, ℕ, ◌+◌, ◌-◌, ◌≤◌, ◌≡◌,
  ap, ◌∙◌, inl, inr, true, some, ◌++◌, arith,
}
use major_assignments.Labgob.{Labgob}
use major_assignments.Raft.Append.{
  AppendEntriesArgs, AppendEntriesReply, Appended, append_after, middle_append, try_append,
  append_entries,
}
use major_assignments.Raft.Log.{last_log_index, entry_at}
use major_assignments.Raft.Persist.{Saved}
use major_assignments.Raft.Timers.{reset_election_timer}
use major_assignments.Raft.Types.{follower, LogEntry, Raft}

module _ {C : Type 0} where
  appended_after :
      (n : ℕ) (args : AppendEntriesArgs C) (rf : Raft C) {r : Appended C}
      → append_after n args rf ≡ some r
      → r.success ≡ true
      → (r.logs ≡ take n rf.logs ++ args.entries)
        × (n ≤ length rf.logs)
        × (r.next_log_index
            ≡ rf.last_snapshot_index + length (take n rf.logs ++ args.entries) - 1 + 1)
  unfolding append_after
  appended_after n args rf h g = ground arith

  found_entry :
      (index : ℕ) (rf : Raft C) {e : LogEntry C}
      → entry_at index rf ≡ some e
      → rf.last_snapshot_index ≤ index
  unfolding entry_at
  found_entry index rf h = ground arith

  appended_middle :
      (args : AppendEntriesArgs C) (rf : Raft C) {r : Appended C}
      → middle_append args rf ≡ some r
      → r.success ≡ true
      → let n = args.prev_log_index - rf.last_snapshot_index + 1 in
        (rf.last_snapshot_index ≤ args.prev_log_index) × (append_after n args rf ≡ some r)
  unfolding middle_append
  appended_middle args rf h g =
      let (e, p, _) = >>=-eq-some (entry_at args.prev_log_index rf) _ h in
      ground (arith, p, found_entry args.prev_log_index rf p)

  pub found_append :
      (args : AppendEntriesArgs C) (rf : Raft C) {r : Appended C}
      → try_append args rf ≡ some r
      → r.success ≡ true
      → let n = args.prev_log_index - rf.last_snapshot_index + 1 in
        (rf.last_snapshot_index ≤ args.prev_log_index) × (append_after n args rf ≡ some r)
  unfolding try_append
  found_append args rf {r} h g = elim (Bool-cases (args.prev_log_index == rf.last_snapshot_index)) [
    | inl e ↦ ground (arith, ==→eq _ _ e)
    | inr e ↦ ground (arith, appended_middle args rf {r = r})
  ]

module _ {C : Type 0} (gob : Labgob (Saved C)) where
  pub try_of :
      (args : AppendEntriesArgs C) (rf : Raft C) {rf' : Raft C} {reply : AppendEntriesReply}
      → append_entries gob args rf ≡ some (rf', reply)
      → reply.success ≡ true
      → (r : Appended C) × (try_append args
            (reset_election_timer (record rf { current_term = args.term; role = follower }))
          ≡ some r)
        × (r.success ≡ true)
        × (rf'.logs ≡ r.logs)
        × (rf'.last_snapshot_index ≡ rf.last_snapshot_index)
        × (reply.next_log_index ≡ r.next_log_index)
        × (rf'.current_term ≡ args.term)
        × (rf'.commit_index ≡ max rf.commit_index args.leader_commit)
  unfolding append_entries
  try_of args rf h g =
      elim (Option-cases (
        try_append args
          (reset_election_timer (record rf { current_term = args.term; role = follower })))) [
            | inl e ↦ absurd (ground arith)
            | inr (r, e) ↦ (
              r,
              e,
              ground arith,
              ground arith,
              ground arith,
              ground arith,
              ground arith,
              ground arith,
            )
          ]

  -- The log of a follower that answers with success.
  pub success_log :
      (args : AppendEntriesArgs C) (rf : Raft C) {rf' : Raft C} {reply : AppendEntriesReply}
      → append_entries gob args rf ≡ some (rf', reply)
      → reply.success ≡ true
      → let n = args.prev_log_index - rf.last_snapshot_index + 1 in
        (rf'.logs ≡ take n rf.logs ++ args.entries)
        × (rf'.last_snapshot_index ≡ rf.last_snapshot_index)
        × (rf.last_snapshot_index ≤ args.prev_log_index)
        × (n ≤ length rf.logs)
        × (reply.next_log_index ≡ args.prev_log_index + length args.entries + 1)
        × (rf'.commit_index ≡ max rf.commit_index args.leader_commit)
  unfolding reset_election_timer
  success_log args rf h g =
      let (r, e, ok, l, s, nx, _, c) = try_of args rf h g in
      let rf2 = reset_election_timer (record rf { current_term = args.term; role = follower }) in
      let n = args.prev_log_index - rf.last_snapshot_index + 1 in
      let (low, after) = found_append args rf2 e ok in
      let (logs, fits, next) = appended_after n args rf2 after ok in
      (
        l ∙ logs,
        s,
        low,
        fits,
        omega (arith, nx, next, length-append (take n rf.logs) args.entries, length-take n rf.logs),
        c,
      )

  -- If `AppendEntries` returns with success, the follower's log is its own up to `PrevLogIndex`,
  -- then the entries of the message, and nothing more; `NextLogIndex` is the index behind it.
  pub append_entries_success :
      (args : AppendEntriesArgs C) (rf : Raft C) {rf' : Raft C} {reply : AppendEntriesReply}
      → append_entries gob args rf ≡ some (rf', reply)
      → reply.success ≡ true
      → (last_log_index rf' ≡ args.prev_log_index + length args.entries)
        × (reply.next_log_index ≡ last_log_index rf' + 1)
        × ((i : ℕ) → i ≤ args.prev_log_index → entry_at i rf' ≡ entry_at i rf)
        × ((k : ℕ) → entry_at (args.prev_log_index + 1 + k) rf' ≡ get_elem? args.entries k)
  unfolding entry_at
  append_entries_success args rf {rf'} h g =
      let (l, s, low, fits, next, _) = success_log args rf h g in
      let n = args.prev_log_index - rf.last_snapshot_index + 1 in
      let kept = take n rf.logs in
      let size : length rf'.logs ≡ n + length args.entries =
        omega (arith, ap length l, length-append kept args.entries, length-take n rf.logs) in
      let kept_size : length kept ≡ n = omega (arith, length-take n rf.logs) in
      (
        omega (arith, size, s),
        omega (arith, size, s, next),
        λ i le. ground (
          arith,
          s,
          ap (λ xs. get_elem? xs (i - rf.last_snapshot_index)) l,
          get_elem?-append_left kept args.entries (i - rf.last_snapshot_index),
          get_elem?-take n rf.logs (i - rf.last_snapshot_index),
        ),
        λ k.
            let at : args.prev_log_index + 1 + k - rf.last_snapshot_index ≡ length kept + k =
              omega (arith, kept_size) in
            ground (
              arith,
              s,
              ap (λ xs. get_elem? xs (args.prev_log_index + 1 + k - rf.last_snapshot_index)) l,
              ap (get_elem? (kept ++ args.entries)) at,
              get_elem?-append_right kept args.entries k,
            ),
      )
