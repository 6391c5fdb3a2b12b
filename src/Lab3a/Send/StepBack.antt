-- ===== src/Lab3a/Send/StepBack.antt =====
-- The loop of `checkReply` that goes back over a term.
use major_assignments.Common.{
  ltb, ◌==◌, ==→eq, Bool-cases, Returns, Returns-map, set?-get_elem?, length, get_elem?,
  get_elem?-lt, ℕ, zero, suc, ◌≤◌, ◌<◌, ◌≡◌, ap, inl, inr, false, none, some, List, arith,
}
use major_assignments.Lab3a.Append.{AppendEntriesReply, HeartBeatArgs, get_append_entries_args}
use major_assignments.Lab3a.Persist.{Saved}
use major_assignments.Lab3a.Send.{step_back, check_reply}
use major_assignments.Lab3a.Types.{leader, LogEntry, Raft}
use major_assignments.Labgob.{Labgob}

-- What the loop leaves: an index in front of `id` with an older entry, behind which none is older.
abbrev pub IsStepBack : {C : Type 0} → List (LogEntry C) → ℕ → ℕ → ℕ → Type 0
IsStepBack log term id r =
    (r < id)
    × ((old : LogEntry _) × (get_elem? log r ≡ some old) × (old.term < term))
    × ((j : ℕ) (x : LogEntry _) → r < j → j < id → get_elem? log j ≡ some x → term ≤ x.term)

module _ {C : Type 0} (log : List (LogEntry C)) (term : ℕ) where
  one_more :
      (id r : ℕ) (x : LogEntry C)
      → get_elem? log id ≡ some x
      → term ≤ x.term
      → IsStepBack log term id r
      → IsStepBack log term (suc id) r
  one_more id r x p newer b = (
    omega (arith, b.0),
    b.1,
    λ j y above below q. elim (Bool-cases (j == id)) [
      | inl same ↦ at_id j y (==→eq j id same) q
      | inr other ↦ b.2 j y above (ground arith) q
    ],
  )
    where
      at_id : (j : ℕ) (y : LogEntry C) → j ≡ id → get_elem? log j ≡ some y → term ≤ y.term
      at_id j y e q = ground (arith, ap (get_elem? log) e)

  positive_of :
      (id : ℕ) {e x : LogEntry C}
      → get_elem? log 0 ≡ some e
      → e.term < term
      → get_elem? log id ≡ some x
      → term ≤ x.term
      → 0 < id
  positive_of zero first lt p newer = absurd (ground arith)
  positive_of (suc id) first lt p newer = omega arith

  -- In front of a positive index inside the log, where entry 0 is of an older term, the loop ends: at
  -- an entry of an older term, behind which no entry up to the index is of an older one.
  pub step_back_lem :
      (id : ℕ) (e : LogEntry C)
      → get_elem? log 0 ≡ some e
      → e.term < term
      → 0 < id
      → id ≤ length log
      → Returns (step_back log term id) (IsStepBack log term id)
  unfolding step_back
  step_back_lem zero e h lt pos le = absurd (omega arith)
  step_back_lem (suc id) e h lt pos le =
      let (x, p) = get_elem?-lt log id (omega arith) in
      elim (Bool-cases (ltb x.term term)) [
        | inl older ↦
            rw p (rw older (omega arith, (x, p, ground arith), λ j y a b q. absurd (omega arith)))
        | inr newer ↦
            let later : 0 < id = positive_of id h lt p (ground arith) in
            rw p (
              rw newer (
                Returns-map (λ r b. one_more id r x p (ground arith) b) (step_back log term id)
                  (step_back_lem id e h lt later (omega arith))))
      ]

module _ {C : Type 0} (gob : Labgob (Saved C)) where
  -- A leader whose message with `PrevLogIndex` 1 is refused by a follower that ends at index 1 with an
  -- entry of another term sets the next index of the follower to 0, and the next message to it is an
  -- access to the log at -1.
  pub short_conflict_panics :
      (peer_idx : ℕ) (args : HeartBeatArgs C) (reply : AppendEntriesReply) (rf : Raft C)
      (e : LogEntry C)
      → get_elem? rf.next_index peer_idx ≡ some 2
      → rf.state ≡ leader
      → rf.term ≡ args.term
      → reply.term ≤ rf.term
      → reply.success ≡ false
      → reply.next_index ≡ 2
      → get_elem? rf.log_entries 0 ≡ some e
      → e.term < args.perv_log_term
      → Returns
          (check_reply gob peer_idx args reply rf)
          (λ r. (r.1 ≡ false) × (get_append_entries_args peer_idx r.0 ≡ none))
  unfolding check_reply get_append_entries_args
  short_conflict_panics peer_idx args reply rf e next lead same older refused next' h lt =
      let (nexts, put, at) = set?-get_elem? rf.next_index peer_idx 0 next in ground (arith, put, at)
