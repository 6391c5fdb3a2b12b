-- ===== src/Cluster/Logs/Accept.antt =====
-- What a follower's log is after a message of a leader.
use major_assignments.Common.{
  ltb, ltb→lt, ltb→ge, Bool-cases, length, get_elem?, take, length-append, length-take,
  get_elem?-take, get_elem?-append_left, get_elem?-append_right, ℕ, ◌+◌, ◌-◌, ◌≤◌, ◌≡◌, sym, ap,
  ◌∙◌, inl, inr, true, some, List, ◌++◌, arith,
}
use major_assignments.Cluster.Logs.Segment.{
  term_of, IsSegment, IsCoherent, coherent_agree, IsCarried,
}
use major_assignments.Labgob.{Labgob}
use major_assignments.Raft.Append.{AppendEntriesArgs, AppendEntriesReply, append_entries}
use major_assignments.Raft.Append.Accepted.{accepted_term, accepted_same}
use major_assignments.Raft.Append.Matching.{success_log}
use major_assignments.Raft.Persist.{Saved}
use major_assignments.Raft.Types.{LogEntry, Raft}

module _ {C : Type 0} where
  -- The kept part of a log and the entries of a message are together a segment of the leader's log,
  -- if the two logs agree where the message begins.
  pub accepted-IsSegment :
      (led : ℕ → List (LogEntry C)) (index term : ℕ) (es own whole : List (LogEntry C))
      (args : AppendEntriesArgs C)
      → IsCoherent led own
      → IsCoherent led whole
      → IsSegment index term es own
      → IsCarried args whole
      → index ≤ args.prev_log_index
      → args.prev_log_index - index + 1 ≤ length es
      → term_of (get_elem? own args.prev_log_index) ≡ some args.prev_log_term
      → IsSegment index term (take (args.prev_log_index - index + 1) es ++ args.entries) whole
  accepted-IsSegment led index term es own whole args a b seg car low fit at = record {
    nonempty = omega (arith, size);
    fits = omega (arith, size, car.carried_fits);
    entries_ok = λ k lo hi. elim (Bool-cases (ltb k n)) [
      | inl lt ↦
          let lt = ltb→lt k n lt in
          get_elem?-append_left kept args.entries k (omega (arith, kept_size))
          ∙ get_elem?-take n es k lt
          ∙ seg.entries_ok k lo (omega arith)
          ∙ agree (index + k) (omega arith)
      | inr ge ↦
          let ge = ltb→ge k n ge in
          let spot : length kept + (k - n) ≡ k = omega (arith, kept_size) in
          let there : args.prev_log_index + 1 + (k - n) ≡ index + k = omega arith in
          sym (ap (get_elem? (kept ++ args.entries)) spot)
          ∙ get_elem?-append_right kept args.entries (k - n)
          ∙ car.carried_ok (k - n) (omega (arith, size))
          ∙ ap (get_elem? whole) there
    ];
    head_term =
        ap term_of (
          get_elem?-append_left kept args.entries 0 (omega (arith, kept_size))
          ∙ get_elem?-take n es 0 (omega arith))
        ∙ seg.head_term;
    whole_term = sym (ap term_of (agree index low)) ∙ seg.whole_term;
  }
    where
      n : ℕ
      n = args.prev_log_index - index + 1

      kept : List (LogEntry C)
      kept = take n es

      kept_size : length kept ≡ n
      kept_size = omega (arith, length-take n es)

      size : length (kept ++ args.entries) ≡ n + length args.entries
      size = omega (arith, length-append kept args.entries, kept_size)

      agree : (j : ℕ) → j ≤ args.prev_log_index → get_elem? own j ≡ get_elem? whole j
      agree = coherent_agree led own whole args.prev_log_index args.prev_log_term a b at car.prev_ok

module _ {C : Type 0} (gob : Labgob (Saved C)) where
  -- A success that is served: the follower holds a segment of the leader's log.
  pub append_entries-IsSegment :
      (led : ℕ → List (LogEntry C)) (own whole : List (LogEntry C)) (args : AppendEntriesArgs C)
      (rf : Raft C) {rf' : Raft C} {reply : AppendEntriesReply}
      → append_entries gob args rf ≡ some (rf', reply)
      → reply.success ≡ true
      → (args.prev_log_index ≡ rf.last_snapshot_index → args.prev_log_term ≡ rf.last_snapshot_term)
      → IsCoherent led own
      → IsCoherent led whole
      → IsSegment rf.last_snapshot_index rf.last_snapshot_term rf.logs own
      → IsCarried args whole
      → IsSegment rf'.last_snapshot_index rf'.last_snapshot_term rf'.logs whole
  append_entries-IsSegment led own whole args rf {rf'} h g snap a b seg car =
      let (l, i, low, fit, _, _) = success_log gob args rf h g in
      let (t, _, _, _) = accepted_same gob args rf h g in
      rw (l, i, t)
        (accepted-IsSegment led rf.last_snapshot_index rf.last_snapshot_term rf.logs own whole args
          a b seg car low fit (where_it_begins low fit))
    where
      where_it_begins :
          rf.last_snapshot_index ≤ args.prev_log_index
          → args.prev_log_index - rf.last_snapshot_index + 1 ≤ length rf.logs
          → term_of (get_elem? own args.prev_log_index) ≡ some args.prev_log_term
      where_it_begins low fit =
          let k = args.prev_log_index - rf.last_snapshot_index in
          let at : rf.last_snapshot_index + k ≡ args.prev_log_index = omega arith in
          elim (accepted_term gob args rf h g) [
            | inl e ↦ rw e (seg.whole_term ∙ ap some (sym (snap e)))
            | inr (e, p, q) ↦ elim (Bool-cases (ltb rf.last_snapshot_index args.prev_log_index)) [
              | inl lt ↦
                  let lt = ltb→lt rf.last_snapshot_index args.prev_log_index lt in
                  let there = seg.entries_ok k (omega arith) (omega arith) in
                  ap term_of (sym (ap (get_elem? own) at) ∙ sym there ∙ p) ∙ ap some q
              | inr ge ↦
                  let e : args.prev_log_index ≡ rf.last_snapshot_index =
                    omega (arith, ltb→ge rf.last_snapshot_index args.prev_log_index ge) in
                  rw e (seg.whole_term ∙ ap some (sym (snap e)))
            ]
          ]
