-- ===== src/Cluster/Logs/Change.antt =====
-- What a leader's own steps do to a segment: a command behind it, a snapshot of its beginning, a
-- message with its end.
use major_assignments.Common.{
  ltb, leb, ◌==◌, ltb→lt, ltb→ge, ==→eq, Bool-cases, Option-cases, >>=-eq-some, length, get_elem?,
  drop, length-append, length-drop, get_elem?-drop, get_elem?-append_left, get_elem?-append_right,
  ℕ, zero, suc, ◌+◌, ◌-◌, ◌<◌, ◌≡◌, refl, sym, ap, ◌∙◌, ◌⊎◌, inl, inr, ◌||◌, none, some, List, [],
  ◌∷◌, ◌++◌, arith,
}
use major_assignments.Cluster.Logs.Segment.{
  term_of, IsSegment, IsPrefix-append, some-lt, IsSegment-more, IsCarried,
}
use major_assignments.Raft.Append.{AppendEntriesArgs}
use major_assignments.Raft.Log.{last_log_index}
use major_assignments.Raft.Send.{AppendLogs, get_append_logs, prepare_append}
use major_assignments.Raft.Send.Replication.{get_append_logs_lem, made_of}
use major_assignments.Raft.Snapshot.Trim.{entry_at-get_elem?}
use major_assignments.Raft.Types.{leader, LogEntry, Raft}

module _ {C : Type 0} where
  pub snoc-IsSegment :
      (index term : ℕ) (es xs : List (LogEntry C)) (e : LogEntry C)
      → IsSegment index term es xs
      → index + length es ≡ length xs
      → IsSegment index term (es ++ e ∷ []) (xs ++ e ∷ [])
  snoc-IsSegment index term es xs e h full = record {
    nonempty = omega (arith, size);
    fits = omega (arith, size, length-append xs (e ∷ []));
    entries_ok = λ k lo hi. elim (Bool-cases (ltb k (length es))) [
      | inl lt ↦
          let lt = ltb→lt k (length es) lt in
          get_elem?-append_left es (e ∷ []) k lt ∙ more.entries_ok k lo lt
      | inr ge ↦
          let at : length es + 0 ≡ k = omega (arith, size, ltb→ge k (length es) ge) in
          let there : length xs + 0 ≡ index + k = omega arith in
          sym (ap (get_elem? (es ++ e ∷ [])) at)
          ∙ get_elem?-append_right es (e ∷ []) 0
          ∙ sym (get_elem?-append_right xs (e ∷ []) 0)
          ∙ ap (get_elem? (xs ++ e ∷ [])) there
    ];
    head_term = ap term_of (get_elem?-append_left es (e ∷ []) 0 h.nonempty) ∙ h.head_term;
    whole_term = more.whole_term;
  }
    where
      size : length (es ++ e ∷ []) ≡ suc (length es)
      size = omega (arith, length-append es (e ∷ []))

      more : IsSegment index term es (xs ++ e ∷ [])
      more = IsSegment-more index term es xs (xs ++ e ∷ []) (IsPrefix-append xs (e ∷ [])) h

  -- The term of an entry, its head included, is that of the whole log.
  pub segment_term :
      (index term : ℕ) (es xs : List (LogEntry C)) (k : ℕ) (e : LogEntry C)
      → IsSegment index term es xs
      → get_elem? es k ≡ some e
      → term_of (get_elem? xs (index + k)) ≡ some e.term
  segment_term index term es xs zero e h p =
      let at : index ≡ index + 0 = omega arith in
      ap (λ j. term_of (get_elem? xs j)) (sym at) ∙ h.whole_term ∙ sym h.head_term ∙ ap term_of p
  segment_term index term es xs (suc k) e h p =
      ap term_of (sym (h.entries_ok (suc k) (omega arith) (some-lt es (suc k) p)) ∙ p)

  pub trim-IsSegment :
      (index term : ℕ) (es xs : List (LogEntry C)) (k : ℕ) (e : LogEntry C)
      → IsSegment index term es xs
      → get_elem? es k ≡ some e
      → IsSegment (index + k) e.term (record { term = e.term; command = none } ∷ drop (suc k) es) xs
  trim-IsSegment index term es xs k e h p = record {
    nonempty = omega arith;
    fits = omega (arith, size, lt, h.fits);
    entries_ok = λ j lo hi. rest j lo (omega (arith, size, lt, hi));
    head_term = refl;
    whole_term = segment_term index term es xs k e h p;
  }
    where
      lt : k < length es
      lt = some-lt es k p

      size : length (drop (suc k) es) ≡ length es - suc k
      size = length-drop (suc k) es

      rest :
          (j : ℕ)
          → 0 < j
          → k + j < length es
          → get_elem? (record { term = e.term; command = none } ∷ drop (suc k) es) j
            ≡ get_elem? xs (index + k + j)
      rest zero lo hi = absurd (omega arith)
      rest (suc j) lo hi =
          let a : suc k + j ≡ k + suc j = omega arith in
          let b : index + (k + suc j) ≡ index + k + suc j = omega arith in
          get_elem?-drop (suc k) es j
          ∙ ap (get_elem? es) a
          ∙ h.entries_ok (k + suc j) (omega arith) hi
          ∙ ap (get_elem? xs) b

  prev_term :
      (peer_id : ℕ) (rf : Raft C) {l : AppendLogs C}
      → get_append_logs peer_id rf ≡ some l
      → ((l.prev_log_index ≡ rf.last_snapshot_index) × (l.prev_log_term ≡ rf.last_snapshot_term))
        ⊎ ((e : LogEntry C) × (get_elem? rf.logs (l.prev_log_index - rf.last_snapshot_index)
              ≡ some e)
            × (e.term ≡ l.prev_log_term))
  unfolding get_append_logs
  prev_term peer_id rf {l} h =
      let (next, p, q) = >>=-eq-some (get_elem? rf.next_index peer_id) _ h in
      let last = rf.last_snapshot_index + length rf.logs - 1 - rf.last_snapshot_index in
      let at : last ≡ length rf.logs - 1 = omega arith in
      elim (Bool-cases (leb next rf.last_snapshot_index || ltb (last_log_index rf) next)) [
        | inl e ↦ elim (Option-cases (get_elem? rf.logs (length rf.logs - 1))) [
          | inl n ↦ absurd (ground arith)
          | inr (x, px) ↦ inr (x, ground (arith, ap (get_elem? rf.logs) at), ground arith)
        ]
        | inr e ↦ elim (Bool-cases (next - 1 == rf.last_snapshot_index)) [
          | inl same ↦ inl (ground (arith, ==→eq _ _ same), ground arith)
          | inr other ↦
              elim (Option-cases (get_elem? rf.logs (next - 1 - rf.last_snapshot_index))) [
                | inl n ↦ absurd (ground arith)
                | inr (x, px) ↦ inr (x, ground arith, ground arith)
              ]
        ]
      ]

  pub prepared_by :
      (peer_id : ℕ) (rf : Raft C) {rf' : Raft C} {args : AppendEntriesArgs C} {l : AppendLogs C}
      → prepare_append peer_id rf ≡ some (rf', some args)
      → get_append_logs peer_id rf ≡ some l
      → (args.prev_log_term ≡ l.prev_log_term)
        × (args.leader_id ≡ rf.me)
        × (args.term ≡ rf.current_term)
        × (rf.role ≡ leader)
  unfolding prepare_append
  prepared_by peer_id rf h g = ground arith

  -- What a leader with its whole log prepares is carried by that log.
  pub prepared-IsCarried :
      (peer_id : ℕ) (rf : Raft C) (whole : List (LogEntry C)) {rf' : Raft C}
      {args : AppendEntriesArgs C}
      → prepare_append peer_id rf ≡ some (rf', some args)
      → IsSegment rf.last_snapshot_index rf.last_snapshot_term rf.logs whole
      → rf.last_snapshot_index + length rf.logs ≡ length whole
      → IsCarried args whole
  prepared-IsCarried peer_id rf whole {args} h seg full =
      let (l, e, prev, es, _, _) = made_of peer_id rf h in
      let (ends, low, same) = get_append_logs_lem peer_id rf e in
      let by = prepared_by peer_id rf h e in
      let n : length args.entries ≡ length l.log_entries = ap length es in
      record {
        carried_fits = omega (arith, full, ends, n, seg.nonempty);
        prev_ok =
            rw (prev, by.0)
              (elim (prev_term peer_id rf e) [
                | inl (a, b) ↦ rw (a, b) (seg.whole_term)
                | inr (x, p, q) ↦
                    let k = l.prev_log_index - rf.last_snapshot_index in
                    let at : rf.last_snapshot_index + k ≡ l.prev_log_index = omega arith in
                    ap (λ j. term_of (get_elem? whole j)) (sym at)
                    ∙ segment_term rf.last_snapshot_index rf.last_snapshot_term rf.logs whole k x
                        seg p
                    ∙ ap some q
              ]);
        carried_ok = λ k lt.
            let m = l.prev_log_index + 1 + k - rf.last_snapshot_index in
            let at : rf.last_snapshot_index + m ≡ args.prev_log_index + 1 + k = omega arith in
            ap (λ xs. get_elem? xs k) es
            ∙ same k
            ∙ entry_at-get_elem? (l.prev_log_index + 1 + k) m rf (omega arith)
            ∙ seg.entries_ok m (omega arith) (omega (arith, ends, n))
            ∙ ap (get_elem? whole) at;
      }
