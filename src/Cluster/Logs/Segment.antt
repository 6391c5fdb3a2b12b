-- ===== src/Cluster/Logs/Segment.antt =====
-- A log that is stored from a snapshot on, as a segment of a whole log that begins at index 0. The
-- head of a stored log stands for the entry at the snapshot and has its term only.
use major_assignments.Common.{
  ltb, ltb→lt, ltb→ge, eq→==, Bool-cases, length, get_elem?, take, length-append, length-take,
  get_elem?-lt, get_elem?-ge, get_elem?-take, get_elem?-append_left, get_elem?-append_right, ℕ, ◌+◌,
  ◌≤◌, ◌<◌, ◌≡◌, refl, sym, ap, ◌∙◌, inl, inr, Option, none, some, List, [], ◌∷◌, ◌++◌, arith,
}
use major_assignments.Cluster.{update}
use major_assignments.Cluster.Keeps.{update_all}
use major_assignments.Raft.Append.{AppendEntriesArgs}
use major_assignments.Raft.Types.{LogEntry}

abbrev pub term_of : {C : Type 0} → Option (LogEntry C) → Option ℕ
term_of none = none
term_of (some e) = some e.term

module _ {C : Type 0} where
  pub record IsSegment (index term : ℕ) (es whole : List (LogEntry C)) : Type 0 where
    pub nonempty : 0 < length es
    pub fits : index + length es ≤ length whole
    pub entries_ok : (k : ℕ) → 0 < k → k < length es → get_elem? es k ≡ get_elem? whole (index + k)
    pub head_term : term_of (get_elem? es 0) ≡ some term
    pub whole_term : term_of (get_elem? whole index) ≡ some term

  -- A whole log goes on in another one.
  abbrev pub IsPrefix : List (LogEntry C) → List (LogEntry C) → Type 0
  IsPrefix xs ys =
      (length xs ≤ length ys) × ((i : ℕ) → i < length xs → get_elem? ys i ≡ get_elem? xs i)

  pub IsPrefix-refl : (xs : List (LogEntry C)) → IsPrefix xs xs
  IsPrefix-refl xs = (omega arith, λ i lt. refl)

  pub IsPrefix-take : (k : ℕ) (xs : List (LogEntry C)) → IsPrefix (take k xs) xs
  IsPrefix-take k xs = (
    omega (arith, length-take k xs),
    λ i lt. sym (get_elem?-take k xs i (omega (arith, length-take k xs))),
  )

  pub IsPrefix-append : (xs ys : List (LogEntry C)) → IsPrefix xs (xs ++ ys)
  IsPrefix-append xs ys =
      (omega (arith, length-append xs ys), λ i lt. get_elem?-append_left xs ys i lt)

  pub some-lt :
      (xs : List (LogEntry C)) (i : ℕ) {e : LogEntry C} → get_elem? xs i ≡ some e → i < length xs
  some-lt xs i h = grind (arith, get_elem?-ge xs i)

  pub term_of-some :
      (x : Option (LogEntry C)) {t : ℕ}
      → term_of x ≡ some t
      → (e : LogEntry C) × (x ≡ some e) × (e.term ≡ t)
  term_of-some none h = absurd (cc h)
  term_of-some (some e) h = (e, refl, ground arith)

  -- A segment of the beginning of a log is a segment of the log.
  pub IsSegment-more :
      (index term : ℕ) (es xs ys : List (LogEntry C))
      → IsPrefix xs ys
      → IsSegment index term es xs
      → IsSegment index term es ys
  IsSegment-more index term es xs ys (le, same) h = record {
    nonempty = h.nonempty;
    fits = omega (arith, h.fits);
    entries_ok = λ k lo hi. h.entries_ok k lo hi ∙ sym (same (index + k) (omega (arith, h.fits)));
    head_term = h.head_term;
    whole_term = ap term_of (same index (omega (arith, h.fits, h.nonempty))) ∙ h.whole_term;
  }

  -- And a segment that is not too long is one of the beginning.
  pub IsSegment-less :
      (index term : ℕ) (es xs ys : List (LogEntry C))
      → IsPrefix xs ys
      → index + length es ≤ length xs
      → IsSegment index term es ys
      → IsSegment index term es xs
  IsSegment-less index term es xs ys (le, same) fit h = record {
    nonempty = h.nonempty;
    fits = fit;
    entries_ok = λ k lo hi. h.entries_ok k lo hi ∙ same (index + k) (omega arith);
    head_term = h.head_term;
    whole_term = sym (ap term_of (same index (omega (arith, h.nonempty)))) ∙ h.whole_term;
  }

  -- The logs that leaders have had, by term. An entry of a term stands where the leader of that term
  -- had it, behind what the leader had before it.
  abbrev pub IsCoherent : (ℕ → List (LogEntry C)) → List (LogEntry C) → Type 0
  IsCoherent led xs =
      (i : ℕ) (e : LogEntry C)
      → get_elem? xs i ≡ some e
      → (j : ℕ) → j ≤ i
      → get_elem? xs j ≡ get_elem? (led e.term) j

  -- Two coherent logs with an entry of one term at one index agree up to it.
  pub coherent_agree :
      (led : ℕ → List (LogEntry C)) (xs ys : List (LogEntry C)) (i t : ℕ)
      → IsCoherent led xs
      → IsCoherent led ys
      → term_of (get_elem? xs i) ≡ some t
      → term_of (get_elem? ys i) ≡ some t
      → (j : ℕ) → j ≤ i
      → get_elem? xs j ≡ get_elem? ys j
  coherent_agree led xs ys i t a b h k j le =
      let (e, p, u) = term_of-some (get_elem? xs i) h in
      let (f, q, v) = term_of-some (get_elem? ys i) k in
      a i e p j le ∙ ap (λ w. get_elem? (led w) j) (u ∙ sym v) ∙ sym (b i f q j le)

  pub IsCoherent-more :
      (led led' : ℕ → List (LogEntry C)) (xs : List (LogEntry C))
      → ((t : ℕ) → IsPrefix (led t) (led' t))
      → IsCoherent led xs
      → IsCoherent led' xs
  IsCoherent-more led led' xs grow h i e p j le =
      let (d, q) = get_elem?-lt xs j (omega (arith, some-lt xs i p)) in
      let there = h i e p j le in
      there ∙ sym ((grow e.term).1 j (some-lt (led e.term) j (sym there ∙ q)))

  pub IsCoherent-less :
      (led : ℕ → List (LogEntry C)) (xs ys : List (LogEntry C))
      → IsPrefix xs ys
      → IsCoherent led ys
      → IsCoherent led xs
  IsCoherent-less led xs ys (_, same) h i e p j le =
      let lt = some-lt xs i p in sym (same j (omega arith)) ∙ h i e (same i lt ∙ p) j le

  -- The leader of a term has a longer log.
  module _ (led : ℕ → List (LogEntry C)) (term : ℕ) (ys : List (LogEntry C))
      (grows : IsPrefix (led term) ys) where
    pub update_grows : (t : ℕ) → IsPrefix (led t) (update led term ys t)
    update_grows t =
        update_all (λ u zs. t ≡ u → IsPrefix (led t) zs) led term ys (λ e. rw e grows)
          (λ u e. rw e (IsPrefix-refl (led u))) t refl

    pub update-IsCoherent :
        ((t : ℕ) → IsCoherent led (led t))
        → IsCoherent (update led term ys) ys
        → (t : ℕ) → IsCoherent (update led term ys) (update led term ys t)
    update-IsCoherent h k =
        update_all (λ _ zs. IsCoherent (update led term ys) zs) led term ys k
          (λ t. IsCoherent-more led (update led term ys) (led t) update_grows (h t))

  pub append-IsCoherent :
      (led : ℕ → List (LogEntry C)) (term : ℕ) (e : LogEntry C)
      → e.term ≡ term
      → IsCoherent led (led term)
      → let ys = led term ++ e ∷ [] in IsCoherent (update led term ys) ys
  append-IsCoherent led term e t h i f p j le = elim (Bool-cases (ltb i (length (led term)))) [
    | inl lt ↦
        let lt = ltb→lt i (length (led term)) lt in
        get_elem?-append_left (led term) (e ∷ []) j (omega arith)
        ∙ old i f (sym (get_elem?-append_left (led term) (e ∷ []) i lt) ∙ p) j le
    | inr q ↦
        let at : length (led term) + 0 ≡ i = omega (arith, bound, ltb→ge i (length (led term)) q) in
        let same = get_elem?-append_right (led term) (e ∷ []) 0 in
        let found : some e ≡ some f = sym same ∙ ap (get_elem? ys) at ∙ p in
        rw (eq→== term f.term (ground arith)) refl
  ]
    where
      ys : List (LogEntry C)
      ys = led term ++ e ∷ []

      bound : i ≤ length (led term)
      bound = omega (arith, some-lt ys i p, length-append (led term) (e ∷ []))

      old : IsCoherent (update led term ys) (led term)
      old =
          IsCoherent-more led (update led term ys) (led term)
            (update_grows led term ys (IsPrefix-append (led term) (e ∷ []))) h

  -- What a message of the leader of a term carries.
  pub record IsCarried (args : AppendEntriesArgs C) (whole : List (LogEntry C)) : Type 0 where
    pub carried_fits : args.prev_log_index + 1 + length args.entries ≤ length whole
    pub prev_ok : term_of (get_elem? whole args.prev_log_index) ≡ some args.prev_log_term
    pub carried_ok :
        (k : ℕ)
        → k < length args.entries
        → get_elem? args.entries k ≡ get_elem? whole (args.prev_log_index + 1 + k)

  pub IsCarried-more :
      (args : AppendEntriesArgs C) (xs ys : List (LogEntry C))
      → IsPrefix xs ys
      → IsCarried args xs
      → IsCarried args ys
  IsCarried-more args xs ys (le, same) h = record {
    carried_fits = omega (arith, h.carried_fits);
    prev_ok = ap term_of (same args.prev_log_index (omega (arith, h.carried_fits))) ∙ h.prev_ok;
    carried_ok = λ k lt.
        h.carried_ok k lt
        ∙ sym (same (args.prev_log_index + 1 + k) (omega (arith, h.carried_fits)));
  }
