-- ===== src/Lab3a/Commit/OwnTerm.antt =====
-- What `updateCommitIndex` commits.
use mathlib.Core.Path.{subst}
use major_assignments.Common.{
  ltb, leb, ◌==◌, leb→le, leb→gt, ==→eq, Bool-cases, Returns, Returns-some, Returns-map, AllBelow,
  count_ge, count_ge_antitone, length, get_elem?, get_elem?-lt, ℕ, zero, suc, ◌+◌, ◌-◌, ◌/◌, ◌≤◌,
  ◌<◌, ◌≡◌, refl, sym, ◌⊎◌, inl, inr, Bool, true, false, some, List, [], ◌∷◌, arith,
}
use major_assignments.Lab3a.Commit.{is_held, commit_from, update_commit_index}
use major_assignments.Lab3a.Types.{LogEntry, Raft}

is_held_lem :
    (ms : List ℕ) (i c half : ℕ) → c ≤ half → is_held ms i c half ≡ ltb half (c + count_ge i ms)
unfolding is_held
is_held_lem [] i c half h = ground arith
is_held_lem (m ∷ ms) i c half h =
    ground (arith, is_held_lem ms i (c + 1) half, is_held_lem ms i c half)

-- More than half of the match indices are at least `j`.
abbrev pub HasHalf : {C : Type 0} → Raft C → ℕ → Type 0
HasHalf rf j = rf.peers / 2 < count_ge j rf.match_index

count_ge_above : (n j : ℕ) (ms : List ℕ) → AllBelow n ms → n ≤ j → count_ge j ms ≡ 0
count_ge_above n j [] h le = refl
count_ge_above n j (m ∷ ms) h le = ground (arith, count_ge_above n j ms, h)

module _ {C : Type 0} where
  record IsCounted (rf : Raft C) (last : ℕ) (rf' : Raft C) : Type 0 where
    not_back : rf.commit_index ≤ rf'.commit_index
    own_term :
        (rf'.commit_index ≡ rf.commit_index)
        ⊎ (HasHalf rf rf'.commit_index
            × ((e : LogEntry C) × (get_elem? rf.log_entries rf'.commit_index ≡ some e)
                × (e.term ≡ rf.term)))
    all_of_term :
        (j : ℕ) (e : LogEntry C)
        → last ≤ j
        → j < length rf.log_entries
        → HasHalf rf j
        → get_elem? rf.log_entries j ≡ some e
        → e.term ≡ rf.term
        → j ≤ rf'.commit_index

  held_inside :
      (i : ℕ) (rf : Raft C)
      → AllBelow (length rf.log_entries) rf.match_index
      → HasHalf rf i
      → i < length rf.log_entries
  held_inside i rf below m = elim (Bool-cases (ltb i (length rf.log_entries))) [
    | inl p ↦ ground arith
    | inr p ↦ absurd (
        omega
          (arith, m, count_ge_above (length rf.log_entries) i rf.match_index below (ground arith)))
  ]

  -- A round that commits nothing at its index, since nothing is to be committed there.
  skipped :
      (i o : ℕ) (rf : Raft C) {rf' : Raft C}
      → ((x : LogEntry C)
          → HasHalf rf i
          → get_elem? rf.log_entries i ≡ some x
          → ¬ (x.term ≡ rf.term))
      → IsCounted (record rf { okbutnocommit = o }) (i + 1) rf'
      → IsCounted rf i rf'
  skipped i o rf {rf'} none_here c = record {
    not_back = c.not_back;
    own_term = c.own_term;
    all_of_term = λ j x a b m g t. elim (Bool-cases (j == i)) [
      | inl same ↦
          let e = ==→eq j i same in
          absurd (
            none_here x (subst (HasHalf rf) e m)
              (subst (λ n. get_elem? rf.log_entries n ≡ some x) e g) t)
      | inr later ↦ c.all_of_term j x (ground arith) b m g t
    ];
  }

  -- A round that commits its index.
  committed :
      (i : ℕ) (rf : Raft C) {rf' : Raft C} (x : LogEntry C)
      → rf.commit_index < i
      → HasHalf rf i
      → get_elem? rf.log_entries i ≡ some x
      → x.term ≡ rf.term
      → IsCounted (record rf { okbutnocommit = i; commit_index = i }) (i + 1) rf'
      → IsCounted rf i rf'
  committed i rf {rf'} x lt met p own c = record {
    not_back = omega (arith, c.not_back);
    own_term = inr (elim c.own_term [
      | inl stays ↦ (
        subst (HasHalf rf) (sym stays) met,
        (x, subst (λ n. get_elem? rf.log_entries n ≡ some x) (sym stays) p, own),
      )
      | inr moved ↦ moved
    ]);
    all_of_term = λ j y a b m g t. elim (Bool-cases (j == i)) [
      | inl same ↦ omega (arith, ==→eq j i same, c.not_back)
      | inr later ↦ c.all_of_term j y (ground arith) b m g t
    ];
  }

  commit_from-IsCounted :
      (k i : ℕ) (flag : Bool) (rf : Raft C)
      → rf.commit_index < i
      → i + k ≡ length rf.log_entries + 1
      → AllBelow (length rf.log_entries) rf.match_index
      → Returns (commit_from k i flag rf) (λ r. IsCounted rf i r.0)
  unfolding commit_from
  commit_from-IsCounted zero i flag rf lt e below = record {
    not_back = omega arith;
    own_term = inl refl;
    all_of_term = λ j x a b m g t. absurd (omega arith);
  }
  commit_from-IsCounted (suc k) i flag rf lt e below =
      let lem = is_held_lem rf.match_index i 0 (rf.peers / 2) (omega arith) in
      elim (Bool-cases (is_held rf.match_index i 0 (rf.peers / 2))) [
        | inl held ↦
            let met : HasHalf rf i = ground arith in
            let inside = held_inside i rf below met in
            let (x, p) = get_elem?-lt rf.log_entries i inside in
            elim (Bool-cases (x.term == rf.term)) [
              | inl own ↦ rw held (
                  rw p (
                    rw own (
                      Returns-map (λ r c. committed i rf x lt met p (==→eq x.term rf.term own) c)
                        (commit_from k (i + 1) true
                          (record rf { okbutnocommit = i; commit_index = i }))
                        (commit_from-IsCounted k (i + 1) true
                          (record rf { okbutnocommit = i; commit_index = i }) (omega arith)
                          (omega arith) below))))
              | inr other ↦ rw held (
                  rw p (
                    rw other (
                      Returns-map (λ r c. skipped i i rf (λ y m g t. absurd (ground arith)) c)
                        (commit_from k (i + 1) flag (record rf { okbutnocommit = i }))
                        (commit_from-IsCounted k (i + 1) flag (record rf { okbutnocommit = i })
                          (omega arith) (omega arith) below))))
            ]
        | inr short ↦
            let unmet : ¬ HasHalf rf i = λ m. ground arith in
            elim (Bool-cases (rf.okbutnocommit == i)) [
              | inl on ↦ rw short (
                  rw on (
                    Returns-map (λ r c. skipped i rf.okbutnocommit rf (λ x m g t. unmet m) c)
                      (commit_from k (i + 1) flag rf)
                      (commit_from-IsCounted k (i + 1) flag rf (omega arith) (omega arith) below)))
              | inr stop ↦ rw short (
                  rw stop (record {
                    not_back = omega arith;
                    own_term = inl refl;
                    all_of_term = λ j x a b m g t.
                        absurd (unmet (omega (arith, m, count_ge_antitone i j rf.match_index a)));
                  }))
            ]
      ]

-- If every match index is inside the log, and the commit index too, `updateCommitIndex` returns; the
-- commit index has not gone down; if it has moved, it is that of an entry of the leader's term which
-- more than half of the peers have; and every such entry is now committed.
pub update_commit_index_lem :
    {C : Type 0} (rf : Raft C)
    → AllBelow (length rf.log_entries) rf.match_index
    → rf.commit_index ≤ length rf.log_entries
    → Returns (update_commit_index rf) (λ rf'.
      (rf.commit_index ≤ rf'.commit_index)
      × ((rf'.commit_index ≡ rf.commit_index)
          ⊎ (HasHalf rf rf'.commit_index
              × ((e : LogEntry C) × (get_elem? rf.log_entries rf'.commit_index ≡ some e)
                  × (e.term ≡ rf.term))))
      × ((j : ℕ) (e : LogEntry C)
          → j < length rf.log_entries
          → HasHalf rf j
          → get_elem? rf.log_entries j ≡ some e
          → e.term ≡ rf.term
          → j ≤ rf'.commit_index))
unfolding update_commit_index
update_commit_index_lem rf below le =
    let (r, p, c) =
      Returns-some
        (commit_from (length rf.log_entries - rf.commit_index) (rf.commit_index + 1) false rf)
        (commit_from-IsCounted (length rf.log_entries - rf.commit_index) (rf.commit_index + 1) false
          rf (omega arith) (omega arith) below) in
    rw p (
      c.not_back,
      c.own_term,
      λ j e b m g t. elim (Bool-cases (leb j rf.commit_index)) [
        | inl old ↦ omega (arith, leb→le j rf.commit_index old, c.not_back)
        | inr new ↦ c.all_of_term j e (omega (arith, leb→gt j rf.commit_index new)) b m g t
      ],
    )
