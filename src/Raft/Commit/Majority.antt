-- ===== src/Raft/Commit/Majority.antt =====
-- `tryCommitLog` finds the greatest index of the log that a majority has.
use major_assignments.Common.{
  ltb, leb, ◌==◌, leb→le, leb→gt, ==→eq, Bool-cases, count_ge, count_ge_antitone, ℕ, zero, suc, ◌+◌,
  ◌-◌, ◌/◌, ◌≤◌, ◌<◌, ◌≡◌, refl, ap, inl, inr, some, List, [], ◌∷◌, arith,
}
use major_assignments.Raft.Commit.{reaches, commit_rounds, try_commit_log}
use major_assignments.Raft.Log.{last_log_index}
use major_assignments.Raft.Types.{Raft}

reaches_lem :
    (ms : List ℕ) (i count half : ℕ)
    → count ≤ half
    → reaches ms i count half ≡ ltb half (count + count_ge i ms)
unfolding reaches
reaches_lem [] i count half h = ground arith
reaches_lem (m ∷ ms) i count half h =
    ground (arith, reaches_lem ms i (count + 1) half, reaches_lem ms i count half)

abbrev pub HasMajority : ℕ → List ℕ → ℕ → Type 0
HasMajority half ms j = half < count_ge j ms

record IsCommitted (k commit half : ℕ) (ms : List ℕ) (c : ℕ) : Type 0 where
  low : commit ≤ c
  high : c ≤ commit + k
  held : (j : ℕ) → commit < j → j ≤ c → HasMajority half ms j
  stops : c < commit + k → ¬ HasMajority half ms (c + 1)

commit_rounds-IsCommitted :
    (k i : ℕ) (ms : List ℕ) (half commit : ℕ)
    → i ≡ commit + 1
    → IsCommitted k commit half ms (commit_rounds k i ms half commit)
unfolding commit_rounds
commit_rounds-IsCommitted zero i ms half commit e = record {
  low = omega arith;
  high = omega arith;
  held = λ j a b. omega arith;
  stops = λ h. omega arith;
}
commit_rounds-IsCommitted (suc k) i ms half commit e = elim (Bool-cases (reaches ms i 0 half)) [
  | inl yes' ↦
      let ih = commit_rounds-IsCommitted k (i + 1) ms half i refl in
      let met : half < count_ge i ms = ground (arith, reaches_lem ms i 0 half) in
      rw yes' (record {
        low = omega (arith, ih.low);
        high = omega (arith, ih.high);
        held = λ j a b. at_or_after j met ih.held a b;
        stops = λ h. ih.stops (omega arith);
      })
  | inr no' ↦ rw no' (record {
    low = omega arith;
    high = omega arith;
    held = λ j a b. omega arith;
    stops = λ _ h. absurd (ground (arith, reaches_lem ms i 0 half, ap (λ n. count_ge n ms) e));
  })
]
  where
    at_or_after :
        {c : ℕ} (j : ℕ)
        → half < count_ge i ms
        → ((m : ℕ) → i < m → m ≤ c → HasMajority half ms m)
        → commit < j
        → j ≤ c
        → HasMajority half ms j
    at_or_after j h held a b = elim (Bool-cases (j == i)) [
      | inl p ↦ rw (==→eq j i p) h
      | inr p ↦ held j (ground arith) b
    ]

greatest :
    (k commit half : ℕ) (ms : List ℕ) (c j : ℕ)
    → IsCommitted k commit half ms c
    → j ≤ commit + k
    → HasMajority half ms j
    → j ≤ c
greatest k commit half ms c j r b m = elim (Bool-cases (leb j c)) [
  | inl e ↦ leb→le j c e
  | inr e ↦
      let lt : c < j = leb→gt j c e in
      absurd (r.stops (omega arith) (omega (arith, count_ge_antitone (c + 1) j ms (omega arith))))
]

commit_of :
    {C : Type 0} (rf : Raft C) {rf' : Raft C}
    → try_commit_log rf ≡ some rf'
    → rf'.commit_index
      ≡ commit_rounds
          (last_log_index rf - rf.commit_index)
          (rf.commit_index + 1)
          rf.match_index
          (rf.peers / 2)
          rf.commit_index
unfolding try_commit_log
commit_of rf h = ground arith

-- If the commit index is inside the log and `tryCommitLog` returns, the commit index is then the
-- greatest index of the log that more than half of the peers have, by the leader's record of them,
-- or what it was before, if that is greater. It has not gone down, and every index that it newly
-- covers is held by such a majority.
pub try_commit_log_lem :
    {C : Type 0} (rf : Raft C) {rf' : Raft C}
    → rf.commit_index ≤ last_log_index rf
    → try_commit_log rf ≡ some rf'
    → (rf.commit_index ≤ rf'.commit_index)
      × (rf'.commit_index ≤ last_log_index rf)
      × ((j : ℕ)
          → rf.commit_index < j
          → j ≤ rf'.commit_index
          → HasMajority (rf.peers / 2) rf.match_index j)
      × ((j : ℕ)
          → j ≤ last_log_index rf
          → HasMajority (rf.peers / 2) rf.match_index j
          → j ≤ rf'.commit_index)
try_commit_log_lem rf {rf'} w h =
    let k = last_log_index rf - rf.commit_index in
    let half = rf.peers / 2 in
    let c =
      commit_rounds-IsCommitted k (rf.commit_index + 1) rf.match_index half rf.commit_index refl in
    let e = commit_of rf h in
    (
      omega (arith, c.low, e),
      omega (arith, c.high, e),
      λ j a b. c.held j a (omega (arith, e)),
      λ j a b.
          omega (arith, greatest k rf.commit_index half rf.match_index _ j c (omega arith) b, e),
    )
