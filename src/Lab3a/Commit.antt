-- ===== src/Lab3a/Commit.antt =====
-- `updateCommitIndex`: a leader commits entries of its own term that a majority has.
pub mod OwnTerm
use major_assignments.Common.{
  ltb, leb, ◌==◌, if◌then◌else◌, ◌>>=◌, length, get_elem?, ℕ, zero, suc, ◌+◌, ◌-◌, ◌/◌, Bool, true,
  false, ◌&&◌, Option, some, List, [], ◌∷◌,
}
use major_assignments.Lab3a.Types.{Raft}

-- The inner loop: is the index reached by more than half of the match indices?
unfoldable pub is_held : List ℕ → ℕ → ℕ → ℕ → Bool
is_held [] i count half = false
is_held (m ∷ ms) i count half =
    let rest = is_held ms i (if leb i m then count + 1 else count) half in
    if leb i m && ltb half (count + 1) then true else rest

module _ {C : Type 0} where
  -- The outer loop, with the rounds that are left, the index of the round, and the flag `commit`.
  unfoldable pub commit_from : ℕ → ℕ → Bool → Raft C → Option (Raft C × Bool)
  unfolding is_held
  commit_from zero i flag rf = some (rf, flag)
  commit_from (suc k) i flag rf =
      let on = commit_from k (i + 1) flag rf in
      if is_held rf.match_index i 0 (rf.peers / 2)
      then (do
        entry ← get_elem? rf.log_entries i
        if entry.term == rf.term
            then commit_from k (i + 1) true (record rf { okbutnocommit = i; commit_index = i })
            else commit_from k (i + 1) flag (record rf { okbutnocommit = i }))
      else if rf.okbutnocommit == i
      then on
      else some (rf, flag)

  unfoldable pub update_commit_index : Raft C → Option (Raft C)
  unfolding commit_from
  update_commit_index rf = do
    (rf', flag) ←
        commit_from (length rf.log_entries - rf.commit_index) (rf.commit_index + 1) false rf
    some (record rf' {
      notify_apply_ch = if flag then rf'.notify_apply_ch + 1 else rf'.notify_apply_ch;
    })
