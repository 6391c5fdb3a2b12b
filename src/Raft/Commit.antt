-- ===== src/Raft/Commit.antt =====
-- `tryCommitLog`: a leader commits what a majority has.
pub mod Majority
pub mod FreshLeader
use major_assignments.Common.{
  ltb, leb, ◌==◌, if◌then◌else◌, ◌>>=◌, ℕ, zero, suc, ◌+◌, ◌-◌, ◌/◌, Bool, true, false, ◌&&◌,
  Option, some, List, [], ◌∷◌,
}
use major_assignments.Raft.Log.{get_last_log_term_and_index}
use major_assignments.Raft.Types.{Raft}

-- The inner loop: does the count of the positions that are at least `i` pass `half`? The loop ends
-- as soon as it does.
unfoldable pub reaches : List ℕ → ℕ → ℕ → ℕ → Bool
reaches [] i count half = false
reaches (m ∷ ms) i count half =
    let rest = reaches ms i (if leb i m then count + 1 else count) half in
    if leb i m && ltb half (count + 1) then true else rest

-- The outer loop with the rounds that are left, the index of the round, and the commit index so far.
unfoldable pub commit_rounds : ℕ → ℕ → List ℕ → ℕ → ℕ → ℕ
unfolding reaches
commit_rounds zero i ms half commit = commit
commit_rounds (suc k) i ms half commit =
    let rest = commit_rounds k (i + 1) ms half i in if reaches ms i 0 half then rest else commit

module _ {C : Type 0} where
  unfoldable pub try_commit_log : Raft C → Option (Raft C)
  unfolding get_last_log_term_and_index commit_rounds
  try_commit_log rf = do
    (_, last) ← get_last_log_term_and_index rf
    let commit =
        commit_rounds (last - rf.commit_index) (rf.commit_index + 1) rf.match_index (rf.peers / 2)
          rf.commit_index
    some (record rf {
      commit_index = commit;
      notify_apply_ch =
          if commit == rf.commit_index then rf.notify_apply_ch else rf.notify_apply_ch + 1;
    })
