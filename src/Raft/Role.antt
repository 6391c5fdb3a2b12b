-- ===== src/Raft/Role.antt =====
-- `changeRole`. The role is a data type, so the two panics on an unknown role have no counterpart.
use major_assignments.Common.{◌>>=◌, ℕ, zero, suc, ◌+◌, Option, none, some, List, [], ◌∷◌}
use major_assignments.Raft.Log.{get_last_log_term_and_index}
use major_assignments.Raft.Timers.{reset_election_timer}
use major_assignments.Raft.Types.{Role, follower, candidate, leader, Raft}

-- `for i := 0; i < n; i++ { xs[i] = v }`
unfoldable pub fill : ℕ → ℕ → List ℕ → Option (List ℕ)
fill zero v xs = some xs
fill (suc n) v [] = none
fill (suc n) v (x ∷ xs) = fill n v xs >>= λ ys. some (v ∷ ys)

module _ {C : Type 0} where
  unfoldable pub change_role : Role → Raft C → Option (Raft C)
  unfolding reset_election_timer get_last_log_term_and_index
  change_role follower rf = some (record rf { role = follower })
  change_role candidate rf = some (
      reset_election_timer (record rf {
        role = candidate;
        current_term = rf.current_term + 1;
        voted_for = some rf.me;
      }))
  change_role leader rf = do
    (_, last) ← get_last_log_term_and_index rf
    next ← fill rf.peers (last + 1) rf.next_index
    matches ← fill rf.peers last rf.match_index
    some (
        reset_election_timer
          (record rf { role = leader; next_index = next; match_index = matches }))
