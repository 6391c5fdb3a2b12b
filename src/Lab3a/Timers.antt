-- ===== src/Lab3a/Timers.antt =====
-- The timers, `GetState` and `killed`.
use major_assignments.Common.{
  ◌==◌, if◌then◌else◌, ℕ, suc, ◌+◌, ◌%◌, Bool, true, false, List, [], ◌∷◌,
}
use major_assignments.Lab3a.Types.{follower, candidate, leader, Raft, NodeState}

abbrev pub election_time_limit : ℕ
election_time_limit = 300_000_000

abbrev pub heart_beat_time_limit : ℕ
heart_beat_time_limit = 150_000_000

abbrev pub is_leader : NodeState → Bool
is_leader follower = false
is_leader candidate = false
is_leader leader = true

abbrev pub is_candidate : NodeState → Bool
is_candidate follower = false
is_candidate candidate = true
is_candidate leader = false

-- The timers from number `i` on, without that of `me`, go off at once.
abbrev pub zero_others : ℕ → ℕ → List ℕ → List ℕ
zero_others me i [] = []
zero_others me i (t ∷ ts) = (if i == me then t else 0) ∷ zero_others me (suc i) ts

module _ {C : Type 0} where
  unfoldable pub reset_election_timer : Raft C → Raft C
  reset_election_timer rf = record rf {
    election_timer = election_time_limit + rf.entropy rf.draws % election_time_limit;
    draws = rf.draws + 1;
  }

  unfoldable pub send_heart_beat : Raft C → Raft C
  send_heart_beat rf = record rf {
    append_entries_timers = zero_others rf.me 0 rf.append_entries_timers;
  }

  unfoldable pub get_state : Raft C → ℕ × Bool
  get_state rf = (rf.term, is_leader rf.state)

  unfoldable pub kill : Raft C → Raft C
  kill rf = record rf { dead = true }

  abbrev pub killed : Raft C → Bool
  killed rf = rf.dead
