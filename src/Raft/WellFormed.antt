-- ===== src/Raft/WellFormed.antt =====
-- The shape of a peer's state on which no handler panics.
pub mod Handlers
pub mod Serves
pub mod Snapshots
use major_assignments.Common.{
  length, get_elem?, get_elem?-lt, ℕ, zero, suc, ◌-◌, ◌*◌, ◌≤◌, ◌<◌, ◌≡◌, refl, ap, some, List, [],
  ◌∷◌, arith,
}
use major_assignments.Raft.Role.{fill}
use major_assignments.Raft.Timers.{election_timeout}
use major_assignments.Raft.Types.{LogEntry, Raft}

pub record IsWellFormed {C : Type 0} (rf : Raft C) : Type 0 where
  pub has_marker : 0 < length rf.logs
  pub nexts : length rf.next_index ≡ rf.peers
  pub matches : length rf.match_index ≡ rf.peers
  pub timers : length rf.append_entries_timers ≡ rf.peers
  pub me_in_range : rf.me < rf.peers
  pub timeout_low : election_timeout ≤ rf.election_timer
  pub timeout_high : rf.election_timer < 2 * election_timeout

pub fill_total :
    (n v : ℕ) (xs : List ℕ)
    → n ≤ length xs
    → (ys : List ℕ) × (fill n v xs ≡ some ys) × (length ys ≡ length xs)
unfolding fill
fill_total zero v xs h = (xs, refl, refl)
fill_total (suc n) v [] h = absurd (omega arith)
fill_total (suc n) v (x ∷ xs) h =
    let (ys, e, l) = fill_total n v xs (omega arith) in (v ∷ ys, rw e, ap suc l)

-- A log that has its marker has a last entry.
pub last_entry :
    {C : Type 0} (rf : Raft C)
    → 0 < length rf.logs
    → (e : LogEntry C) × (get_elem? rf.logs (length rf.logs - 1) ≡ some e)
last_entry rf h = get_elem?-lt rf.logs (length rf.logs - 1) (omega arith)
