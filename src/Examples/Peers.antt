-- ===== src/Examples/Peers.antt =====
-- Three peers of a cluster.
use major_assignments.Common.{ℕ, ◌<◌, false, Option, none, some, [], ◌∷◌, arith}
use major_assignments.Raft.Persister.{make_persister}
use major_assignments.Raft.Types.{follower, leader, LogEntry, Raft}
use major_assignments.Raft.WellFormed.{IsWellFormed}

-- The state that a call leaves, with the one that stands for a call that does not return.
abbrev pub left {ℓ} : {A : Type ℓ} → A → Option A → A
left a none = a
left a (some b) = b

abbrev pub no_entropy : ℕ → ℕ
no_entropy _ = 7

abbrev pub marker : LogEntry ℕ
marker = record { term = 0; command = none }

abbrev pub entry : ℕ → ℕ → LogEntry ℕ
entry t c = record { term = t; command = some c }

-- A peer as `Make` leaves it on empty storage.
abbrev pub booted : ℕ → Raft ℕ
booted i = record {
  peers = 3;
  persister = make_persister;
  me = i;
  dead = false;
  role = follower;
  current_term = 0;
  voted_for = none;
  logs = marker ∷ [];
  commit_index = 0;
  last_applied = 0;
  next_index = 0 ∷ 0 ∷ 0 ∷ [];
  match_index = 0 ∷ 0 ∷ 0 ∷ [];
  election_timer = 300_000_007;
  append_entries_timers = 150_000_000 ∷ 150_000_000 ∷ 150_000_000 ∷ [];
  apply_timer = 100_000_000;
  apply_ch = [];
  notify_apply_ch = 0;
  last_snapshot_index = 0;
  last_snapshot_term = 0;
  entropy = no_entropy;
  draws = 1;
}

-- A leader of term 2 with three entries, of which the peers 0 and 1 have two.
abbrev pub lead_peer : Raft ℕ
lead_peer = record (booted 0) {
  role = leader;
  current_term = 2;
  voted_for = some 0;
  logs = marker ∷ entry 1 10 ∷ entry 2 20 ∷ entry 2 30 ∷ [];
  next_index = 4 ∷ 3 ∷ 2 ∷ [];
  match_index = 3 ∷ 2 ∷ 1 ∷ [];
}

-- A follower that has an entry which the leader does not have.
abbrev pub follow_peer : Raft ℕ
follow_peer = record (booted 2) { current_term = 1; logs = marker ∷ entry 1 10 ∷ entry 1 15 ∷ [] }

pub booted-IsWellFormed : (i : ℕ) → i < 3 → IsWellFormed (booted i)
booted-IsWellFormed i h = ground arith
