-- ===== src/Raft/Persister.antt =====
-- persister.go: the stable storage of a peer. Byte slices are values here, so `clone` is the copy
-- that Go makes.
use major_assignments.Common.{length, ℕ, List, []}

pub record Persister : Type 0 where
  pub raftstate : List ℕ
  pub snapshot : List ℕ

abbrev pub make_persister : Persister
make_persister = record { raftstate = []; snapshot = [] }

abbrev pub clone : List ℕ → List ℕ
clone orig = orig

abbrev pub copy : Persister → Persister
copy ps = record { raftstate = ps.raftstate; snapshot = ps.snapshot }

abbrev pub save_raft_state : List ℕ → Persister → Persister
save_raft_state state ps = record ps { raftstate = clone state }

abbrev pub read_raft_state : Persister → List ℕ
read_raft_state ps = clone ps.raftstate

abbrev pub raft_state_size : Persister → ℕ
raft_state_size ps = length ps.raftstate

abbrev pub save_state_and_snapshot : List ℕ → List ℕ → Persister → Persister
save_state_and_snapshot state snap ps = record ps { raftstate = clone state; snapshot = clone snap }

abbrev pub read_snapshot : Persister → List ℕ
read_snapshot ps = clone ps.snapshot

abbrev pub snapshot_size : Persister → ℕ
snapshot_size ps = length ps.snapshot
