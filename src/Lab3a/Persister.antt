-- ===== src/Lab3a/Persister.antt =====
-- persister.go, with the storage of the key-value service.
use major_assignments.Common.{length, ℕ, List, []}

pub record Persister : Type 0 where
  pub raftstate : List ℕ
  pub snapshot : List ℕ
  pub kv_data : List ℕ

abbrev pub clone : List ℕ → List ℕ
clone orig = orig

abbrev pub make_persister : Persister
make_persister = record { raftstate = []; snapshot = []; kv_data = [] }

abbrev pub copy : Persister → Persister
copy ps = record { raftstate = ps.raftstate; snapshot = ps.snapshot; kv_data = ps.kv_data }

abbrev pub save_kvdata : List ℕ → Persister → Persister
save_kvdata bytes ps = record ps { kv_data = clone bytes }

abbrev pub read_kvdata : Persister → List ℕ
read_kvdata ps = clone ps.kv_data

abbrev pub save_raft_state : List ℕ → Persister → Persister
save_raft_state state ps = record ps { raftstate = clone state }

abbrev pub read_raft_state : Persister → List ℕ
read_raft_state ps = clone ps.raftstate

abbrev pub raft_state_size : Persister → ℕ
raft_state_size ps = length ps.raftstate

abbrev pub save_state_and_snapshot : List ℕ → List ℕ → Persister → Persister
save_state_and_snapshot state snap ps = record ps { raftstate = clone state; snapshot = clone snap }

abbrev pub read_snapshot : Persister → List ℕ
read_snapshot ps = clone ps.snapshot

abbrev pub snapshot_size : Persister → ℕ
snapshot_size ps = length ps.snapshot
