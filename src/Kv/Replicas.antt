-- ===== src/Kv/Replicas.antt =====
-- Several servers of server.go that apply one committed log. The Raft module under each delivers the
-- log's commands in order, from where the server stands; it keeps the bytes of the last snapshot,
-- lets a restarted server go on behind it, and may take over another server's.
pub mod Data
pub mod Agree
use major_assignments.Common.{
  ltb, ◌==◌, if◌then◌else◌, get_elem?, ℕ, suc, ◌<◌, ◌≡◌, Option, none, some, List, [],
}
use major_assignments.Kv.Server.{
  RaftPort, KvSaved, KvServer, apply_msg, submit, register_call, finish_get, finish_put_append,
  kill_server, start_kv_server,
}
use major_assignments.Kv.Types.{Op}
use major_assignments.Labgob.{Labgob}

-- A server, the number of commands that its data has, and the number that its snapshot has.
pub record Replica (port : RaftPort) : Type 0 where
  pub server : KvServer port
  pub applied : ℕ
  pub snapshot_at : ℕ

-- What the snapshot has after `saveSnapshot` with an index.
abbrev pub saved_at : {port : RaftPort} → KvServer port → ℕ → ℕ → ℕ
saved_at {port} kv index before = elim kv.max_raft_state [
  | none ↦ before
  | some limit ↦ if ltb (port.state_size kv.rf) limit then before else index
]

abbrev pub put_at : {A : Type 0} → (ℕ → A) → ℕ → A → ℕ → A
put_at f i a j = if i == j then a else f j

module _ {port : RaftPort} (gob : Labgob KvSaved) (log : List Op) where
  pub data ReplicaStep (r r' : Replica port) : Type 0 where
    applied_next :
        (op : Op) (kv' : KvServer port)
        → get_elem? log r.applied ≡ some op
        → apply_msg port gob (some op) (suc r.applied) r.server ≡ some kv'
        → r' ≡ record {
          server = kv';
          applied = suc r.applied;
          snapshot_at = saved_at r.server (suc r.applied) r.snapshot_at;
        }
        → ReplicaStep r r'
    reloaded :
        (index : ℕ) (kv' : KvServer port)
        → 0 < r.snapshot_at
        → apply_msg port gob none index r.server ≡ some kv'
        → r' ≡ record r { server = kv'; applied = r.snapshot_at }
        → ReplicaStep r r'
    submitted :
        (op : Op) → r' ≡ record r { server = (submit port gob op r.server).0 } → ReplicaStep r r'
    registered :
        (op : Op) → r' ≡ record r { server = register_call port gob op r.server } → ReplicaStep r r'
    got :
        (op : Op)
        → r' ≡ record r { server = (finish_get port gob op r.server).0 }
        → ReplicaStep r r'
    wrote :
        (op : Op)
        → r' ≡ record r { server = (finish_put_append port gob op r.server).0 }
        → ReplicaStep r r'
    raft_moved :
        (peer : port.Peer)
        → port.read_snapshot peer ≡ port.read_snapshot r.server.rf
        → r' ≡ record r { server = record r.server { rf = peer } }
        → ReplicaStep r r'
    server_killed : r' ≡ record r { server = kill_server port gob r.server } → ReplicaStep r r'
    server_restarted :
        (peer : port.Peer) (max_raft_state : Option ℕ) (kv' : KvServer port)
        → port.read_snapshot peer ≡ port.read_snapshot r.server.rf
        → start_kv_server port gob peer max_raft_state ≡ some kv'
        → r' ≡ record r { server = kv'; applied = r.snapshot_at }
        → ReplicaStep r r'

  -- One server makes a step, or its Raft module takes over the snapshot of another.
  pub data ServiceMove (s s' : ℕ → Replica port) : Type 0 where
    one_server :
        (i : ℕ) (r' : Replica port) → ReplicaStep (s i) r' → s' ≡ put_at s i r' → ServiceMove s s'
    shipped :
        (i j : ℕ) (peer : port.Peer)
        → port.read_snapshot peer ≡ port.read_snapshot (s j).server.rf
        → s'
          ≡ put_at s i (record (s i) {
            server = record (s i).server { rf = peer };
            snapshot_at = (s j).snapshot_at;
          })
        → ServiceMove s s'

  pub data ServiceReach (s : ℕ → Replica port) : (ℕ → Replica port) → Type 0 where
    service_start : ServiceReach s s
    service_next : {t u : ℕ → Replica port} → ServiceReach s t → ServiceMove t u → ServiceReach s u

  -- Every server as `StartKVServer` returns it where nothing is stored.
  pub record IsFreshService (s : ℕ → Replica port) : Type 0 where
    pub started :
        (i : ℕ)
        → (peer : port.Peer) × (limit : Option ℕ) × (port.read_snapshot peer ≡ [])
          × (start_kv_server port gob peer limit ≡ some (s i).server)
    pub nothing_applied : (i : ℕ) → (s i).applied ≡ 0
    pub nothing_saved : (i : ℕ) → (s i).snapshot_at ≡ 0
