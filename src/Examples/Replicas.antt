-- ===== src/Examples/Replicas.antt =====
-- Two servers: one appends a text and takes a snapshot, which goes to the other.
use major_assignments.Kv.Server.{save_snapshot, read_persist}
use major_assignments.Common.{
  take, map_get, map_put, ℕ, ◌≡◌, refl, true, false, Option, none, some, List, [], ◌∷◌, arith,
  nat_eq, string_eq,
}
use major_assignments.Examples.Peers.{left}
use major_assignments.Examples.TextCodec.{data_gob, port}
use major_assignments.Kv.Replicas.{
  Replica, put_at, applied_next, reloaded, one_server, shipped, ServiceReach, service_start,
  service_next, IsFreshService,
}
use major_assignments.Kv.Replicas.Agree.{replicas_lem}
use major_assignments.Kv.Replicas.Data.{no_data}
use major_assignments.Kv.Server.{KvServer, apply_op, kv_saved, notify, apply_msg, start_kv_server}
use major_assignments.Kv.Server.Store.{apply_all}
use major_assignments.Kv.Types.{append, Op}

abbrev first_op : Op
first_op = record {
  key = "k";
  value = "x";
  operation = append;
  msg_id = 1;
  req_id = 1;
  client_id = 5;
}

abbrev log : List Op
log = first_op ∷ []

abbrev empty_server : Option ℕ → KvServer port
empty_server limit = record {
  rf = (true, [], []);
  dead = false;
  max_raft_state = limit;
  msg_notify = [];
  contents = [];
  last_applies = [];
}

abbrev all_empty : ℕ → Replica port
all_empty _ = record { server = empty_server (some 0); applied = 0; snapshot_at = 0 }

all_empty-IsFreshService : IsFreshService data_gob log all_empty
unfolding start_kv_server
all_empty-IsFreshService = record {
  started = λ i. ((true, [], []), some 0, refl, refl);
  nothing_applied = λ i. refl;
  nothing_saved = λ i. refl;
}

abbrev one_applied : Replica port
one_applied = record {
  server =
      left (empty_server none) (apply_msg port data_gob (some first_op) 1 (empty_server (some 0)));
  applied = 1;
  snapshot_at = 1;
}

abbrev service1 : ℕ → Replica port
service1 = put_at all_empty 0 one_applied

-- The Raft module of server 1 has taken over the snapshot of server 0.
abbrev shipped_to : Replica port
shipped_to = record {
  server = record (empty_server (some 0)) { rf = one_applied.server.rf };
  applied = 0;
  snapshot_at = 1;
}

abbrev service2 : ℕ → Replica port
service2 = put_at service1 1 shipped_to

abbrev loaded : Replica port
loaded = record shipped_to {
  server = left shipped_to.server (apply_msg port data_gob none 0 shipped_to.server);
  applied = 1;
}

abbrev service3 : ℕ → Replica port
service3 = put_at service2 1 loaded

service3_reach : ServiceReach data_gob log all_empty service3
unfolding apply_msg notify map_get save_snapshot read_persist apply_op map_put
service3_reach =
    service_next
      (service_next
        (service_next service_start
          (one_server 0 one_applied (applied_next first_op one_applied.server refl refl refl) refl))
        (shipped 1 0 one_applied.server.rf refl refl))
      (one_server 1 loaded (reloaded 0 loaded.server (omega arith) refl refl) refl)

replicas_lem_example :
    (kv_saved port data_gob (service3 0).server ≡ apply_all (take 1 log) no_data)
    × (kv_saved port data_gob (service3 1).server ≡ kv_saved port data_gob (service3 0).server)
unfolding apply_msg notify map_get save_snapshot read_persist apply_op map_put
replicas_lem_example =
    replicas_lem data_gob log (λ i bytes p. refl) (λ op p. refl) 0 1 all_empty-IsFreshService
      service3_reach refl
