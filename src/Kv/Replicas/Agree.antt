-- ===== src/Kv/Replicas/Agree.antt =====
-- Servers that have applied equally many commands have the same data.
use mathlib.Core.Path.{subst}
use major_assignments.Common.{
  ltb, length, take, ℕ, ◌≡◌, refl, sym, ap, ◌∙◌, inl, inr, true, false, List, [], arith,
}
use major_assignments.Kv.Replicas.{
  Replica, ReplicaStep, applied_next, reloaded, submitted, registered, got, wrote, raft_moved,
  server_killed, server_restarted, ServiceMove, one_server, shipped, ServiceReach, service_start,
  service_next, IsFreshService,
}
use major_assignments.Kv.Replicas.Data.{
  no_data, put_at_all, ReplicaInv, applied-ReplicaInv, reloaded-ReplicaInv,
}
use major_assignments.Kv.Server.{
  RaftPort, KvSaved, KvServer, kv_saved, read_persist, apply_msg, submit, register_call, finish_get,
  finish_put_append, kill_server, start_kv_server,
}
use major_assignments.Kv.Server.Store.{apply_all}
use major_assignments.Kv.Types.{Op}
use major_assignments.Labgob.{Labgob}

module _ {port : RaftPort} (gob : Labgob KvSaved) (log : List Op)
    (keeps : (i : ℕ) (bytes : List ℕ) (p : port.Peer)
      → port.read_snapshot (port.save_persist_and_snapshot i bytes p) ≡ bytes)
    (starts : (op : Op) (p : port.Peer)
      → port.read_snapshot (port.start op p) ≡ port.read_snapshot p) where
  submit_same :
      (op : Op) (kv : KvServer port)
      → (kv_saved port gob (submit port gob op kv).0 ≡ kv_saved port gob kv)
        × (port.read_snapshot (submit port gob op kv).0.rf ≡ port.read_snapshot kv.rf)
  unfolding submit
  submit_same op kv = ground (arith, starts op kv.rf)

  ReplicaStep-ReplicaInv :
      {r r' : Replica port}
      → ReplicaStep gob log r r'
      → ReplicaInv gob log r
      → ReplicaInv gob log r'
  unfolding apply_msg start_kv_server register_call finish_get finish_put_append kill_server
  ReplicaStep-ReplicaInv {r} (applied_next op kv' p h e) inv =
      subst (ReplicaInv gob log) (sym e) (applied-ReplicaInv gob log keeps r op kv' p h inv)
  ReplicaStep-ReplicaInv {r} (reloaded index kv' pos h e) inv = subst (ReplicaInv gob log) (sym e) (
      reloaded-ReplicaInv gob log r r.server kv' (port.read_snapshot r.server.rf) refl refl h
        (inl pos) inv)
  ReplicaStep-ReplicaInv {r} (submitted op e) inv =
      let (d, s) = submit_same op r.server in
      subst (ReplicaInv gob log) (sym e)
        (record { data_ok = d ∙ inv.data_ok; snapshot_ok = rw s (inv.snapshot_ok) })
  ReplicaStep-ReplicaInv (registered op e) inv =
      subst (ReplicaInv gob log) (sym e)
        (record { data_ok = inv.data_ok; snapshot_ok = inv.snapshot_ok })
  ReplicaStep-ReplicaInv (got op e) inv =
      subst (ReplicaInv gob log) (sym e)
        (record { data_ok = inv.data_ok; snapshot_ok = inv.snapshot_ok })
  ReplicaStep-ReplicaInv (wrote op e) inv =
      subst (ReplicaInv gob log) (sym e)
        (record { data_ok = inv.data_ok; snapshot_ok = inv.snapshot_ok })
  ReplicaStep-ReplicaInv (raft_moved peer s e) inv =
      subst (ReplicaInv gob log) (sym e)
        (record { data_ok = inv.data_ok; snapshot_ok = rw s (inv.snapshot_ok) })
  ReplicaStep-ReplicaInv (server_killed e) inv =
      subst (ReplicaInv gob log) (sym e)
        (record { data_ok = inv.data_ok; snapshot_ok = inv.snapshot_ok })
  ReplicaStep-ReplicaInv {r} (server_restarted peer limit kv' s h e) inv =
      subst (ReplicaInv gob log) (sym e) (
        reloaded-ReplicaInv gob log r
          (record {
            rf = peer;
            dead = false;
            max_raft_state = limit;
            msg_notify = [];
            contents = [];
            last_applies = [];
          })
          kv' (port.read_snapshot peer) s s h (inr refl) inv)

  ServiceMove-ReplicaInv :
      {s s' : ℕ → Replica port}
      → ServiceMove gob log s s'
      → ((k : ℕ) → ReplicaInv gob log (s k))
      → (k : ℕ) → ReplicaInv gob log (s' k)
  ServiceMove-ReplicaInv {s} (one_server i r' st e) inv k =
      subst (λ f. ReplicaInv gob log (f k)) (sym e)
        (put_at_all (ReplicaInv gob log) s i r' (ReplicaStep-ReplicaInv st (inv i)) inv k)
  ServiceMove-ReplicaInv {s} (shipped i j peer p e) inv k =
      subst (λ f. ReplicaInv gob log (f k)) (sym e)
        (put_at_all (ReplicaInv gob log) s i _
          (record { data_ok = (inv i).data_ok; snapshot_ok = rw p ((inv j).snapshot_ok) }) inv k)

  fresh-ReplicaInv :
      {s : ℕ → Replica port} (k : ℕ) → IsFreshService gob log s → ReplicaInv gob log (s k)
  unfolding start_kv_server read_persist apply_all
  fresh-ReplicaInv {s} k init =
      let (peer, limit, none_saved, h) = init.started k in
      let a = init.nothing_applied k in
      let b = init.nothing_saved k in
      let small : ltb (length (port.read_snapshot peer)) 1 ≡ true = rw none_saved refl in
      let empty : kv_saved port gob (s k).server ≡ no_data = ground (arith, h, small) in
      let rf : (s k).server.rf ≡ peer = ground (arith, h, small) in
      record { data_ok = rw a empty; snapshot_ok = inl (b, ap port.read_snapshot rf ∙ none_saved) }

  reached-ReplicaInv :
      {s t : ℕ → Replica port} (k : ℕ)
      → IsFreshService gob log s
      → ServiceReach gob log s t
      → ReplicaInv gob log (t k)
  reached-ReplicaInv k init service_start = fresh-ReplicaInv k init
  reached-ReplicaInv k init (service_next r m) =
      ServiceMove-ReplicaInv m (λ j. reached-ReplicaInv j init r) k

  -- If the Raft module keeps the bytes of the last snapshot, and a call of `Start` leaves them, then
  -- in every service that is reached from servers with nothing stored, where each applies the
  -- commands of one log in order, through calls, snapshots, crashes, restarts that go on from the
  -- snapshot, and snapshots taken over from other servers: two servers that stand at one place of
  -- the log have the same data and record of applied messages, those of the log's commands up to
  -- there.
  pub replicas_lem :
      {s t : ℕ → Replica port} (i j : ℕ)
      → IsFreshService gob log s
      → ServiceReach gob log s t
      → (t i).applied ≡ (t j).applied
      → (kv_saved port gob (t i).server ≡ apply_all (take (t i).applied log) no_data)
        × (kv_saved port gob (t j).server ≡ kv_saved port gob (t i).server)
  replicas_lem {t} i j init r e =
      let a = (reached-ReplicaInv i init r).data_ok in
      let b = (reached-ReplicaInv j init r).data_ok in
      (a, b ∙ ap (λ k. apply_all (take k log) no_data) (sym e) ∙ sym a)
