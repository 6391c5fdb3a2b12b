-- ===== src/Kv/Replicas/Data.antt =====
-- The data of a server and its snapshot, against the commands that were applied.
use major_assignments.Common.{
  ltb, ◌==◌, ge→ltb, Bool-cases, Option-cases, length, get_elem?, take, ℕ, zero, suc, ◌<◌, ◌≡◌, sym,
  ap, ◌∙◌, ◌⊎◌, inl, inr, some, List, [], ◌∷◌, arith,
}
use major_assignments.Kv.Replicas.{Replica, saved_at, put_at}
use major_assignments.Kv.Server.{
  RaftPort, KvSaved, KvServer, data_get, apply_op, kv_saved, save_snapshot, read_persist, notify,
  apply_msg,
}
use major_assignments.Kv.Server.Store.{apply_all}
use major_assignments.Kv.Types.{ok, Op, NotifyMsg}
use major_assignments.Labgob.{Labgob}

abbrev pub no_data : KvSaved
no_data = record { contents = []; last_applies = [] }

pub put_at_all :
    {A : Type 0} (P : A → Type 0) (f : ℕ → A) (i : ℕ) (a : A)
    → P a
    → ((j : ℕ) → P (f j))
    → (j : ℕ) → P (put_at f i a j)
put_at_all P f i a h k j = elim (Bool-cases (i == j)) [ inl e ↦ rw e h | inr e ↦ rw e (k j) ]

take-next :
    (log : List Op) (k : ℕ) (s : KvSaved) {op : Op}
    → get_elem? log k ≡ some op
    → apply_all (take (suc k) log) s ≡ apply_op op (apply_all (take k log) s)
unfolding apply_all
take-next [] k s h = absurd (cc h)
take-next (x ∷ log) zero s h = ground arith
take-next (x ∷ log) (suc k) s h = take-next log k (apply_op x s) h

-- The bytes of a snapshot after the given number of commands.
abbrev pub IsSnapshot : Labgob KvSaved → List Op → ℕ → List ℕ → Type 0
IsSnapshot gob log m bytes =
    ((m ≡ 0) × (bytes ≡ []))
    ⊎ ((0 < length bytes) × (gob.decode bytes ≡ some (apply_all (take m log) no_data)))

module _ {port : RaftPort} (gob : Labgob KvSaved) (log : List Op) where
  pub record ReplicaInv (r : Replica port) : Type 0 where
    pub data_ok : kv_saved port gob r.server ≡ apply_all (take r.applied log) no_data
    pub snapshot_ok : IsSnapshot gob log r.snapshot_at (port.read_snapshot r.server.rf)

  notify_same :
      (req_id : ℕ) (msg : NotifyMsg) (kv : KvServer port) {kv' : KvServer port}
      → notify port gob req_id msg kv ≡ some kv'
      → (kv_saved port gob kv' ≡ kv_saved port gob kv) × (kv'.rf ≡ kv.rf)
  unfolding notify
  notify_same req_id msg kv h = ground arith

  snapshot_data :
      (index : ℕ) (kv : KvServer port)
      → kv_saved port gob (save_snapshot port gob index kv) ≡ kv_saved port gob kv
  unfolding save_snapshot
  snapshot_data index kv = ground arith

  module _
      (keeps : (i : ℕ) (bytes : List ℕ) (p : port.Peer)
        → port.read_snapshot (port.save_persist_and_snapshot i bytes p) ≡ bytes) where
    -- What `saveSnapshot` leaves in storage.
    saved-IsSnapshot :
        (index m : ℕ) (kv : KvServer port)
        → kv_saved port gob kv ≡ apply_all (take index log) no_data
        → IsSnapshot gob log m (port.read_snapshot kv.rf)
        → IsSnapshot gob log
            (saved_at kv index m)
            (port.read_snapshot (save_snapshot port gob index kv).rf)
    unfolding save_snapshot
    saved-IsSnapshot index m kv d h = elim (Option-cases kv.max_raft_state) [
      | inl e ↦ rw e h
      | inr (limit, e) ↦ elim (Bool-cases (ltb (port.state_size kv.rf) limit)) [
        | inl low ↦ rw (e, low) h
        | inr high ↦
            let bytes = gob.encode (kv_saved port gob kv) in
            rw (e, high, keeps index bytes kv.rf)
              (inr (
                gob.encode_nonempty (kv_saved port gob kv),
                gob.decode-encode (kv_saved port gob kv) ∙ ap some d,
              ))
      ]
    ]

    pub applied-ReplicaInv :
        (r : Replica port) (op : Op) (kv' : KvServer port)
        → get_elem? log r.applied ≡ some op
        → apply_msg port gob (some op) (suc r.applied) r.server ≡ some kv'
        → ReplicaInv r
        → ReplicaInv (record {
          server = kv';
          applied = suc r.applied;
          snapshot_at = saved_at r.server (suc r.applied) r.snapshot_at;
        })
    unfolding apply_msg
    applied-ReplicaInv r op kv' p h inv =
        let kv = r.server in
        let s = apply_op op (kv_saved port gob kv) in
        let kv0 = record kv { contents = s.contents; last_applies = s.last_applies } in
        let kv1 = save_snapshot port gob (suc r.applied) kv0 in
        let (same, rf) =
          notify_same op.req_id (record { err = ok; value = (data_get op.key kv1.contents).1 }) kv1
            h in
        let now : s ≡ apply_all (take (suc r.applied) log) no_data =
          ap (apply_op op) inv.data_ok ∙ sym (take-next log r.applied no_data p) in
        record {
          data_ok = same ∙ snapshot_data (suc r.applied) kv0 ∙ now;
          snapshot_ok =
              rw rf (saved-IsSnapshot (suc r.applied) r.snapshot_at kv0 now inv.snapshot_ok);
        }

  -- Reading a snapshot.
  read_back :
      (bytes : List ℕ) (m : ℕ) (kv : KvServer port) {kv' : KvServer port}
      → read_persist port gob bytes kv ≡ some kv'
      → IsSnapshot gob log m bytes
      → (0 < m) ⊎ (kv_saved port gob kv ≡ no_data)
      → (kv'.rf ≡ kv.rf) × (kv_saved port gob kv' ≡ apply_all (take m log) no_data)
  unfolding read_persist apply_all
  read_back bytes m kv {kv'} h k ready = elim k [
    | inl (z, e) ↦
        let none_read : some kv ≡ some kv' = rw e at h in
        elim ready [
          | inl pos ↦ absurd (omega (arith, z))
          | inr d ↦ (ground arith, rw z (ground (arith, d)))
        ]
    | inr (lt, dec) ↦
        let s = apply_all (take m log) no_data in
        let big = ge→ltb (length bytes) 1 lt in
        let read : some (record kv { contents = s.contents; last_applies = s.last_applies })
            ≡ some kv' =
          rw (big, dec) at h in
        (ground arith, ground arith)
  ]

  -- A server that stands where its snapshot does.
  pub reloaded-ReplicaInv :
      (r : Replica port) (kv kv' : KvServer port) (bytes : List ℕ)
      → port.read_snapshot kv.rf ≡ port.read_snapshot r.server.rf
      → bytes ≡ port.read_snapshot r.server.rf
      → read_persist port gob bytes kv ≡ some kv'
      → (0 < r.snapshot_at) ⊎ (kv_saved port gob kv ≡ no_data)
      → ReplicaInv r
      → ReplicaInv (record r { server = kv'; applied = r.snapshot_at })
  reloaded-ReplicaInv r kv kv' bytes same e h ready inv =
      let (rf, now) = read_back bytes r.snapshot_at kv h (rw e (inv.snapshot_ok)) ready in
      record { data_ok = now; snapshot_ok = rw (rf, same) (inv.snapshot_ok) }
