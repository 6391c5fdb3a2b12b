-- ===== src/Lab3a/Service/Restart.antt =====
-- What a restart finds, whatever the server and its peer have done.
use mathlib.Core.Path.{subst, ◌∙◌}
use major_assignments.Common.{
  ge→ltb, Returns, Returns-some, ℕ, ◌≡◌, refl, sym, ap, ◌⊎◌, inl, inr, true, false, Option, some,
  List, [], arith,
}
use major_assignments.Kv.Server.{KvSaved}
use major_assignments.Kv.Types.{Op, NotifyMsg}
use major_assignments.Lab3a.Apply.{make}
use major_assignments.Lab3a.Persist.{Saved}
use major_assignments.Lab3a.Persister.{Persister, make_persister, copy, read_kvdata}
use major_assignments.Lab3a.Service.{
  Service, stored_data, read_kv_persist, apply_committed, call_start, open_channel, end_get,
  end_put_append, kill_service, start_service,
}
use major_assignments.Lab3a.Storage.{
  is_readable, IsReadable, PeerStep, PeerStep-storage, make-IsReadable,
}
use major_assignments.Lab3a.Types.{ApplyMsg, Raft}
use major_assignments.Labgob.{Labgob}

module _ (raft_gob : Labgob (Saved Op)) (gob : Labgob KvSaved) where
  abbrev no_data : KvSaved
  no_data = record { contents = []; last_applies = [] }

  -- The storage holds the data, or nothing where there are none.
  HoldsData : List ℕ → KvSaved → Type 0
  HoldsData bytes s = ((bytes ≡ []) × (s ≡ no_data)) ⊎ (bytes ≡ gob.encode s)

  record IsSynced (kv : Service) : Type 0 where
    readable : IsReadable raft_gob kv.rf.persister
    holds : HoldsData kv.rf.persister.kv_data (stored_data raft_gob gob kv)

  -- The steps of a server: a message of its peer, the calls of clients, and the steps of the peer.
  pub data ServiceStep : Service → Service → Type 0 where
    applies :
        (msg : ApplyMsg Op) {kv kv' : Service}
        → apply_committed raft_gob gob msg kv ≡ some kv'
        → ServiceStep kv kv'
    calls :
        (op : Op) {kv kv' : Service} {said : Option NotifyMsg}
        → call_start raft_gob gob op kv ≡ some (kv', said)
        → ServiceStep kv kv'
    registers : (op : Op) {kv : Service} → ServiceStep kv (open_channel raft_gob gob op kv)
    ends_get : (op : Op) {kv : Service} → ServiceStep kv (end_get raft_gob gob op kv).0
    ends_put : (op : Op) {kv : Service} → ServiceStep kv (end_put_append raft_gob gob op kv).0
    dies : {kv : Service} → ServiceStep kv (kill_service raft_gob gob kv)
    peer_moves :
        {kv : Service} {rf : Raft Op}
        → PeerStep raft_gob kv.rf rf
        → ServiceStep kv (record kv { rf = rf })

  -- The servers that come from an empty storage, by steps, crashes and restarts.
  pub data Served : Service → Type 0 where
    opens :
        (servers me : ℕ) (limit : Option ℕ) (entropy : ℕ → ℕ) {kv : Service}
        → start_service raft_gob gob servers me make_persister limit entropy ≡ some kv
        → Served kv
    moves : {kv kv' : Service} → Served kv → ServiceStep kv kv' → Served kv'
    restarts :
        (servers me : ℕ) (limit : Option ℕ) (entropy : ℕ → ℕ) {kv kv' : Service}
        → Served kv
        → start_service raft_gob gob servers me (copy kv.rf.persister) limit entropy ≡ some kv'
        → Served kv'

  held_on : {b b' : List ℕ} {s s' : KvSaved} → b' ≡ b → s' ≡ s → HoldsData b s → HoldsData b' s'
  held_on {b} {b'} {s} {s'} p d h =
      subst (λ x. HoldsData x s') (sym p) (subst (HoldsData b) (sym d) h)

  reads :
      (kv : Service) (s : KvSaved)
      → HoldsData kv.rf.persister.kv_data s
      → stored_data raft_gob gob kv ≡ no_data
      → Returns
          (read_kv_persist raft_gob gob (read_kvdata kv.rf.persister) kv)
          (λ kv'. (stored_data raft_gob gob kv' ≡ s) × (kv'.rf.persister ≡ kv.rf.persister))
  unfolding read_kv_persist HoldsData
  reads kv s h e = elim h [
    | inl (empty, none') ↦ rw empty (e ∙ sym none', refl)
    | inr full ↦ rw (full, ge→ltb _ _ (gob.encode_nonempty s), gob.decode-encode s) (refl, refl)
  ]

  finds :
      (servers me : ℕ) (ps : Persister) (limit : Option ℕ) (entropy : ℕ → ℕ) (s : KvSaved)
      → IsReadable raft_gob ps
      → HoldsData ps.kv_data s
      → Returns
          (start_service raft_gob gob servers me ps limit entropy)
          (λ kv. (stored_data raft_gob gob kv ≡ s) × (kv.rf.persister ≡ ps))
  unfolding start_service
  finds servers me ps limit entropy s r h =
      let (rf, p, same) =
        Returns-some (make raft_gob servers me ps entropy)
          (make-IsReadable raft_gob servers me ps entropy r) in
      let kv0 : Service = record {
        rf = rf;
        dead = false;
        max_raft_state = limit;
        msg_notify = [];
        contents = [];
        last_applies = [];
      } in
      let (kv, q, (d, kept)) =
        Returns-some (read_kv_persist raft_gob gob (read_kvdata rf.persister) kv0)
          (reads kv0 s (held_on (ap (λ b. b.kv_data) same) refl h) refl) in
      rw (p, q) (d, kept ∙ same)

  applied_storage :
      (msg : ApplyMsg Op) (kv : Service) {kv' : Service}
      → apply_committed raft_gob gob msg kv ≡ some kv'
      → (kv'.rf.persister.raftstate ≡ kv.rf.persister.raftstate)
        × (kv'.rf.persister.kv_data ≡ gob.encode (stored_data raft_gob gob kv'))
  unfolding apply_committed
  applied_storage msg kv h = (ground arith, ground arith)

  called_storage :
      (op : Op) (kv : Service) {kv' : Service} {said : Option NotifyMsg}
      → call_start raft_gob gob op kv ≡ some (kv', said)
      → (kv'.rf.persister ≡ kv.rf.persister)
        × (stored_data raft_gob gob kv' ≡ stored_data raft_gob gob kv)
  unfolding call_start
  called_storage op kv h = (ground arith, ground arith)

  same_storage :
      {kv kv' : Service}
      → kv'.rf.persister ≡ kv.rf.persister
      → stored_data raft_gob gob kv' ≡ stored_data raft_gob gob kv
      → IsSynced kv
      → IsSynced kv'
  same_storage p d w = record {
    readable = subst (IsReadable raft_gob) (sym p) w.readable;
    holds = held_on (ap (λ b. b.kv_data) p) d w.holds;
  }

  ServiceStep-IsSynced : {kv kv' : Service} → ServiceStep kv kv' → IsSynced kv → IsSynced kv'
  unfolding open_channel end_get end_put_append kill_service HoldsData IsReadable
  ServiceStep-IsSynced (applies msg h) w =
      let (state, saved') = applied_storage msg _ h in
      record {
        readable = subst (λ b. is_readable raft_gob b ≡ true) (sym state) w.readable;
        holds = inr saved';
      }
  ServiceStep-IsSynced (calls op h) w = let (p, d) = called_storage op _ h in same_storage p d w
  ServiceStep-IsSynced (registers op) w = same_storage refl refl w
  ServiceStep-IsSynced (ends_get op) w = same_storage refl refl w
  ServiceStep-IsSynced (ends_put op) w = same_storage refl refl w
  ServiceStep-IsSynced dies w = same_storage refl refl w
  ServiceStep-IsSynced (peer_moves step) w =
      let (d, r) = PeerStep-storage raft_gob step w.readable in
      record { readable = r; holds = held_on d refl w.holds }

  found-IsSynced :
      (servers me : ℕ) (ps : Persister) (limit : Option ℕ) (entropy : ℕ → ℕ) (s : KvSaved)
      {kv : Service}
      → IsReadable raft_gob ps
      → HoldsData ps.kv_data s
      → start_service raft_gob gob servers me ps limit entropy ≡ some kv
      → IsSynced kv
  found-IsSynced servers me ps limit entropy s r h e =
      let (d, p) =
        subst (λ o. Returns o (λ kv. (stored_data raft_gob gob kv ≡ s) × (kv.rf.persister ≡ ps))) e
          (finds servers me ps limit entropy s r h) in
      record {
        readable = subst (IsReadable raft_gob) (sym p) r;
        holds = held_on (ap (λ b. b.kv_data) p) d h;
      }

  Served-IsSynced : {kv : Service} → Served kv → IsSynced kv
  unfolding HoldsData IsReadable is_readable
  Served-IsSynced (opens servers me limit entropy h) =
      found-IsSynced servers me make_persister limit entropy no_data refl (inl (refl, refl)) h
  Served-IsSynced (moves r step) = ServiceStep-IsSynced step (Served-IsSynced r)
  Served-IsSynced (restarts servers me limit entropy r h) =
      let w = Served-IsSynced r in found-IsSynced servers me _ limit entropy _ w.readable w.holds h

  -- In every server that comes from an empty storage by messages of its peer, calls of clients, steps
  -- of the peer, crashes and restarts, a restart on a copy of the storage returns, with the data and
  -- the marks of the server, and leaves the storage as it is.
  pub restart_lem :
      (servers me : ℕ) (limit : Option ℕ) (entropy : ℕ → ℕ) {kv : Service}
      → Served kv
      → Returns (start_service raft_gob gob servers me (copy kv.rf.persister) limit entropy) (λ kv'.
        (stored_data raft_gob gob kv' ≡ stored_data raft_gob gob kv)
        × (kv'.rf.persister ≡ kv.rf.persister))
  restart_lem servers me limit entropy {kv} r =
      let w = Served-IsSynced r in
      finds servers me kv.rf.persister limit entropy (stored_data raft_gob gob kv) w.readable
        w.holds
