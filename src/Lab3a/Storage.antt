-- ===== src/Lab3a/Storage.antt =====
-- What the steps of a peer leave in its storage.
use major_assignments.Common.{
  ltb, if◌then◌else◌, Option-cases, set?, Returns, >>=-eq-some, length, ℕ, zero, suc, ◌+◌, ◌-◌, ◌≡◌,
  refl, ap, inl, inr, Bool, true, false, Option, none, some, List, arith,
}
use major_assignments.Lab3a.Append.{AppendEntriesReply, append_entries, HeartBeatArgs}
use major_assignments.Lab3a.Apply.{deliver, make}
use major_assignments.Lab3a.Commit.{commit_from, update_commit_index}
use major_assignments.Lab3a.Election.{start_election, on_vote_reply, Tally, count_vote}
use major_assignments.Lab3a.Persist.{Saved, saved}
use major_assignments.Lab3a.Persister.{Persister}
use major_assignments.Lab3a.Send.{ends_in_term, accept_reply, refuse_reply, check_reply}
use major_assignments.Lab3a.Types.{ApplyMsg, Raft}
use major_assignments.Lab3a.Vote.{RequestVoteArgs, RequestVoteReply, request_vote}
use major_assignments.Labgob.{Labgob}

module _ {C : Type 0} (gob : Labgob (Saved C)) where
  -- The state of a peer in storage: nothing, or what `readPersist` can decode.
  unfoldable pub is_readable : List ℕ → Bool
  is_readable bytes =
      if ltb (length bytes) 1
      then true
      else elim (gob.decode bytes) [ none ↦ false | some _ ↦ true ]

  is_readable-encode : (s : Saved C) → is_readable (gob.encode s) ≡ true
  unfolding is_readable
  is_readable-encode s = ground (arith, gob.decode-encode s)

  unfoldable pub IsReadable : Persister → Type 0
  IsReadable ps = is_readable ps.raftstate ≡ true

  -- The steps of a peer, but for its start.
  pub data PeerStep : Raft C → Raft C → Type 0 where
    asked :
        (args : RequestVoteArgs) {rf rf' : Raft C} {reply : RequestVoteReply}
        → request_vote gob args rf ≡ some (rf', reply)
        → PeerStep rf rf'
    stood :
        {rf rf' : Raft C} {args : RequestVoteArgs}
        → start_election gob rf ≡ some (rf', args)
        → PeerStep rf rf'
    heard :
        (args : RequestVoteArgs) (reply : RequestVoteReply) {rf : Raft C}
        → PeerStep rf (on_vote_reply gob args reply rf)
    counted :
        (granted : Bool) (t : Tally) {t' : Tally} {flag : Bool} {rf rf' : Raft C}
        → count_vote gob granted t rf ≡ some (rf', t', flag)
        → PeerStep rf rf'
    appended :
        (args : HeartBeatArgs C) {rf rf' : Raft C} {reply : AppendEntriesReply}
        → append_entries gob args rf ≡ some (rf', reply)
        → PeerStep rf rf'
    checked :
        (peer_idx : ℕ) (args : HeartBeatArgs C) (reply : AppendEntriesReply) {flag : Bool}
        {rf rf' : Raft C}
        → check_reply gob peer_idx args reply rf ≡ some (rf', flag)
        → PeerStep rf rf'
    told : (msg : ApplyMsg C) {rf : Raft C} → PeerStep rf (deliver gob msg rf)

  persister_after : Persister → Option (Raft C × Bool) → Persister
  persister_after ps none = ps
  persister_after ps (some (rf, _)) = rf.persister

  commit_from_persister :
      (k i : ℕ) (flag : Bool) (rf : Raft C)
      → persister_after rf.persister (commit_from k i flag rf) ≡ rf.persister
  unfolding commit_from persister_after
  commit_from_persister zero i flag rf = refl
  commit_from_persister (suc k) i flag rf = ground (
    arith,
    commit_from_persister k (i + 1) flag rf,
    commit_from_persister k (i + 1) true (record rf { okbutnocommit = i; commit_index = i }),
    commit_from_persister k (i + 1) flag (record rf { okbutnocommit = i }),
  )

  update_persister :
      (rf : Raft C) {rf' : Raft C}
      → update_commit_index rf ≡ some rf'
      → rf'.persister ≡ rf.persister
  unfolding update_commit_index persister_after
  update_persister rf h = ground (
    arith,
    commit_from_persister (length rf.log_entries - rf.commit_index) (rf.commit_index + 1) false rf,
  )

  maybe_updated :
      (b : Bool) (rf : Raft C) {rf' : Raft C}
      → (if b then update_commit_index rf else some rf) ≡ some rf'
      → rf'.persister ≡ rf.persister
  maybe_updated true rf h = update_persister rf h
  maybe_updated false rf h = ground arith

  accepted_storage :
      (peer_idx : ℕ) (args : HeartBeatArgs C) (reply : AppendEntriesReply) (rf : Raft C)
      {rf' : Raft C}
      → accept_reply gob peer_idx args reply rf ≡ some rf'
      → (rf'.persister.kv_data ≡ rf.persister.kv_data) × IsReadable rf'.persister
  unfolding accept_reply IsReadable
  accepted_storage peer_idx args reply rf h =
      let (nexts, p, h1) = >>=-eq-some (set? rf.next_index peer_idx reply.next_index) _ h in
      let (matches, q, h2) =
        >>=-eq-some (set? rf.match_index peer_idx (reply.next_index - 1)) _ h1 in
      let rf1 = record rf { next_index = nexts; match_index = matches } in
      let b = ends_in_term args.entries rf1.term in
      let (rf2, e, h3) = >>=-eq-some (if b then update_commit_index rf1 else some rf1) _ h2 in
      let same = maybe_updated b rf1 e in
      (
        ground (arith, h3, ap (λ ps. ps.kv_data) same),
        ground (arith, h3, is_readable-encode (saved rf2)),
      )

  refused_storage :
      (peer_idx : ℕ) (args : HeartBeatArgs C) (reply : AppendEntriesReply) (rf : Raft C)
      {rf' : Raft C}
      → refuse_reply gob peer_idx args reply rf ≡ some rf'
      → (rf'.persister.kv_data ≡ rf.persister.kv_data) × IsReadable rf'.persister
  unfolding refuse_reply IsReadable
  refused_storage peer_idx args reply rf h = (ground arith, grind (arith, is_readable-encode))

  checked_storage :
      (peer_idx : ℕ) (args : HeartBeatArgs C) (reply : AppendEntriesReply) (rf : Raft C)
      {rf' : Raft C} {flag : Bool}
      → check_reply gob peer_idx args reply rf ≡ some (rf', flag)
      → IsReadable rf.persister
      → (rf'.persister.kv_data ≡ rf.persister.kv_data) × IsReadable rf'.persister
  unfolding check_reply IsReadable
  checked_storage peer_idx args reply rf h r =
      elim (Option-cases (accept_reply gob peer_idx args reply rf)) [
        | inl a ↦ elim (Option-cases (refuse_reply gob peer_idx args reply rf)) [
          | inl b ↦ (ground (arith, a, b), grind (arith, is_readable-encode, a, b))
          | inr (rf2, b) ↦
              let d = refused_storage peer_idx args reply rf b in
              (ground (arith, a, b, d.0), grind (arith, is_readable-encode, a, b, d.1))
        ]
        | inr (rf1, a) ↦
            let c = accepted_storage peer_idx args reply rf a in
            elim (Option-cases (refuse_reply gob peer_idx args reply rf)) [
              | inl b ↦ (ground (arith, a, b, c.0), grind (arith, is_readable-encode, a, b, c.1))
              | inr (rf2, b) ↦
                  let d = refused_storage peer_idx args reply rf b in
                  (
                    ground (arith, a, b, c.0, d.0),
                    grind (arith, is_readable-encode, a, b, c.1, d.1),
                  )
            ]
      ]

  -- A step of a peer leaves the data of the service as they were, and a state that can be read.
  pub PeerStep-storage :
      {rf rf' : Raft C}
      → PeerStep rf rf'
      → IsReadable rf.persister
      → (rf'.persister.kv_data ≡ rf.persister.kv_data) × IsReadable rf'.persister
  unfolding request_vote start_election on_vote_reply count_vote append_entries deliver IsReadable
  PeerStep-storage (asked args h) r = (ground arith, grind (arith, is_readable-encode))
  PeerStep-storage (stood h) r = (ground arith, grind (arith, is_readable-encode))
  PeerStep-storage (heard args reply) r = (ground arith, grind (arith, is_readable-encode))
  PeerStep-storage (counted granted t h) r = (ground arith, grind (arith, is_readable-encode))
  PeerStep-storage (appended args h) r = (ground arith, grind (arith, is_readable-encode))
  PeerStep-storage (checked peer_idx args reply h) r = checked_storage peer_idx args reply _ h r
  PeerStep-storage (told msg) r = (refl, is_readable-encode _)

  -- A peer starts on every storage that can be read, and leaves it as it is.
  pub make-IsReadable :
      (servers me : ℕ) (ps : Persister) (entropy : ℕ → ℕ)
      → IsReadable ps
      → Returns (make gob servers me ps entropy) (λ rf. rf.persister ≡ ps)
  unfolding make IsReadable is_readable
  make-IsReadable servers me ps entropy r = elim (Option-cases (gob.decode ps.raftstate)) [
    | inl none' ↦ ground (arith, none')
    | inr (s, p) ↦ ground (arith, p)
  ]
