-- ===== src/Raft/WellFormed/Serves.antt =====
-- A peer and the calls and replies that come to it, in any order.
use major_assignments.Common.{
  ltb, if◌then◌else◌, Bool-cases, ◌>>=◌, Returns, Returns-some, ℕ, inl, inr, Bool, Option, none,
  some, List, [], ◌∷◌, arith,
}
use major_assignments.Labgob.{Labgob}
use major_assignments.Raft.Append.{AppendEntriesArgs, AppendEntriesReply, append_entries}
use major_assignments.Raft.Election.{start_election, on_vote_reply, Tally, count_vote}
use major_assignments.Raft.Persist.{Saved}
use major_assignments.Raft.Send.{prepare_append, finish_append}
use major_assignments.Raft.Snapshot.{
  InstallSnapshotArgs, InstallSnapshotReply, install_snapshot, finish_snapshot,
}
use major_assignments.Raft.Types.{Raft}
use major_assignments.Raft.Vote.{RequestVoteArgs, RequestVoteReply, request_vote}
use major_assignments.Raft.WellFormed.{IsWellFormed}
use major_assignments.Raft.WellFormed.Handlers.{
  request_vote-IsWellFormed, start_election-IsWellFormed, on_vote_reply-IsWellFormed,
  count_vote-IsWellFormed, append_entries-IsWellFormed, prepare_append-IsWellFormed,
  finish_append-IsWellFormed,
}
use major_assignments.Raft.WellFormed.Snapshots.{
  install_snapshot-IsWellFormed, finish_snapshot-IsWellFormed,
}

module _ {C : Type 0} (gob : Labgob (Saved C)) where
  -- What the peer has to do: a request of another peer (a vote, entries or a snapshot), a candidacy, a
  -- reply to one of its own requests, a vote to be counted, or a message to be prepared.
  pub data Request : Type 0 where
    ask_vote : RequestVoteArgs → Request
    stand : Request
    hear_vote : RequestVoteArgs → RequestVoteReply → Request
    tally : RequestVoteArgs → Bool → Tally → Request
    take_entries : AppendEntriesArgs C → Request
    send_entries : ℕ → Request
    hear_entries : ℕ → AppendEntriesArgs C → AppendEntriesReply → Request
    take_snapshot : InstallSnapshotArgs → Request
    hear_snapshot : ℕ → InstallSnapshotArgs → InstallSnapshotReply → Request

  -- The peer after one of them; nothing is prepared for a number that is no peer's.
  unfoldable pub serve : Request → Raft C → Option (Raft C)
  serve (ask_vote args) rf = request_vote gob args rf >>= λ r. some r.0
  serve stand rf = start_election gob rf >>= λ r. some r.0
  serve (hear_vote args reply) rf = on_vote_reply gob args reply rf
  serve (tally args flag t) rf = count_vote gob args flag t rf >>= λ r. some r.0
  serve (take_entries args) rf = append_entries gob args rf >>= λ r. some r.0
  serve (send_entries peer_id) rf =
      if ltb peer_id rf.peers then (prepare_append peer_id rf >>= λ r. some r.0) else some rf
  serve (hear_entries peer_id args reply) rf =
      if ltb peer_id rf.peers
      then (finish_append gob peer_id args reply rf >>= λ r. some r.0)
      else some rf
  serve (take_snapshot args) rf = install_snapshot gob args rf >>= λ r. some r.0
  serve (hear_snapshot peer_id args reply) rf =
      if ltb peer_id rf.peers then finish_snapshot gob peer_id args reply rf else some rf

  unfoldable pub serve_all : List Request → Raft C → Option (Raft C)
  unfolding serve
  serve_all [] rf = some rf
  serve_all (r ∷ rs) rf = serve r rf >>= λ rf'. serve_all rs rf'

  first-Returns :
      {B : Type 0} (o : Option (Raft C × B))
      → Returns o (λ r. IsWellFormed r.0)
      → Returns (o >>= λ r. some r.0) IsWellFormed
  first-Returns none h = h
  first-Returns (some r) h = h

  serve-IsWellFormed :
      (r : Request) (rf : Raft C) → IsWellFormed rf → Returns (serve r rf) IsWellFormed
  unfolding serve
  serve-IsWellFormed (ask_vote args) rf w =
      first-Returns _ (request_vote-IsWellFormed gob args rf w)
  serve-IsWellFormed stand rf w = first-Returns _ (start_election-IsWellFormed gob rf w)
  serve-IsWellFormed (hear_vote args reply) rf w = on_vote_reply-IsWellFormed gob args reply rf w
  serve-IsWellFormed (tally args flag t) rf w =
      let (r, p, w') =
        Returns-some (count_vote gob args flag t rf)
          (count_vote-IsWellFormed gob args flag t rf w) in
      rw p w'
  serve-IsWellFormed (take_entries args) rf w =
      first-Returns _ (append_entries-IsWellFormed gob args rf w)
  serve-IsWellFormed (send_entries peer_id) rf w = elim (Bool-cases (ltb peer_id rf.peers)) [
    | inl e ↦ rw e (first-Returns _ (prepare_append-IsWellFormed gob peer_id rf w (ground arith)))
    | inr e ↦ rw e w
  ]
  serve-IsWellFormed (hear_entries peer_id args reply) rf w =
      elim (Bool-cases (ltb peer_id rf.peers)) [
        | inl e ↦ rw e (
            first-Returns _ (finish_append-IsWellFormed gob peer_id args reply rf w (ground arith)))
        | inr e ↦ rw e w
      ]
  serve-IsWellFormed (take_snapshot args) rf w =
      first-Returns _ (install_snapshot-IsWellFormed gob args rf w)
  serve-IsWellFormed (hear_snapshot peer_id args reply) rf w =
      elim (Bool-cases (ltb peer_id rf.peers)) [
        | inl e ↦ rw e (finish_snapshot-IsWellFormed gob peer_id args reply rf w (ground arith))
        | inr e ↦ rw e w
      ]

  -- No sequence of `RequestVote`, `AppendEntries` and `InstallSnapshot` requests, of replies to them,
  -- of candidacies, counted votes and prepared messages, whatever they say, makes a well-formed peer
  -- panic, and the peer is well-formed after it.
  pub never_panics :
      (rs : List Request) (rf : Raft C) → IsWellFormed rf → Returns (serve_all rs rf) IsWellFormed
  unfolding serve_all
  never_panics [] rf w = w
  never_panics (r ∷ rs) rf w =
      let (rf', p, w') = Returns-some (serve r rf) (serve-IsWellFormed r rf w) in
      rw p (never_panics rs rf' w')
