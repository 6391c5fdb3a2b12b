-- ===== src/Raft/WellFormed/Handlers.antt =====
-- The election and replication handlers return, and keep the shape.
use major_assignments.Common.{
  ge→ltb, Returns, Returns-some, set?-lt, length, take, length-append, length-take, get_elem?-lt,
  length-map, ℕ, zero, suc, ◌+◌, ◌-◌, ◌≤◌, ◌<◌, ◌≡◌, Bool, some, ◌++◌, arith,
}
use major_assignments.Labgob.{Labgob}
use major_assignments.Raft.Append.{
  AppendEntriesArgs, AppendEntriesReply, append_after, back_up, middle_append, try_append,
  append_entries,
}
use major_assignments.Raft.Election.{start_election, on_vote_reply, Tally, win, count_vote}
use major_assignments.Raft.Log.{last_log_index, entry_at}
use major_assignments.Raft.Persist.{Saved}
use major_assignments.Raft.Send.{prepare_append, finish_append}
use major_assignments.Raft.Timers.{heart_beat_interval, reset_election_timer}
use major_assignments.Raft.Types.{follower, LogEntry, Raft}
use major_assignments.Raft.Vote.{RequestVoteArgs, RequestVoteReply, request_vote}
use major_assignments.Raft.WellFormed.{IsWellFormed, fill_total, last_entry}

module _ {C : Type 0} (gob : Labgob (Saved C)) where
  -- `RequestVote` returns on a well-formed peer, whatever the request, and leaves it well-formed.
  pub request_vote-IsWellFormed :
      (args : RequestVoteArgs) (rf : Raft C)
      → IsWellFormed rf
      → Returns (request_vote gob args rf) (λ r. IsWellFormed r.0)
  unfolding request_vote
  request_vote-IsWellFormed args rf w = ground (arith, last_entry rf w.has_marker)

  pub start_election-IsWellFormed :
      (rf : Raft C) → IsWellFormed rf → Returns (start_election gob rf) (λ r. IsWellFormed r.0)
  unfolding start_election
  start_election-IsWellFormed rf w = ground (arith, last_entry rf w.has_marker)

  pub on_vote_reply-IsWellFormed :
      (args : RequestVoteArgs) (reply : RequestVoteReply) (rf : Raft C)
      → IsWellFormed rf
      → Returns (on_vote_reply gob args reply rf) IsWellFormed
  unfolding on_vote_reply
  on_vote_reply-IsWellFormed args reply rf w = ground arith

  pub win-IsWellFormed :
      (args : RequestVoteArgs) (rf : Raft C)
      → IsWellFormed rf
      → Returns (win gob args rf) IsWellFormed
  unfolding win
  win-IsWellFormed args rf w = ground (
    arith,
    last_entry rf w.has_marker,
    fill_total rf.peers (last_log_index rf + 1) rf.next_index (omega (arith, w.nexts)),
    fill_total rf.peers (last_log_index rf) rf.match_index (omega (arith, w.matches)),
    length-map {B = ℕ} rf.append_entries_timers (λ _. 0),
  )

  -- A round of the loop that counts votes returns on a well-formed peer, whatever the counters, and
  -- leaves it well-formed.
  pub count_vote-IsWellFormed :
      (args : RequestVoteArgs) (flag : Bool) (t : Tally) (rf : Raft C)
      → IsWellFormed rf
      → Returns (count_vote gob args flag t rf) (λ r. IsWellFormed r.0)
  unfolding count_vote
  count_vote-IsWellFormed args flag t rf w =
      ground (arith, Returns-some {P = IsWellFormed} (win gob args rf) (win-IsWellFormed args rf w))

  append_after-Returns :
      (n : ℕ) (args : AppendEntriesArgs C) (rf : Raft C)
      → 0 < n
      → n ≤ length rf.logs
      → Returns (append_after n args rf) (λ r. 0 < length r.logs)
  unfolding append_after
  append_after-Returns n args rf h k =
      let kept = take n rf.logs ++ args.entries in
      ground (
        arith,
        last_entry rf (omega arith),
        length-append (take n rf.logs) args.entries,
        length-take n rf.logs,
        get_elem?-lt kept (length kept - 1),
      )

  entry_at-Returns :
      (index : ℕ) (rf : Raft C)
      → rf.last_snapshot_index ≤ index
      → index < rf.last_snapshot_index + length rf.logs
      → (e : LogEntry C) × (entry_at index rf ≡ some e)
  unfolding entry_at
  entry_at-Returns index rf h k =
      let (e, p) = get_elem?-lt rf.logs (index - rf.last_snapshot_index) (omega arith) in
      (e, rw (ge→ltb _ _ h) p)

  back_up-Returns :
      (index term : ℕ) (rf : Raft C)
      → index < rf.last_snapshot_index + length rf.logs
      → Returns (back_up index term rf) (λ i. i ≤ index)
  unfolding back_up
  back_up-Returns zero term rf h = omega arith
  back_up-Returns (suc index) term rf h = ground (
    arith,
    entry_at-Returns (suc index) rf,
    Returns-some {P = λ i. i ≤ index} (back_up index term rf)
        (back_up-Returns index term rf (omega arith)),
  )

  middle_append-Returns :
      (args : AppendEntriesArgs C) (rf : Raft C)
      → rf.last_snapshot_index ≤ args.prev_log_index
      → args.prev_log_index < rf.last_snapshot_index + length rf.logs
      → Returns (middle_append args rf) (λ r. 0 < length r.logs)
  unfolding middle_append
  middle_append-Returns args rf low high =
      let found = entry_at-Returns args.prev_log_index rf low high in
      ground (
        arith,
        found.1,
        append_after-Returns (args.prev_log_index - rf.last_snapshot_index + 1) args rf,
        Returns-some {P = λ i. i ≤ args.prev_log_index}
            (back_up args.prev_log_index found.0.term rf)
            (back_up-Returns args.prev_log_index found.0.term rf high),
      )

  try_append-Returns :
      (args : AppendEntriesArgs C) (rf : Raft C)
      → 0 < length rf.logs
      → Returns (try_append args rf) (λ r. 0 < length r.logs)
  unfolding try_append
  try_append-Returns args rf h =
      ground (arith, last_entry rf h, append_after-Returns 1 args rf, middle_append-Returns args rf)

  -- `AppendEntries` returns on a well-formed peer, whatever the message, and leaves it well-formed.
  pub append_entries-IsWellFormed :
      (args : AppendEntriesArgs C) (rf : Raft C)
      → IsWellFormed rf
      → Returns (append_entries gob args rf) (λ r. IsWellFormed r.0)
  unfolding append_entries
  append_entries-IsWellFormed args rf w =
      let rf2 = reset_election_timer (record rf { current_term = args.term; role = follower }) in
      ground (arith, Returns-some (try_append args rf2) (try_append-Returns args rf2 w.has_marker))

  -- The preparation of an `AppendEntries` returns on a well-formed peer, and leaves it well-formed, if
  -- the other peer's number is one of the cluster.
  pub prepare_append-IsWellFormed :
      (peer_id : ℕ) (rf : Raft C)
      → IsWellFormed rf
      → peer_id < rf.peers
      → Returns (prepare_append peer_id rf) (λ r. IsWellFormed r.0)
  unfolding prepare_append
  prepare_append-IsWellFormed peer_id rf w h =
      let next = get_elem?-lt rf.next_index peer_id (omega (arith, w.nexts)) in
      ground (
        arith,
        last_entry rf w.has_marker,
        next,
        get_elem?-lt rf.logs (next.0 - 1 - rf.last_snapshot_index),
        set?-lt rf.append_entries_timers peer_id heart_beat_interval (omega (arith, w.timers)),
      )

  -- The handling of a reply to `AppendEntries`, whatever the reply, returns on a well-formed peer, and
  -- leaves it well-formed, if the other peer's number is one of the cluster.
  pub finish_append-IsWellFormed :
      (peer_id : ℕ) (args : AppendEntriesArgs C) (reply : AppendEntriesReply) (rf : Raft C)
      → IsWellFormed rf
      → peer_id < rf.peers
      → Returns (finish_append gob peer_id args reply rf) (λ r. IsWellFormed r.0)
  unfolding finish_append
  finish_append-IsWellFormed peer_id args reply rf w h = ground (
    arith,
    last_entry rf w.has_marker,
    get_elem?-lt rf.next_index peer_id (omega (arith, w.nexts)),
    set?-lt rf.next_index peer_id reply.next_log_index (omega (arith, w.nexts)),
    set?-lt rf.match_index peer_id (reply.next_log_index - 1) (omega (arith, w.matches)),
    set?-lt rf.append_entries_timers peer_id 0 (omega (arith, w.timers)),
  )
