-- ===== src/Lab3a/Send.antt =====
-- `checkReply` and `appendEntriesToPeer`.
pub mod StepBack
use major_assignments.Common.{
  ltb, ◌==◌, if◌then◌else◌, ◌>>=◌, set?, length, get_elem?, ℕ, zero, suc, ◌-◌, Bool, true, false,
  not, ◌||◌, Option, none, some, List, [], ◌∷◌,
}
use major_assignments.Lab3a.Append.{AppendEntriesReply, HeartBeatArgs, get_append_entries_args}
use major_assignments.Lab3a.Commit.{update_commit_index}
use major_assignments.Lab3a.Persist.{Saved, persist}
use major_assignments.Lab3a.Timers.{is_leader, reset_election_timer, killed, heart_beat_time_limit}
use major_assignments.Lab3a.Types.{follower, LogEntry, Raft}
use major_assignments.Labgob.{Labgob}

module _ {C : Type 0} where
  -- The loop that looks for an entry of an older term in front of index `id`; there is none in front
  -- of index 0.
  unfoldable pub step_back : List (LogEntry C) → ℕ → ℕ → Option ℕ
  step_back log term zero = none
  step_back log term (suc id) =
      let rest = step_back log term id in
      do entry ← get_elem? log id; if ltb entry.term term then some id else rest

  -- The last entry of the message is of the given term.
  unfoldable pub ends_in_term : List (LogEntry C) → ℕ → Bool
  ends_in_term es term = elim (get_elem? es (length es - 1)) [
    | none ↦ false
    | some e ↦ e.term == term
  ]

module _ {C : Type 0} (gob : Labgob (Saved C)) where
  -- A reply with `Success` has a positive `NextIndex`.
  unfoldable pub accept_reply : ℕ → HeartBeatArgs C → AppendEntriesReply → Raft C → Option (Raft C)
  unfolding ends_in_term update_commit_index persist
  accept_reply peer_idx args reply rf = do
    nexts ← set? rf.next_index peer_idx reply.next_index
    matches ← set? rf.match_index peer_idx (reply.next_index - 1)
    let rf1 = record rf { next_index = nexts; match_index = matches }
    rf2 ← if ends_in_term args.entries rf1.term then update_commit_index rf1 else some rf1
    some (persist gob rf2)

  unfoldable pub refuse_reply : ℕ → HeartBeatArgs C → AppendEntriesReply → Raft C → Option (Raft C)
  unfolding step_back persist
  refuse_reply peer_idx args reply rf = do
    next ← get_elem? rf.next_index peer_idx
    new_next ←
        if next == reply.next_index
        then (if next == 0 then none else step_back rf.log_entries args.perv_log_term (next - 1))
        else some reply.next_index
    nexts ← set? rf.next_index peer_idx new_next
    some (persist gob (record rf { next_index = nexts }))

  -- The flag is the result: nothing is to be sent again.
  unfoldable pub check_reply :
      ℕ → HeartBeatArgs C → AppendEntriesReply → Raft C → Option (Raft C × Bool)
  unfolding persist reset_election_timer accept_reply refuse_reply
  check_reply peer_idx args reply rf =
      if ltb rf.term reply.term
      then some (
        persist gob
            (record (reset_election_timer (record rf { state = follower })) { term = reply.term }),
        true,
      )
      else if not (is_leader rf.state) || not (rf.term == args.term)
      then some (reset_election_timer rf, true)
      else if reply.success
      then (accept_reply peer_idx args reply rf >>= λ rf'. some (rf', true))
      else (refuse_reply peer_idx args reply rf >>= λ rf'. some (rf', false))

  -- The loop, over the ends of the calls: `none` is a call that fails or is too late. Nothing else
  -- happens to the peer.
  unfoldable pub append_entries_to_peer :
      ℕ → List (Option AppendEntriesReply) → Raft C → Option (Raft C)
  unfolding get_append_entries_args check_reply
  append_entries_to_peer peer_idx [] rf = some rf
  append_entries_to_peer peer_idx (end ∷ ends) rf =
      if killed rf || not (is_leader rf.state) then some rf else do
        args ← get_append_entries_args peer_idx rf
        timers ← set? rf.append_entries_timers peer_idx heart_beat_time_limit
        let rf1 = record rf { append_entries_timers = timers }
        elim end [
          | none ↦ append_entries_to_peer peer_idx ends rf1
          | some reply ↦ do
            (rf2, done) ← check_reply peer_idx args reply rf1
            if done then some rf2 else append_entries_to_peer peer_idx ends rf2
        ]
