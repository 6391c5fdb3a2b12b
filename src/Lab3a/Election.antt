-- ===== src/Lab3a/Election.antt =====
-- `startElection`: the locked stretch, the goroutine of each peer, and the loop that counts.
use major_assignments.Common.{
  ltb, ◌==◌, if◌then◌else◌, ◌>>=◌, set?, replicate, ℕ, ◌+◌, ◌/◌, Bool, true, ◌||◌, Option, some,
}
use major_assignments.Lab3a.Log.{last_log_info}
use major_assignments.Lab3a.Persist.{Saved, persist}
use major_assignments.Lab3a.Timers.{is_candidate, reset_election_timer, send_heart_beat}
use major_assignments.Lab3a.Types.{follower, candidate, leader, Raft}
use major_assignments.Lab3a.Vote.{RequestVoteArgs, RequestVoteReply}
use major_assignments.Labgob.{Labgob}

pub record Tally : Type 0 where
  pub vote_count : ℕ
  pub granted_count : ℕ
  pub reject_count : ℕ

abbrev pub own_vote : Tally
own_vote = record { vote_count = 1; granted_count = 1; reject_count = 0 }

unfoldable pub add_vote : Bool → Tally → Tally
add_vote granted t = record {
  vote_count = t.vote_count + 1;
  granted_count = if granted then t.granted_count + 1 else t.granted_count;
  reject_count = if granted then t.reject_count else t.reject_count + 1;
}

module _ {C : Type 0} (gob : Labgob (Saved C)) where
  unfoldable pub start_election : Raft C → Option (Raft C × RequestVoteArgs)
  unfolding persist last_log_info
  start_election rf = do
    let rf1 = persist gob (record rf {
      term = rf.term + 1;
      state = candidate;
      vote_for = some (record { term = rf.term + 1; id = rf.me });
    })
    (last_term, last_index) ← last_log_info rf1
    some (
      rf1,
      record {
        term = rf1.term;
        candidate_id = rf1.me;
        last_log_index = last_index;
        last_log_term = last_term;
      },
    )

  -- The goroutine compares the reply with the term of the request, and not with that of the peer.
  unfoldable pub on_vote_reply : RequestVoteArgs → RequestVoteReply → Raft C → Raft C
  unfolding persist reset_election_timer
  on_vote_reply args reply rf =
      if ltb args.term reply.term
      then reset_election_timer (persist gob (record rf { term = reply.term; state = follower }))
      else rf

  unfoldable pub win : Raft C → Option (Raft C)
  unfolding persist send_heart_beat last_log_info
  win rf =
      if is_candidate rf.state
      then (do
        let rf1 = send_heart_beat (record rf { state = leader })
        (_, last_index) ← last_log_info rf1
        matches ← set? (replicate rf.peers 0) rf.me last_index
        some (
            persist gob (record rf1 {
              next_index = replicate rf.peers (last_index + 1);
              match_index = matches;
            })))
      else some rf

  -- One round of the loop; the flag says that it returns.
  unfoldable pub count_vote : Bool → Tally → Raft C → Option (Raft C × Tally × Bool)
  unfolding win add_vote
  count_vote granted t rf =
      let t' = add_vote granted t in
      if ltb (rf.peers / 2) t'.granted_count
      then (win rf >>= λ rf'. some (rf', t', true))
      else some (rf, t', t'.vote_count == rf.peers || ltb rf.peers t'.reject_count)
