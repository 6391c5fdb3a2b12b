-- ===== src/Lab3a/Vote/SecondVote.antt =====
-- The goroutine that handles a reply to `RequestVote` sets the term to that of the reply, also when
-- the peer is further on.
use major_assignments.Common.{
  Returns, length, get_elem?, ℕ, ◌-◌, ◌<◌, ◌≡◌, true, false, some, arith,
}
use major_assignments.Lab3a.Election.{on_vote_reply}
use major_assignments.Lab3a.Persist.{Saved}
use major_assignments.Lab3a.Types.{LogEntry, Raft}
use major_assignments.Lab3a.Vote.{RequestVoteArgs, RequestVoteReply, request_vote, is_older}
use major_assignments.Labgob.{Labgob}

module _ {C : Type 0} (gob : Labgob (Saved C)) where
  -- A peer that has voted in its term, and then handles a late reply of an older election, whose term
  -- is behind its own, goes back to that term, and grants another candidate of the term in which it has
  -- voted, whose log is not older than its own, a second vote.
  pub late_reply_second_vote :
      (args : RequestVoteArgs) (reply : RequestVoteReply) (req : RequestVoteArgs) (rf : Raft C)
      (v : ℕ) (e : LogEntry C)
      → rf.vote_for ≡ some (record { term = rf.term; id = v })
      → args.term < reply.term
      → reply.term < rf.term
      → req.term ≡ rf.term
      → get_elem? rf.log_entries (length rf.log_entries - 1) ≡ some e
      → is_older e.term e.idx req ≡ false
      → Returns (request_vote gob req (on_vote_reply gob args reply rf)) (λ r.
        (r.1.vote_granted ≡ true)
        × (r.0.vote_for ≡ some (record { term = rf.term; id = req.candidate_id })))
  unfolding request_vote on_vote_reply
  late_reply_second_vote args reply req rf v e voted newer behind same last log =
      ground (arith, log)
