-- ===== src/Raft/Vote/Granted.antt =====
-- What a voter has done when it answers with a vote.
use major_assignments.Common.{◌≤◌, ◌≡◌, true, some, arith}
use major_assignments.Labgob.{Labgob}
use major_assignments.Raft.Persist.{Saved}
use major_assignments.Raft.Types.{Raft}
use major_assignments.Raft.Vote.{RequestVoteArgs, RequestVoteReply, request_vote}

module _ {C : Type 0} (gob : Labgob (Saved C)) where
  -- A granted vote carries the candidate's term, and the voter is then in that term, with its vote
  -- noted. The term never goes down.
  pub request_vote_granted :
      (args : RequestVoteArgs) (rf : Raft C) {rf' : Raft C} {reply : RequestVoteReply}
      → request_vote gob args rf ≡ some (rf', reply)
      → reply.vote_granted ≡ true
      → (reply.term ≡ args.term)
        × (rf'.current_term ≡ args.term)
        × (rf'.voted_for ≡ some args.candidate_id)
        × (rf.current_term ≤ args.term)
  unfolding request_vote
  request_vote_granted args rf h g = ground arith
