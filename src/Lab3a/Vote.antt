-- ===== src/Lab3a/Vote.antt =====
-- `RequestVote`.
pub mod SecondVote
use major_assignments.Common.{
  ltb, ◌==◌, if◌then◌else◌, ◌>>=◌, ℕ, Bool, true, false, ◌&&◌, ◌||◌, Option, none, some,
}
use major_assignments.Lab3a.Log.{last_log_info}
use major_assignments.Lab3a.Persist.{Saved, persist}
use major_assignments.Lab3a.Timers.{is_leader, reset_election_timer}
use major_assignments.Lab3a.Types.{follower, Raft, VoteFor}
use major_assignments.Labgob.{Labgob}

pub record RequestVoteArgs : Type 0 where
  pub term : ℕ
  pub candidate_id : ℕ
  pub last_log_index : ℕ
  pub last_log_term : ℕ

-- `Voter_id` is never set.
pub record RequestVoteReply : Type 0 where
  pub term : ℕ
  pub vote_granted : Bool

-- `rf.voteFor.id == args.CandidateId && rf.voteFor.Term == args.Term`
abbrev pub voted_so : RequestVoteArgs → Option VoteFor → Bool
voted_so args none = false
voted_so args (some v) = v.id == args.candidate_id && v.term == args.term

unfoldable pub is_older : ℕ → ℕ → RequestVoteArgs → Bool
is_older last_term last_index args =
    ltb args.last_log_term last_term
    || (args.last_log_term == last_term && ltb args.last_log_index last_index)

module _ {C : Type 0} (gob : Labgob (Saved C)) where
  -- The reply carries the term from before the call. A leader answers no request, whatever its term.
  unfoldable pub request_vote : RequestVoteArgs → Raft C → Option (Raft C × RequestVoteReply)
  unfolding is_older persist reset_election_timer last_log_info
  request_vote args rf =
      let answer : Bool → RequestVoteReply =
        λ granted. record { term = rf.term; vote_granted = granted } in
      if ltb args.term rf.term || is_leader rf.state
      then some (rf, answer false)
      else if args.term == rf.term
      then some (rf, answer (voted_so args rf.vote_for))
      else do
        let rf1 = persist gob (record rf { term = args.term; state = follower })
        (last_term, last_index) ← last_log_info rf1
        if is_older last_term last_index args
            then some (rf1, answer false)
            else some (
              reset_election_timer (
                  persist gob (record rf1 {
                    vote_for = some (record { term = args.term; id = args.candidate_id });
                  })),
              answer true,
            )
