-- ===== src/Raft/Vote.antt =====
-- `RequestVote`.
pub mod Granted
use major_assignments.Common.{
  ltb, ◌==◌, if◌then◌else◌, ◌>>=◌, ℕ, Bool, true, false, ◌&&◌, ◌||◌, Option, none, some,
}
use major_assignments.Labgob.{Labgob}
use major_assignments.Raft.Log.{is_leader, get_last_log_term_and_index}
use major_assignments.Raft.Persist.{Saved, persist}
use major_assignments.Raft.Role.{change_role}
use major_assignments.Raft.Timers.{reset_election_timer}
use major_assignments.Raft.Types.{follower, Raft}

pub record RequestVoteArgs : Type 0 where
  pub term : ℕ
  pub candidate_id : ℕ
  pub last_log_index : ℕ
  pub last_log_term : ℕ

pub record RequestVoteReply : Type 0 where
  pub term : ℕ
  pub vote_granted : Bool

-- `args.CandidateId == rf.votedFor`
abbrev pub is_vote_for : ℕ → Option ℕ → Bool
is_vote_for id none = false
is_vote_for id (some v) = id == v

-- `rf.votedFor != -1`
abbrev pub has_voted : Option ℕ → Bool
has_voted none = false
has_voted (some _) = true

-- The voter's last entry, with the given term and index, is newer than the candidate's.
unfoldable pub is_newer : ℕ → ℕ → RequestVoteArgs → Bool
is_newer last_term last_index args =
    ltb args.last_log_term last_term
    || (last_term == args.last_log_term && ltb args.last_log_index last_index)

module _ {C : Type 0} (gob : Labgob (Saved C)) where
  -- The end of the handler, from the test of the logs on.
  unfoldable pub vote_by_log : RequestVoteArgs → ℕ → ℕ → Raft C → Option (Raft C × RequestVoteReply)
  unfolding is_newer change_role persist
  vote_by_log args last_term last_index rf =
      if is_newer last_term last_index args
      then some (rf, record { term = rf.current_term; vote_granted = false })
      else do
        rf' ← change_role follower (record rf { voted_for = some args.candidate_id })
        some (
          persist gob (reset_election_timer rf'),
          record { term = rf.current_term; vote_granted = true },
        )

  unfoldable pub request_vote : RequestVoteArgs → Raft C → Option (Raft C × RequestVoteReply)
  unfolding vote_by_log get_last_log_term_and_index
  request_vote args rf = do
    (last_term, last_index) ← get_last_log_term_and_index rf
    let refused : Option (Raft C × RequestVoteReply) =
        some (rf, record { term = rf.current_term; vote_granted = false })
    if ltb args.term rf.current_term
        then refused
        else if rf.current_term == args.term
        then if is_leader rf.role
          then refused
          else if is_vote_for args.candidate_id rf.voted_for
          then some (rf, record { term = args.term; vote_granted = true })
          else if has_voted rf.voted_for
          then refused
          else vote_by_log args last_term last_index rf
        else do
          rf' ← change_role follower (record rf { current_term = args.term })
          vote_by_log args last_term last_index (persist gob (record rf' { voted_for = none }))
