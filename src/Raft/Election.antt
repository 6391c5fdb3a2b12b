-- ===== src/Raft/Election.antt =====
-- `startElection`: its stretch under the lock, the goroutine of each peer once its call has returned,
-- and the loop that counts the votes.
pub mod Outcome
use major_assignments.Common.{
  ltb, ◌==◌, if◌then◌else◌, ◌>>=◌, ℕ, ◌+◌, ◌-◌, ◌/◌, Bool, ◌&&◌, ◌||◌, Option, none, some, List, [],
  ◌∷◌,
}
use major_assignments.Labgob.{Labgob}
use major_assignments.Raft.Log.{is_leader, is_candidate, get_last_log_term_and_index}
use major_assignments.Raft.Persist.{Saved, persist}
use major_assignments.Raft.Role.{change_role}
use major_assignments.Raft.Timers.{reset_election_timer, reset_append_entries_timers_zero}
use major_assignments.Raft.Types.{follower, candidate, leader, Raft}
use major_assignments.Raft.Vote.{RequestVoteArgs, RequestVoteReply}

-- The locked stretch. `none` beside the state: a leader starts no election.
module _ {C : Type 0} (gob : Labgob (Saved C)) where
  unfoldable pub start_election : Raft C → Option (Raft C × Option RequestVoteArgs)
  unfolding change_role reset_election_timer get_last_log_term_and_index persist
  start_election rf = do
    let rf1 = reset_election_timer rf
    if is_leader rf1.role then some (rf1, none) else do
      rf2 ← change_role candidate rf1
      (last_term, last_index) ← get_last_log_term_and_index rf2
      some (
        persist gob rf2,
        some (record {
          term = rf2.current_term;
          candidate_id = rf2.me;
          last_log_index = last_index;
          last_log_term = last_term;
        }),
      )

  -- A reply with a newer term ends the candidacy.
  unfoldable pub on_vote_reply : RequestVoteArgs → RequestVoteReply → Raft C → Option (Raft C)
  unfolding change_role reset_election_timer persist
  on_vote_reply args reply rf =
      if ltb args.term reply.term && ltb rf.current_term reply.term
      then (do
        rf' ← change_role follower (record rf { current_term = reply.term })
        some (persist gob (reset_election_timer (record rf' { voted_for = none }))))
      else some rf

-- `grantedCount` and `resCount`; both start at 1, for the candidate's own vote.
pub record Tally : Type 0 where
  pub granted_count : ℕ
  pub res_count : ℕ

abbrev pub own_vote : Tally
own_vote = record { granted_count = 1; res_count = 1 }

unfoldable pub add_vote : Bool → Tally → Tally
add_vote flag t = record t {
  res_count = t.res_count + 1;
  granted_count = if flag then t.granted_count + 1 else t.granted_count;
}

-- How a round of the loop ends: with the test of the loop to be made, or with a return.
pub data Round : Type 0 where
  again finished : Round

module _ {C : Type 0} (gob : Labgob (Saved C)) where
  -- What the candidate does once it has a majority.
  unfoldable pub win : RequestVoteArgs → Raft C → Option (Raft C)
  unfolding change_role reset_append_entries_timers_zero persist
  win args rf = do
    rf1 ←
        if is_candidate rf.role && rf.current_term == args.term
        then change_role leader rf
        else some rf
    some (persist gob (if is_leader rf1.role then reset_append_entries_timers_zero rf1 else rf1))

  -- One round: a result comes from `grantedChan`.
  unfoldable pub count_vote :
      RequestVoteArgs → Bool → Tally → Raft C → Option (Raft C × Tally × Round)
  unfolding win add_vote
  count_vote args flag t rf =
      let t' = add_vote flag t in
      if ltb (rf.peers / 2) t'.granted_count
      then (win args rf >>= λ rf'. some (rf', t', again))
      else if t'.res_count == rf.peers || ltb (rf.peers / 2) (t'.res_count - t'.granted_count)
      then some (rf, t', finished)
      else some (rf, t', again)

  -- The loop, over the results in the order in which they arrive, while nothing else happens to the
  -- peer. It stops for a result that has not come.
  unfoldable pub count_votes :
      RequestVoteArgs → List Bool → Tally → Raft C → Option (Raft C × Tally × Round)
  unfolding count_vote
  count_votes args [] t rf = some (rf, t, if is_candidate rf.role then again else finished)
  count_votes args (flag ∷ flags) t rf =
      if is_candidate rf.role
      then (do
        (rf', t', round) ← count_vote args flag t rf
        elim round [ again ↦ count_votes args flags t' rf' | finished ↦ some (rf', t', finished) ])
      else some (rf, t, finished)
