-- ===== src/Raft/Election/Outcome.antt =====
-- How an election ends, if nothing else happens to the candidate while it counts.
use major_assignments.Common.{
  ltb, ◌==◌, if◌then◌else◌, Bool-cases, Returns, Returns-some, length, ℕ, ◌+◌, ◌-◌, ◌/◌, ◌≤◌, ◌<◌,
  ◌≡◌, inl, inr, Bool, ◌||◌, some, List, [], ◌∷◌, arith,
}
use major_assignments.Labgob.{Labgob}
use major_assignments.Raft.Election.{Tally, own_vote, add_vote, finished, win, count_votes}
use major_assignments.Raft.Log.{last_log_index}
use major_assignments.Raft.Persist.{Saved}
use major_assignments.Raft.Types.{candidate, leader, Raft}
use major_assignments.Raft.Vote.{RequestVoteArgs}
use major_assignments.Raft.WellFormed.{IsWellFormed, fill_total, last_entry}

-- How many of the results are votes.
abbrev pub votes : List Bool → ℕ
votes [] = 0
votes (flag ∷ flags) = (if flag then 1 else 0) + votes flags

votes-le : (flags : List Bool) → votes flags ≤ length flags
votes-le [] = omega arith
votes-le (flag ∷ flags) = ground (arith, votes-le flags)

module _ {C : Type 0} (gob : Labgob (Saved C)) where
  win_leads :
      (args : RequestVoteArgs) (rf : Raft C)
      → IsWellFormed rf
      → rf.role ≡ candidate
      → rf.current_term ≡ args.term
      → Returns (win gob args rf) (λ rf'. (rf'.role ≡ leader) × (rf'.current_term ≡ args.term))
  unfolding win
  win_leads args rf w c t = ground (
    arith,
    last_entry rf w.has_marker,
    fill_total rf.peers (last_log_index rf + 1) rf.next_index (omega (arith, w.nexts)),
    fill_total rf.peers (last_log_index rf) rf.match_index (omega (arith, w.matches)),
  )

  count_votes_stop :
      (args : RequestVoteArgs) (flags : List Bool) (t : Tally) (rf : Raft C)
      → rf.role ≡ leader
      → count_votes gob args flags t rf ≡ some (rf, t, finished)
  unfolding count_votes
  count_votes_stop args [] t rf l = ground arith
  count_votes_stop args (flag ∷ flags) t rf l = ground arith

  -- The counters in the course of an election that is not decided.
  record IsOpen (rf : Raft C) (t : Tally) (left : ℕ) : Type 0 where
    all_heard : t.res_count + left ≡ rf.peers
    no_more_granted : t.granted_count ≤ t.res_count
    no_majority : t.granted_count ≤ rf.peers / 2

  -- Once no goroutine can send another result, the candidate leads exactly if it has a majority.
  count_votes_from :
      (args : RequestVoteArgs) (flags : List Bool) (t : Tally) (rf : Raft C)
      → IsWellFormed rf
      → rf.role ≡ candidate
      → rf.current_term ≡ args.term
      → IsOpen rf t (length flags)
      → Returns (count_votes gob args flags t rf) (λ r.
        (rf.peers / 2 < t.granted_count + votes flags
          → (r.0.role ≡ leader) × (r.0.current_term ≡ args.term))
        × (t.granted_count + votes flags ≤ rf.peers / 2 → r.0 ≡ rf))
  unfolding count_votes
  count_votes_from args [] t rf w c e o = ground arith
  count_votes_from args (flag ∷ flags) t rf w c e o =
      let t' = add_vote flag t in
      let won =
        Returns-some {P = λ rf'. (rf'.role ≡ leader) × (rf'.current_term ≡ args.term)}
          (win gob args rf) (win_leads args rf w c e) in
      let bound = votes-le flags in
      elim (Bool-cases (ltb (rf.peers / 2) t'.granted_count)) [
        | inl yes' ↦ ground (arith, won, count_votes_stop args flags t' won.0 won.2.0)
        | inr no' ↦
            elim (Bool-cases
              (t'.res_count == rf.peers || ltb (rf.peers / 2) (t'.res_count - t'.granted_count))) [
                | inl over ↦ ground (arith, o, bound)
                | inr go ↦ ground (
                  arith,
                  o,
                  count_votes_from args flags t' rf w c e (record {
                    all_heard = ground (arith, o);
                    no_more_granted = ground (arith, o);
                    no_majority = ground (arith, o);
                  }),
                )
              ]
      ]

  -- In a cluster of at least two, once the results of all other peers are in, a well-formed
  -- candidate in the term of its request leads in that term exactly if its own vote and theirs are
  -- more than half of the peers; if they are not, it is as it was.
  pub count_votes_lem :
      (args : RequestVoteArgs) (flags : List Bool) (rf : Raft C)
      → IsWellFormed rf
      → rf.role ≡ candidate
      → rf.current_term ≡ args.term
      → length flags + 1 ≡ rf.peers
      → 2 ≤ rf.peers
      → Returns (count_votes gob args flags own_vote rf) (λ r.
        (rf.peers / 2 < 1 + votes flags → (r.0.role ≡ leader) × (r.0.current_term ≡ args.term))
        × (1 + votes flags ≤ rf.peers / 2 → r.0 ≡ rf))
  count_votes_lem args flags rf w c e n two =
      count_votes_from args flags own_vote rf w c e (record {
        all_heard = omega arith;
        no_more_granted = omega arith;
        no_majority = omega arith;
      })
