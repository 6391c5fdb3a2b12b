-- ===== src/Examples/Elections.antt =====
-- Peer 0 of three stands for election, and peer 1 votes for it.
use major_assignments.Common.{
  ◌>>=◌, Returns, ℕ, ◌+◌, ◌≤◌, ◌<◌, ◌≡◌, refl, true, false, none, some, List, [], ◌∷◌, Memᴰ, arith,
}
use major_assignments.Cluster.{
  Cluster, update, ballot_of, campaign_of, hear, note_lead, Move, vote_asked, campaigned, counted,
  Reach, here, later, IsInitial,
}
use major_assignments.Cluster.Safety.{election_safety}
use major_assignments.Examples.Codec.{raft_gob}
use major_assignments.Examples.Peers.{left, no_entropy, marker, booted, booted-IsWellFormed}
use major_assignments.Raft.Apply.{make}
use major_assignments.Raft.Election.{
  start_election, Tally, own_vote, again, count_vote, count_votes,
}
use major_assignments.Raft.Election.Outcome.{votes, count_votes_lem}
use major_assignments.Raft.Role.{fill}
use major_assignments.Raft.Snapshot.{InstallSnapshotArgs, install_snapshot}
use major_assignments.Raft.Snapshot.SecondVote.{install_snapshot_second_vote}
use major_assignments.Raft.Types.{candidate, leader, Raft}
use major_assignments.Raft.Vote.{RequestVoteArgs, RequestVoteReply, is_newer, request_vote}
use major_assignments.Raft.WellFormed.{IsWellFormed}
use major_assignments.Raft.WellFormed.Serves.{
  Request, ask_vote, stand, tally, send_entries, serve_all, never_panics,
}

abbrev pub asked : RequestVoteArgs
asked = record { term = 1; candidate_id = 0; last_log_index = 0; last_log_term = 0 }

abbrev pub granted_reply : RequestVoteReply
granted_reply = record { term = 1; vote_granted = true }

abbrev pub standing : Raft ℕ
standing = (left (booted 0, none) (start_election raft_gob (booted 0))).0

abbrev pub voter : Raft ℕ
voter = (left (booted 1, granted_reply) (request_vote raft_gob asked (booted 1))).0

abbrev pub tally2 : Tally
tally2 = record { granted_count = 2; res_count = 2 }

abbrev pub elected : Raft ℕ
elected = (left (booted 0, own_vote, again) (count_vote raft_gob asked true own_vote standing)).0

abbrev pub cluster0 : Cluster ℕ
cluster0 = record { servers = booted; ballots = []; campaigns = []; leads = [] }

abbrev pub cluster1 : Cluster ℕ
cluster1 = record {
  servers = update booted 0 standing;
  ballots = ballot_of 0 asked ∷ [];
  campaigns = campaign_of 0 asked ∷ [];
  leads = [];
}

abbrev pub cluster2 : Cluster ℕ
cluster2 = record cluster1 {
  servers = update cluster1.servers 1 voter;
  ballots = ballot_of 1 asked ∷ cluster1.ballots;
}

abbrev pub cluster3 : Cluster ℕ
cluster3 = record cluster2 {
  servers = update cluster2.servers 0 elected;
  campaigns = hear 1 true tally2 (campaign_of 0 asked) ∷ cluster2.campaigns;
  leads = note_lead 0 elected.role elected.current_term [];
}

pub cluster0-IsInitial : IsInitial raft_gob 3 cluster0
unfolding make
cluster0-IsInitial = record {
  booted = λ i. (no_entropy, refl);
  no_ballots = refl;
  no_campaigns = refl;
  no_leads = refl;
}

move1 : Move raft_gob 3 cluster0 cluster1
unfolding start_election
move1 = campaigned 0 asked standing (omega arith) refl refl

move2 : Move raft_gob 3 cluster1 cluster2
unfolding start_election request_vote
move2 = vote_asked 1 asked granted_reply voter (omega arith) refl refl

move3 : Move raft_gob 3 cluster2 cluster3
unfolding start_election request_vote count_vote fill
move3 =
    counted (campaign_of 0 asked) 1 true tally2 again elected (Memᴰ.head refl) (omega arith)
      (omega arith) refl (λ _. Memᴰ.head refl) refl refl refl

reach3 : Reach raft_gob 3 cluster0 cluster3
reach3 = later (later (later here move1) move2) move3

election_safety_example : elected.me ≡ (cluster3.servers 0).me
unfolding start_election request_vote count_vote fill
election_safety_example =
    election_safety raft_gob {t = cluster3} 0 0 cluster0-IsInitial reach3 refl refl refl

count_votes_lem_example :
    Returns (count_votes raft_gob asked (true ∷ false ∷ []) own_vote standing) (λ r.
      (1 < 1 + votes (true ∷ false ∷ []) → (r.0.role ≡ leader) × (r.0.current_term ≡ asked.term))
      × (1 + votes (true ∷ false ∷ []) ≤ 1 → r.0 ≡ standing))
unfolding start_election
count_votes_lem_example =
    count_votes_lem raft_gob asked (true ∷ false ∷ []) standing (ground arith) refl refl refl
      (omega arith)

abbrev self_voter : Raft ℕ
self_voter = record (booted 1) { role = candidate; current_term = 1; voted_for = some 1 }

abbrev old_snapshot : InstallSnapshotArgs
old_snapshot = record {
  term = 1;
  leader_id = 2;
  last_included_index = 0;
  last_included_term = 0;
  snapshot_bytes = [];
}

install_snapshot_second_vote_example :
    Returns
      (install_snapshot raft_gob old_snapshot self_voter >>= λ r. request_vote raft_gob asked r.0)
      (λ r. (r.1.vote_granted ≡ true) × (r.0.voted_for ≡ some 0) × (r.0.current_term ≡ 1))
unfolding is_newer
install_snapshot_second_vote_example =
    install_snapshot_second_vote raft_gob old_snapshot asked self_voter marker (λ e. cc e) refl refl
      refl (omega arith) refl refl

abbrev requests : List (Request raft_gob)
requests =
    ask_vote asked
    ∷ stand
    ∷ tally asked true own_vote
    ∷ tally asked true (record { res_count = 2; granted_count = 1 })
    ∷ send_entries 2
    ∷ []

never_panics_example : Returns (serve_all raft_gob requests (booted 1)) IsWellFormed
never_panics_example =
    never_panics raft_gob requests (booted 1) (booted-IsWellFormed 1 (omega arith))
