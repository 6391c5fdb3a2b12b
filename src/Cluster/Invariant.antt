-- ===== src/Cluster/Invariant.antt =====
-- What holds of every reachable cluster.
use major_assignments.Common.{
  contains, IsDistinct, AllBelow, length, ℕ, ◌+◌, ◌≤◌, ◌<◌, ◌≡◌, true, false, some, List, Memᴰ,
}
use major_assignments.Cluster.{Ballot, Campaign, Lead, Cluster, ballot_of}
use major_assignments.Labgob.{Labgob}
use major_assignments.Raft.Discipline.{IsDurable}
use major_assignments.Raft.Persist.{Saved}
use major_assignments.Raft.Types.{leader, Raft}

-- The voter of a ballot has not forgotten it.
abbrev pub IsCast : {C : Type 0} → Raft C → Ballot → Type 0
IsCast rf b =
    (b.vote_term ≤ rf.current_term)
    × (rf.current_term ≡ b.vote_term → rf.voted_for ≡ some b.vote_for)

-- The voters of a campaign are different peers that have cast their ballots for it.
pub record IsCounted (n : ℕ) (ballots : List Ballot) (c : Campaign) : Type 0 where
  pub own : c.args.candidate_id ≡ c.owner
  pub counted_right : c.tally.granted_count ≡ length c.voters
  pub distinct : IsDistinct c.voters
  pub below : AllBelow n c.voters
  pub heard_all : (v : ℕ) → contains v c.heard ≡ false → contains v c.voters ≡ false
  pub cast_all : (v : ℕ) → contains v c.voters ≡ true → Memᴰ (ballot_of v c.args) ballots

-- A majority stands behind a leader.
pub record IsBacked (n : ℕ) (ballots : List Ballot) (l : Lead) : Type 0 where
  pub quorum : List ℕ
  pub majority : n < length quorum + length quorum
  pub quorum_distinct : IsDistinct quorum
  pub quorum_below : AllBelow n quorum
  pub quorum_cast :
      (v : ℕ)
      → contains v quorum ≡ true
      → Memᴰ (record { voter = v; vote_term = l.lead_term; vote_for = l.lead_id }) ballots

pub record ClusterInv {C : Type 0} (gob : Labgob (Saved C)) (n : ℕ) (s : Cluster C) : Type 0 where
  pub me_ok : (i : ℕ) → (s.servers i).me ≡ i
  pub peers_ok : (i : ℕ) → (s.servers i).peers ≡ n
  pub durable : (i : ℕ) → IsDurable gob (s.servers i)
  pub ballots_ok : (b : Ballot) → Memᴰ b s.ballots → IsCast (s.servers b.voter) b
  pub one_vote :
      (b c : Ballot)
      → Memᴰ b s.ballots
      → Memᴰ c s.ballots
      → b.voter ≡ c.voter
      → b.vote_term ≡ c.vote_term
      → b.vote_for ≡ c.vote_for
  pub campaigns_ok : (c : Campaign) → Memᴰ c s.campaigns → IsCounted n s.ballots c
  pub leads_ok : (l : Lead) → Memᴰ l s.leads → IsBacked n s.ballots l
  pub roles_ok :
      (i : ℕ)
      → (s.servers i).role ≡ leader
      → Memᴰ (record { lead_term = (s.servers i).current_term; lead_id = i }) s.leads
