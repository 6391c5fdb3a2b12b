-- ===== src/Cluster.antt =====
-- A cluster of peers of raft.go that hold elections. The votes granted so far stand in `ballots`;
-- they are the replies that may reach a candidate, in any order, late or never. Requests are
-- arbitrary. An election is the call of `startElection` of one candidate: the peers whose result its
-- loop has taken from `grantedChan`, those of them that granted, and the two counters.
pub mod Invariant
pub mod Keeps
pub mod Preserve
pub mod Safety
pub mod Standing
pub mod Logs
use major_assignments.Common.{
  ◌==◌, if◌then◌else◌, contains, ℕ, ◌<◌, ◌≡◌, Bool, true, false, some, List, [], ◌∷◌, Memᴰ,
}
use major_assignments.Labgob.{Labgob}
use major_assignments.Raft.Apply.{make}
use major_assignments.Raft.Election.{start_election, Tally, own_vote, Round, count_vote}
use major_assignments.Raft.Log.{is_leader}
use major_assignments.Raft.Persist.{Saved}
use major_assignments.Raft.Persister.{make_persister}
use major_assignments.Raft.Step.{Step}
use major_assignments.Raft.Types.{Role, candidate, Raft}
use major_assignments.Raft.Vote.{RequestVoteArgs, RequestVoteReply, request_vote}

pub record Ballot : Type 0 where
  pub voter : ℕ
  pub vote_term : ℕ
  pub vote_for : ℕ

pub record Campaign : Type 0 where
  pub owner : ℕ
  pub args : RequestVoteArgs
  pub heard : List ℕ
  pub voters : List ℕ
  pub tally : Tally

pub record Lead : Type 0 where
  pub lead_term : ℕ
  pub lead_id : ℕ

pub record Cluster (C : Type 0) : Type 0 where
  pub servers : ℕ → Raft C
  pub ballots : List Ballot
  pub campaigns : List Campaign
  pub leads : List Lead

abbrev pub update {ℓ} : {A : Type ℓ} → (ℕ → A) → ℕ → A → ℕ → A
update f i a j = if i == j then a else f j

abbrev pub ballot_of : ℕ → RequestVoteArgs → Ballot
ballot_of i args = record { voter = i; vote_term = args.term; vote_for = args.candidate_id }

abbrev pub cast : Bool → Ballot → List Ballot → List Ballot
cast granted b bs = if granted then b ∷ bs else bs

-- The campaign of a peer that has voted for itself.
abbrev pub campaign_of : ℕ → RequestVoteArgs → Campaign
campaign_of i args = record {
  owner = i;
  args = args;
  heard = i ∷ [];
  voters = i ∷ [];
  tally = own_vote;
}

abbrev pub hear : ℕ → Bool → Tally → Campaign → Campaign
hear v granted t c = record c {
  heard = v ∷ c.heard;
  voters = if granted then v ∷ c.voters else c.voters;
  tally = t;
}

-- A peer that leads after a round, and did not before it, has won.
abbrev pub note_lead : ℕ → Role → ℕ → List Lead → List Lead
note_lead i role term ls =
    if is_leader role then record { lead_term = term; lead_id = i } ∷ ls else ls

-- A snapshot of a campaign stays in the list when the campaign goes on.
pub data Move {C : Type 0} (gob : Labgob (Saved C)) (n : ℕ) (s s' : Cluster C) : Type 0 where
  local :
      (i : ℕ) (rf' : Raft C)
      → i < n
      → Step gob (s.servers i) rf'
      → s' ≡ record s { servers = update s.servers i rf' }
      → Move gob n s s'
  vote_asked :
      (i : ℕ) (args : RequestVoteArgs) (reply : RequestVoteReply) (rf' : Raft C)
      → i < n
      → request_vote gob args (s.servers i) ≡ some (rf', reply)
      → s' ≡ record s {
        servers = update s.servers i rf';
        ballots = cast reply.vote_granted (ballot_of i args) s.ballots;
      }
      → Move gob n s s'
  campaigned :
      (i : ℕ) (args : RequestVoteArgs) (rf' : Raft C)
      → i < n
      → start_election gob (s.servers i) ≡ some (rf', some args)
      → s' ≡ record s {
        servers = update s.servers i rf';
        ballots = ballot_of i args ∷ s.ballots;
        campaigns = campaign_of i args ∷ s.campaigns;
      }
      → Move gob n s s'
  counted :
      (c : Campaign) (v : ℕ) (granted : Bool) (t' : Tally) (round : Round) (rf' : Raft C)
      → Memᴰ c s.campaigns
      → c.owner < n
      → v < n
      → contains v c.heard ≡ false
      → (granted ≡ true → Memᴰ (ballot_of v c.args) s.ballots)
      → (s.servers c.owner).role ≡ candidate
      → count_vote gob c.args granted c.tally (s.servers c.owner) ≡ some (rf', t', round)
      → s' ≡ record s {
        servers = update s.servers c.owner rf';
        campaigns = hear v granted t' c ∷ s.campaigns;
        leads = note_lead c.owner rf'.role rf'.current_term s.leads;
      }
      → Move gob n s s'

pub data Reach {C : Type 0} (gob : Labgob (Saved C)) (n : ℕ) (s : Cluster C)
    : Cluster C → Type 0 where
  here : Reach gob n s s
  later : {t u : Cluster C} → Reach gob n s t → Move gob n t u → Reach gob n s u

-- Every peer as `Make` returns it on empty storage, with nothing sent yet.
pub record IsInitial {C : Type 0} (gob : Labgob (Saved C)) (n : ℕ) (s : Cluster C) : Type 0 where
  pub booted :
      (i : ℕ) → (entropy : ℕ → ℕ) × (make gob n i make_persister entropy ≡ some (s.servers i))
  pub no_ballots : s.ballots ≡ []
  pub no_campaigns : s.campaigns ≡ []
  pub no_leads : s.leads ≡ []
