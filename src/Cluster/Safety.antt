-- ===== src/Cluster/Safety.antt =====
-- Election safety of the cluster.
use mathlib.Core.Path.{subst, subst₂}
use major_assignments.Common.{
  ◌==◌, if◌then◌else◌, ==→eq, Bool-cases, contains, common_member, ℕ, suc, ◌+◌, ◌<◌, ◌≡◌, refl, sym,
  ap, ◌∙◌, inl, inr, Bool, true, false, some, List, ◌∷◌, Memᴰ, arith,
}
use major_assignments.Cluster.{
  Ballot, Campaign, Lead, Cluster, update, ballot_of, cast, campaign_of, hear, Move, local,
  vote_asked, campaigned, counted, Reach, here, later, IsInitial,
}
use major_assignments.Cluster.Invariant.{IsCounted, IsBacked, ClusterInv}
use major_assignments.Cluster.Preserve.{
  local-ClusterInv, cast-ClusterInv, campaign-ClusterInv, count-ClusterInv,
}
use major_assignments.Labgob.{Labgob}
use major_assignments.Raft.Apply.{make}
use major_assignments.Raft.Discipline.{IsCalm}
use major_assignments.Raft.Discipline.Durable.{make-IsDurable}
use major_assignments.Raft.Discipline.Handlers.{
  request_vote-IsCalm, start_election-IsCalm, count_vote-Discipline,
}
use major_assignments.Raft.Election.{start_election, Tally, Round, count_vote}
use major_assignments.Raft.Persist.{Saved}
use major_assignments.Raft.Persister.{make_persister}
use major_assignments.Raft.Step.{Step-IsCalm}
use major_assignments.Raft.Types.{follower, candidate, leader, Raft}
use major_assignments.Raft.Vote.{RequestVoteArgs}
use major_assignments.Raft.Vote.Granted.{request_vote_granted}

module _ {C : Type 0} (gob : Labgob (Saved C)) where
  campaign_start :
      (rf : Raft C) {rf' : Raft C} {args : RequestVoteArgs}
      → start_election gob rf ≡ some (rf', some args)
      → (rf'.current_term ≡ args.term)
        × (rf'.voted_for ≡ some args.candidate_id)
        × (args.candidate_id ≡ rf.me)
  unfolding start_election
  campaign_start rf h = ground arith

  campaign_tally :
      (args : RequestVoteArgs) (flag : Bool) (t : Tally) (rf : Raft C) {rf' : Raft C} {t' : Tally}
      {round : Round}
      → count_vote gob args flag t rf ≡ some (rf', t', round)
      → t'.granted_count ≡ (if flag then suc t.granted_count else t.granted_count)
  unfolding count_vote
  campaign_tally args flag t rf h = ground arith

  campaign_won :
      (args : RequestVoteArgs) (flag : Bool) (t : Tally) (rf : Raft C) {rf' : Raft C} {t' : Tally}
      {round : Round}
      → rf.role ≡ candidate
      → count_vote gob args flag t rf ≡ some (rf', t', round)
      → rf'.role ≡ leader
      → (rf'.current_term ≡ args.term) × (rf.peers < t'.granted_count + t'.granted_count)
  unfolding count_vote
  campaign_won args flag t rf c h l = ground arith

  campaign_of-IsCounted :
      {n : ℕ} {bs : List Ballot} (i : ℕ) (args : RequestVoteArgs)
      → i < n
      → args.candidate_id ≡ i
      → IsCounted n (ballot_of i args ∷ bs) (campaign_of i args)
  campaign_of-IsCounted {bs} i args lt e = record {
    own = e;
    counted_right = refl;
    distinct = (refl, tt);
    below = (lt, tt);
    heard_all = λ v h. h;
    cast_all = λ v h. Memᴰ.head (ap (λ j. ballot_of j args) (ground arith));
  }

  hear-IsCounted :
      {n : ℕ} {bs : List Ballot} (c : Campaign) (v : ℕ) (granted : Bool) (t' : Tally)
      → IsCounted n bs c
      → v < n
      → contains v c.heard ≡ false
      → (granted ≡ true → Memᴰ (ballot_of v c.args) bs)
      → t'.granted_count ≡ (if granted then suc c.tally.granted_count else c.tally.granted_count)
      → IsCounted n bs (hear v granted t' c)
  hear-IsCounted {bs} c v true t' h lt new b e = record {
    own = h.own;
    counted_right = omega (arith, h.counted_right);
    distinct = (h.heard_all v new, h.distinct);
    below = (lt, h.below);
    heard_all = λ w k. ground (arith, h.heard_all w);
    cast_all = λ w k. elim (Bool-cases (w == v)) [
      | inl p ↦ subst (λ j. Memᴰ (ballot_of j c.args) bs) (sym (==→eq w v p)) (b refl)
      | inr p ↦ h.cast_all w (rw p at k)
    ];
  }
  hear-IsCounted c v false t' h lt new b e = record {
    own = h.own;
    counted_right = e ∙ h.counted_right;
    distinct = h.distinct;
    below = h.below;
    heard_all = λ w k. ground (arith, h.heard_all w);
    cast_all = h.cast_all;
  }

  counted-IsBacked :
      {n : ℕ} {bs : List Ballot} (c : Campaign) (term : ℕ)
      → IsCounted n bs c
      → term ≡ c.args.term
      → n < c.tally.granted_count + c.tally.granted_count
      → IsBacked n bs (record { lead_term = term; lead_id = c.owner })
  counted-IsBacked {bs} c term h e m = record {
    quorum = c.voters;
    majority = omega (arith, h.counted_right);
    quorum_distinct = h.distinct;
    quorum_below = h.below;
    quorum_cast = λ v k.
        subst₂ (λ t i. Memᴰ (record { voter = v; vote_term = t; vote_for = i }) bs) (sym e) h.own
          (h.cast_all v k);
  }

  pub booted_fresh :
      (n i : ℕ) (entropy : ℕ → ℕ) {rf : Raft C}
      → make gob n i make_persister entropy ≡ some rf
      → (rf.me ≡ i) × (rf.peers ≡ n) × (rf.role ≡ follower)
  unfolding make
  booted_fresh n i entropy h = ground arith

  -- Every move keeps the invariant.
  pub Move-ClusterInv :
      {n : ℕ} {s s' : Cluster C} → Move gob n s s' → ClusterInv gob n s → ClusterInv gob n s'
  Move-ClusterInv (local i rf' lt st e) inv =
      subst (ClusterInv gob _) (sym e)
        (local-ClusterInv gob inv i (Step-IsCalm gob st (inv.durable i)))
  Move-ClusterInv {n} {s} (vote_asked i args reply rf' lt st e) inv =
      subst (ClusterInv gob _) (sym e) (asked reply.vote_granted refl)
    where
      calm : IsCalm gob (s.servers i) rf'
      calm = request_vote-IsCalm gob args (s.servers i) st

      asked :
          (g : Bool)
          → reply.vote_granted ≡ g
          → ClusterInv gob n (record s {
            servers = update s.servers i rf';
            ballots = cast g (ballot_of i args) s.ballots;
          })
      asked false p = local-ClusterInv gob inv i calm
      asked true p =
          let granted = request_vote_granted gob args (s.servers i) st p in
          cast-ClusterInv gob inv i (ballot_of i args) calm refl granted.1 granted.2
  Move-ClusterInv {s} (campaigned i args rf' lt st e) inv =
      let begun = campaign_start (s.servers i) st in
      subst (ClusterInv gob _) (sym e) (
        campaign-ClusterInv gob
          (cast-ClusterInv gob inv i (ballot_of i args) (start_election-IsCalm gob (s.servers i) st)
            refl begun.0 begun.1)
          (campaign_of i args) (campaign_of-IsCounted i args lt (begun.2 ∙ inv.me_ok i)))
  Move-ClusterInv {n} {s} (counted c v granted t' round rf' m own lt new b cand st e) inv =
      subst (ClusterInv gob _) (sym e) (
        campaign-ClusterInv gob
          (count-ClusterInv gob inv c.owner
            (count_vote-Discipline gob c.args granted c.tally (s.servers c.owner) st)
            (λ l.
              let won = campaign_won c.args granted c.tally (s.servers c.owner) cand st l in
              counted-IsBacked (hear v granted t' c) rf'.current_term heard won.0 (
                subst (λ k. k < t'.granted_count + t'.granted_count) (inv.peers_ok c.owner) won.1)))
          (hear v granted t' c) heard)
    where
      heard : IsCounted n s.ballots (hear v granted t' c)
      heard =
          hear-IsCounted c v granted t' (inv.campaigns_ok c m) lt new b
            (campaign_tally c.args granted c.tally (s.servers c.owner) st)

  pub initial-ClusterInv : {n : ℕ} {s : Cluster C} → IsInitial gob n s → ClusterInv gob n s
  initial-ClusterInv {n} {s} init = record {
    me_ok = λ i. (fresh i).0;
    peers_ok = λ i. (fresh i).1;
    durable = λ i. make-IsDurable gob n i make_persister (init.booted i).0 (init.booted i).1;
    ballots_ok = λ b m. elim (subst (Memᴰ b) init.no_ballots m) [ ];
    one_vote = λ b c m. elim (subst (Memᴰ b) init.no_ballots m) [ ];
    campaigns_ok = λ c m. elim (subst (Memᴰ c) init.no_campaigns m) [ ];
    leads_ok = λ l m. elim (subst (Memᴰ l) init.no_leads m) [ ];
    roles_ok = λ i h. absurd (cc ((fresh i).2, h));
  }
    where
      fresh :
          (i : ℕ)
          → ((s.servers i).me ≡ i) × ((s.servers i).peers ≡ n) × ((s.servers i).role ≡ follower)
      fresh i = booted_fresh n i (init.booted i).0 (init.booted i).1

  -- Every cluster that is reached from the start satisfies the invariant: the ballots are one for
  -- each voter and term and are remembered by their voters, also across restarts, the counters of
  -- a campaign count different voters that voted for it, and every leader has a majority behind
  -- it.
  pub Reach-ClusterInv :
      {n : ℕ} {s t : Cluster C} → IsInitial gob n s → Reach gob n s t → ClusterInv gob n t
  Reach-ClusterInv init here = initial-ClusterInv init
  Reach-ClusterInv init (later r m) = Move-ClusterInv m (Reach-ClusterInv init r)

  -- Two leaders of one term, each backed by a majority, are one.
  pub leads_agree :
      {n : ℕ} {s : Cluster C} (l m : Lead)
      → ClusterInv gob n s
      → Memᴰ l s.leads
      → Memᴰ m s.leads
      → l.lead_term ≡ m.lead_term
      → l.lead_id ≡ m.lead_id
  leads_agree {n} l m inv a b e =
      let p = inv.leads_ok l a in
      let q = inv.leads_ok m b in
      let (v, x, y) =
        common_member n p.quorum q.quorum p.quorum_below q.quorum_below p.quorum_distinct
          q.quorum_distinct (omega (arith, p.majority, q.majority)) in
      inv.one_vote (record { voter = v; vote_term = l.lead_term; vote_for = l.lead_id })
        (record { voter = v; vote_term = m.lead_term; vote_for = m.lead_id }) (p.quorum_cast v x)
        (q.quorum_cast v y) refl e

  -- Election safety: in every cluster that is reached from the start by any interleaving of the
  -- handlers, of crashes and of restarts, where requests and replies may be lost, repeated,
  -- delayed or made up, but a vote is counted only if it was granted, once for each voter, and
  -- where no `InstallSnapshot` meets a peer of its own term that is no follower, two peers that
  -- lead in one term are the same peer.
  pub election_safety :
      {n : ℕ} {s t : Cluster C} (i j : ℕ)
      → IsInitial gob n s
      → Reach gob n s t
      → (t.servers i).role ≡ leader
      → (t.servers j).role ≡ leader
      → (t.servers i).current_term ≡ (t.servers j).current_term
      → i ≡ j
  election_safety {t} i j init r a b e =
      let inv = Reach-ClusterInv init r in
      leads_agree (record { lead_term = (t.servers i).current_term; lead_id = i })
        (record { lead_term = (t.servers j).current_term; lead_id = j }) inv (inv.roles_ok i a)
        (inv.roles_ok j b) e
