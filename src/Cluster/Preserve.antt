-- ===== src/Cluster/Preserve.antt =====
-- Every move keeps the invariant of the cluster.
use mathlib.Core.Path.{subst}
use major_assignments.Common.{ℕ, ◌≡◌, refl, sym, some, ◌∷◌, Memᴰ}
use major_assignments.Cluster.{Ballot, Campaign, Lead, Cluster, update, note_lead}
use major_assignments.Cluster.Invariant.{IsCounted, IsBacked, ClusterInv}
use major_assignments.Cluster.Keeps.{
  update_all, me_kept, peers_kept, IsDurable-kept, ballots_kept, ballots_added, one_vote_added,
  roles_kept, IsCounted-more, IsBacked-more,
}
use major_assignments.Labgob.{Labgob}
use major_assignments.Raft.Discipline.{Discipline, IsCalm}
use major_assignments.Raft.Persist.{Saved}
use major_assignments.Raft.Types.{Role, follower, candidate, leader, Raft}

module _ {C : Type 0} (gob : Labgob (Saved C)) {n : ℕ} {s : Cluster C}
    (inv : ClusterInv gob n s) where
  -- A step that casts no vote and makes no leader.
  pub local-ClusterInv :
      (i : ℕ) {rf' : Raft C}
      → IsCalm gob (s.servers i) rf'
      → ClusterInv gob n (record s { servers = update s.servers i rf' })
  local-ClusterInv i d = record {
    me_ok = me_kept gob inv i d.discipline;
    peers_ok = peers_kept gob inv i d.discipline;
    durable = IsDurable-kept gob inv i d.discipline;
    ballots_ok = ballots_kept gob inv i d.discipline;
    one_vote = inv.one_vote;
    campaigns_ok = inv.campaigns_ok;
    leads_ok = inv.leads_ok;
    roles_ok = roles_kept gob inv i d;
  }

  -- A step by which the peer casts a ballot.
  pub cast-ClusterInv :
      (i : ℕ) (b : Ballot) {rf' : Raft C}
      → IsCalm gob (s.servers i) rf'
      → b.voter ≡ i
      → rf'.current_term ≡ b.vote_term
      → rf'.voted_for ≡ some b.vote_for
      → ClusterInv gob n (record s { servers = update s.servers i rf'; ballots = b ∷ s.ballots })
  cast-ClusterInv i b d e t v = record {
    me_ok = me_kept gob inv i d.discipline;
    peers_ok = peers_kept gob inv i d.discipline;
    durable = IsDurable-kept gob inv i d.discipline;
    ballots_ok = λ a. ballots_added gob inv i d.discipline b a e t v;
    one_vote = one_vote_added gob inv i d.discipline b e t v;
    campaigns_ok = λ c m. IsCounted-more b (inv.campaigns_ok c m);
    leads_ok = λ l m. IsBacked-more b (inv.leads_ok l m);
    roles_ok = roles_kept gob inv i d;
  }

  pub campaign-ClusterInv :
      (c : Campaign)
      → IsCounted n s.ballots c
      → ClusterInv gob n (record s { campaigns = c ∷ s.campaigns })
  campaign-ClusterInv c h = record {
    me_ok = inv.me_ok;
    peers_ok = inv.peers_ok;
    durable = inv.durable;
    ballots_ok = inv.ballots_ok;
    one_vote = inv.one_vote;
    campaigns_ok = λ a m. campaign_cases a m;
    leads_ok = inv.leads_ok;
    roles_ok = inv.roles_ok;
  }
    where
      campaign_cases : (a : Campaign) → Memᴰ a (c ∷ s.campaigns) → IsCounted n s.ballots a
      campaign_cases a (Memᴰ.head e) = subst (IsCounted n s.ballots) (sym e) h
      campaign_cases a (Memᴰ.tail m) = inv.campaigns_ok a m

  -- A round of counting: it casts nothing, and may make the peer a leader that a majority backs.
  pub count-ClusterInv :
      (i : ℕ) {rf' : Raft C}
      → Discipline gob (s.servers i) rf'
      → (rf'.role ≡ leader
          → IsBacked n s.ballots (record { lead_term = rf'.current_term; lead_id = i }))
      → ClusterInv gob n (record s {
        servers = update s.servers i rf';
        leads = note_lead i rf'.role rf'.current_term s.leads;
      })
  count-ClusterInv i {rf'} d backed = record {
    me_ok = me_kept gob inv i d;
    peers_ok = peers_kept gob inv i d;
    durable = IsDurable-kept gob inv i d;
    ballots_ok = ballots_kept gob inv i d;
    one_vote = inv.one_vote;
    campaigns_ok = inv.campaigns_ok;
    leads_ok = lead_cases rf'.role refl;
    roles_ok =
        update_all
          (λ j r.
            r.role ≡ leader
            → Memᴰ (record { lead_term = r.current_term; lead_id = j })
                (note_lead i rf'.role rf'.current_term s.leads))
          s.servers i rf' (λ h. rw h (Memᴰ.head refl)) (λ j h. older rf'.role (inv.roles_ok j h));
  }
    where
      crowned : Lead
      crowned = record { lead_term = rf'.current_term; lead_id = i }

      lead_here :
          (l : Lead) → rf'.role ≡ leader → Memᴰ l (crowned ∷ s.leads) → IsBacked n s.ballots l
      lead_here l h (Memᴰ.head e) = subst (IsBacked n s.ballots) (sym e) (backed h)
      lead_here l h (Memᴰ.tail m) = inv.leads_ok l m

      lead_cases :
          (r : Role)
          → rf'.role ≡ r
          → (l : Lead) → Memᴰ l (note_lead i r rf'.current_term s.leads)
          → IsBacked n s.ballots l
      lead_cases follower e l m = inv.leads_ok l m
      lead_cases candidate e l m = inv.leads_ok l m
      lead_cases leader e l m = lead_here l e m

      older :
          {l : Lead} (r : Role) → Memᴰ l s.leads → Memᴰ l (note_lead i r rf'.current_term s.leads)
      older follower m = m
      older candidate m = m
      older leader m = Memᴰ.tail m
