-- ===== src/Cluster/Keeps.antt =====
-- How the parts of the invariant come through a change of one peer.
use mathlib.Core.Path.{subst}
use major_assignments.Common.{
  ◌==◌, ==→eq, eq→==, Bool-cases, ℕ, ◌≡◌, refl, sym, ap, ◌∙◌, inl, inr, some, List, ◌∷◌, Memᴰ,
  arith,
}
use major_assignments.Cluster.{Ballot, Campaign, Lead, Cluster, update}
use major_assignments.Cluster.Invariant.{IsCast, IsCounted, IsBacked, ClusterInv}
use major_assignments.Labgob.{Labgob}
use major_assignments.Raft.Discipline.{Discipline, IsCalm, IsDurable}
use major_assignments.Raft.Discipline.Durable.{Discipline-IsDurable}
use major_assignments.Raft.Persist.{Saved}
use major_assignments.Raft.Types.{leader, Raft}

pub update_all {ℓ κ} :
    {A : Type ℓ} (P : ℕ → A → Type κ) (f : ℕ → A) (i : ℕ) (a : A)
    → P i a
    → ((j : ℕ) → P j (f j))
    → (j : ℕ) → P j (update f i a j)
update_all P f i a h k j = elim (Bool-cases (i == j)) [
  | inl e ↦ rw e (subst (λ m. P m a) (==→eq i j e) h)
  | inr e ↦ rw e (k j)
]

module _ {C : Type 0} (gob : Labgob (Saved C)) where
  pub Discipline-IsCast :
      {rf rf' : Raft C} (b : Ballot) → Discipline gob rf rf' → IsCast rf b → IsCast rf' b
  Discipline-IsCast b d h = ground (arith, d.vote_kept b.vote_for)

  -- A vote cast now agrees with a ballot of the same voter and term.
  pub Discipline-agrees :
      {rf rf' : Raft C} (b : Ballot) (w : ℕ)
      → Discipline gob rf rf'
      → IsCast rf b
      → rf'.current_term ≡ b.vote_term
      → rf'.voted_for ≡ some w
      → b.vote_for ≡ w
  Discipline-agrees b w d h t v = ground (arith, d.vote_kept b.vote_for)

  module _ {n : ℕ} {s : Cluster C} (inv : ClusterInv gob n s) (i : ℕ) {rf' : Raft C}
      (d : Discipline gob (s.servers i) rf') where
    pub me_kept : (j : ℕ) → (update s.servers i rf' j).me ≡ j
    me_kept = update_all (λ j r. r.me ≡ j) s.servers i rf' (d.same_me ∙ inv.me_ok i) inv.me_ok

    pub peers_kept : (j : ℕ) → (update s.servers i rf' j).peers ≡ n
    peers_kept =
        update_all (λ _ r. r.peers ≡ n) s.servers i rf' (d.same_peers ∙ inv.peers_ok i) inv.peers_ok

    pub IsDurable-kept : (j : ℕ) → IsDurable gob (update s.servers i rf' j)
    IsDurable-kept =
        update_all (λ _ r. IsDurable gob r) s.servers i rf'
          (Discipline-IsDurable gob d (inv.durable i)) inv.durable

    pub ballots_kept : (b : Ballot) → Memᴰ b s.ballots → IsCast (update s.servers i rf' b.voter) b
    ballots_kept b m =
        update_all (λ j r. b.voter ≡ j → IsCast r b) s.servers i rf'
          (λ e. Discipline-IsCast b d (rw e at (inv.ballots_ok b m)))
          (λ j e. rw e at (inv.ballots_ok b m)) b.voter refl

    -- One more ballot, of the peer that has just voted so.
    pub ballots_added :
        (c b : Ballot)
        → c.voter ≡ i
        → rf'.current_term ≡ c.vote_term
        → rf'.voted_for ≡ some c.vote_for
        → Memᴰ b (c ∷ s.ballots)
        → IsCast (update s.servers i rf' b.voter) b
    ballots_added c b e t v (Memᴰ.head p) = rw (eq→== i b.voter (cc)) (ground arith)
    ballots_added c b e t v (Memᴰ.tail m) = ballots_kept b m

    agrees :
        (b c : Ballot)
        → Memᴰ b s.ballots
        → b.voter ≡ c.voter
        → b.vote_term ≡ c.vote_term
        → c.voter ≡ i
        → rf'.current_term ≡ c.vote_term
        → rf'.voted_for ≡ some c.vote_for
        → b.vote_for ≡ c.vote_for
    agrees b c m f g e t v =
        Discipline-agrees b c.vote_for d (rw (f ∙ e) at (inv.ballots_ok b m)) (cc) v

    pub one_vote_added :
        (c : Ballot)
        → c.voter ≡ i
        → rf'.current_term ≡ c.vote_term
        → rf'.voted_for ≡ some c.vote_for
        → (a b : Ballot) → Memᴰ a (c ∷ s.ballots)
        → Memᴰ b (c ∷ s.ballots)
        → a.voter ≡ b.voter
        → a.vote_term ≡ b.vote_term
        → a.vote_for ≡ b.vote_for
    one_vote_added c e t v a b (Memᴰ.head p) (Memᴰ.head q) f g = cc
    one_vote_added c e t v a b (Memᴰ.head p) (Memᴰ.tail q) f g =
        ap (λ x. x.vote_for) p ∙ sym (agrees b c q (cc) (cc) e t v)
    one_vote_added c e t v a b (Memᴰ.tail p) (Memᴰ.head q) f g =
        agrees a c p (cc) (cc) e t v ∙ sym (ap (λ x. x.vote_for) q)
    one_vote_added c e t v a b (Memᴰ.tail p) (Memᴰ.tail q) f g = inv.one_vote a b p q f g

  -- The leads come through a step after which the peer leads only if it did before.
  pub roles_kept :
      {n : ℕ} {s : Cluster C} (inv : ClusterInv gob n s) (i : ℕ) {rf' : Raft C}
      → IsCalm gob (s.servers i) rf'
      → (j : ℕ) → (update s.servers i rf' j).role ≡ leader
      → Memᴰ (record { lead_term = (update s.servers i rf' j).current_term; lead_id = j }) s.leads
  roles_kept {s} inv i {rf'} d =
      update_all
        (λ j r. r.role ≡ leader → Memᴰ (record { lead_term = r.current_term; lead_id = j }) s.leads)
        s.servers i rf' (λ h. let (r, t) = d.no_new_leader h in rw t (inv.roles_ok i r))
        inv.roles_ok

module _ {n : ℕ} {ballots : List Ballot} (b : Ballot) where
  pub IsCounted-more : {c : Campaign} → IsCounted n ballots c → IsCounted n (b ∷ ballots) c
  IsCounted-more h = record {
    own = h.own;
    counted_right = h.counted_right;
    distinct = h.distinct;
    below = h.below;
    heard_all = h.heard_all;
    cast_all = λ v m. Memᴰ.tail (h.cast_all v m);
  }

  pub IsBacked-more : {l : Lead} → IsBacked n ballots l → IsBacked n (b ∷ ballots) l
  IsBacked-more h = record {
    quorum = h.quorum;
    majority = h.majority;
    quorum_distinct = h.quorum_distinct;
    quorum_below = h.quorum_below;
    quorum_cast = λ v m. Memᴰ.tail (h.quorum_cast v m);
  }
