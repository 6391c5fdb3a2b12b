-- ===== src/Cluster/Logs/Keeps.antt =====
-- How the invariant of the logs comes through a change of one peer.
use mathlib.Core.Path.{subst}
use major_assignments.Common.{◌==◌, ==→eq, Bool-cases, ℕ, ◌≡◌, ◌⊎◌, inl, inr, false, List, [], Memᴰ}
use major_assignments.Cluster.{Ballot, Campaign, Lead, update}
use major_assignments.Cluster.Logs.{LogCluster}
use major_assignments.Cluster.Logs.Invariant.{
  IsTraced, IsKept, IsWhole, LogInv, IsKept-step, Traced-more, IsKept-more,
}
use major_assignments.Cluster.Logs.Segment.{IsPrefix, IsPrefix-refl, IsCoherent, IsCarried-more}
use major_assignments.Cluster.Logs.Still.{IsStill}
use major_assignments.Labgob.{Labgob}
use major_assignments.Raft.Discipline.{Discipline, IsCalm}
use major_assignments.Raft.Persist.{Saved}
use major_assignments.Raft.Types.{LogEntry, Raft}

update_rest :
    {A : Type 0} (P : ℕ → A → Type 0) (f : ℕ → A) (i : ℕ) (a : A)
    → P i a
    → ((j : ℕ) → (i == j) ≡ false → P j (f j))
    → (j : ℕ) → P j (update f i a j)
update_rest P f i a h k j = elim (Bool-cases (i == j)) [
  | inl e ↦ rw e (subst (λ m. P m a) (==→eq i j e) h)
  | inr e ↦ rw e (k j e)
]

-- The cluster in which one peer has changed, and what has been noted.
abbrev pub after :
    {C : Type 0}
    → LogCluster C
    → ℕ
    → Raft C
    → List Ballot
    → List Campaign
    → List Lead
    → LogCluster C
after s i rf' bs cs ls = record s {
  cluster = record {
    servers = update s.cluster.servers i rf';
    ballots = bs;
    campaigns = cs;
    leads = ls;
  };
}

module _ {C : Type 0} (gob : Labgob (Saved C)) {led : ℕ → List (LogEntry C)} {s : LogCluster C}
    (inv : LogInv gob led s) (i : ℕ) (rf' : Raft C) (bs : List Ballot) (cs : List Campaign)
    (ls : List Lead) (more : (l : Lead) → Memᴰ l s.cluster.leads → Memᴰ l ls) where
  -- The peer and the logs of the leaders change.
  pub grown-LogInv :
      (led' : ℕ → List (LogEntry C))
      → ((t : ℕ) → IsPrefix (led t) (led' t))
      → ((t : ℕ) → IsCoherent led' (led' t))
      → IsTraced led' rf'
      → IsKept gob led' rf'.persister
      → IsWhole led' rf'
      → ((j : ℕ) → (i == j) ≡ false → IsWhole led' (s.cluster.servers j))
      → ((t : ℕ)
          → (t ≡ 0) ⊎ (led' t ≡ []) ⊎ ((j : ℕ) × Memᴰ (record { lead_term = t; lead_id = j }) ls))
      → LogInv gob led' (after s i rf' bs cs ls)
  grown-LogInv led' grow coh t k w others led_ok = record {
    coherent = coh;
    traced =
        update_rest (λ _ r. IsTraced led' r) s.cluster.servers i rf' t
          (λ j _.
            let r = s.cluster.servers j in
            Traced-more gob led led' r.last_snapshot_index r.last_snapshot_term r.logs grow
              (inv.traced j));
    kept =
        update_rest (λ _ r. IsKept gob led' r.persister) s.cluster.servers i rf' k
          (λ j _. IsKept-more gob led led' (s.cluster.servers j).persister grow (inv.kept j));
    whole = update_rest (λ _ r. IsWhole led' r) s.cluster.servers i rf' w others;
    sent_ok = λ m mem.
        let (l, c) = inv.sent_ok m mem in
        (
          more (record { lead_term = m.term; lead_id = m.leader_id }) l,
          IsCarried-more m (led m.term) (led' m.term) (grow m.term) c,
        );
    led_ok = led_ok;
  }

  -- The peer alone changes.
  pub peer-LogInv :
      IsTraced led rf'
      → IsKept gob led rf'.persister
      → IsWhole led rf'
      → LogInv gob led (after s i rf' bs cs ls)
  peer-LogInv t k w =
      grown-LogInv led (λ u. IsPrefix-refl (led u)) inv.coherent t k w (λ j _. inv.whole j)
        (λ u. elim (inv.led_ok u) [
          | inl e ↦ inl e
          | inr (inl e) ↦ inr (inl e)
          | inr (inr (j, m)) ↦ inr (inr (j, more (record { lead_term = u; lead_id = j }) m))
        ])

  -- A peer whose log is as it was.
  pub still-LogInv :
      Discipline gob (s.cluster.servers i) rf'
      → IsStill (s.cluster.servers i) rf'
      → IsWhole led rf'
      → LogInv gob led (after s i rf' bs cs ls)
  still-LogInv d (a, b, c) w =
      let t : IsTraced led rf' = rw (a, b, c) (inv.traced i) in
      peer-LogInv t (IsKept-step gob led d t (inv.kept i)) w

  -- Which leads, if it does, as it did before.
  pub calm-LogInv :
      IsCalm gob (s.cluster.servers i) rf'
      → IsStill (s.cluster.servers i) rf'
      → LogInv gob led (after s i rf' bs cs ls)
  calm-LogInv d (a, b, c) =
      still-LogInv d.discipline (a, b, c)
        (λ l. let (r, e) = d.no_new_leader l in rw (a, b, c, e) (inv.whole i r))
