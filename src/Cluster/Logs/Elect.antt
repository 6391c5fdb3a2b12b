-- ===== src/Cluster/Logs/Elect.antt =====
-- The two moves by which the log of a term begins and grows: a candidate wins, a leader takes a
-- command.
use mathlib.Core.Path.{subst}
use major_assignments.Common.{
  ◌==◌, ==→eq, eq→==, Bool-cases, length, length-append, ℕ, ◌+◌, ◌≡◌, refl, sym, ap, ◌∙◌, ◌≢◌, inl,
  inr, false, Option, some, List, [], ◌∷◌, ◌++◌, Memᴰ, arith,
}
use major_assignments.Cluster.{Ballot, Campaign, Lead, update}
use major_assignments.Cluster.Invariant.{ClusterInv}
use major_assignments.Cluster.Logs.{LogCluster}
use major_assignments.Cluster.Logs.Change.{snoc-IsSegment}
use major_assignments.Cluster.Logs.Invariant.{IsKept, LogInv, IsKept-same, IsKept-more}
use major_assignments.Cluster.Logs.Keeps.{after, grown-LogInv, calm-LogInv}
use major_assignments.Cluster.Logs.Segment.{
  IsSegment, IsPrefix, IsPrefix-append, IsCoherent, update_grows, update-IsCoherent,
  append-IsCoherent,
}
use major_assignments.Cluster.Logs.Still.{start_log}
use major_assignments.Cluster.Safety.{leads_agree}
use major_assignments.Labgob.{Labgob}
use major_assignments.Raft.Apply.{start}
use major_assignments.Raft.Discipline.Handlers.{start-IsCalm}
use major_assignments.Raft.Persist.{Saved}
use major_assignments.Raft.Types.{leader, LogEntry, Raft}

module _ {A : Type 0} (f : ℕ → A) (i : ℕ) (a : A) where
  pub update_at : update f i a i ≡ a
  update_at = rw (eq→== i i refl) refl

  update_off : (j : ℕ) → j ≢ i → update f i a j ≡ f j
  update_off j h = ground (arith, ==→eq i j, h)

module _ {C : Type 0} (gob : Labgob (Saved C)) {led : ℕ → List (LogEntry C)} {s : LogCluster C}
    (inv : LogInv gob led s) where
  -- The term of a leader gets a longer log.
  module _ (i : ℕ) (rf' : Raft C) (bs : List Ballot) (cs : List Campaign) (ls : List Lead)
      (more : (l : Lead) → Memᴰ l s.cluster.leads → Memᴰ l ls)
      (crowned : Memᴰ (record { lead_term = rf'.current_term; lead_id = i }) ls)
      (ys : List (LogEntry C)) where
    pub grow_term :
        IsPrefix (led rf'.current_term) ys
        → IsCoherent (update led rf'.current_term ys) ys
        → IsSegment rf'.last_snapshot_index rf'.last_snapshot_term rf'.logs ys
        → rf'.last_snapshot_index + length rf'.logs ≡ length ys
        → IsKept gob (update led rf'.current_term ys) rf'.persister
        → ((j : ℕ)
            → (i == j) ≡ false
            → (s.cluster.servers j).role ≡ leader
            → (s.cluster.servers j).current_term ≢ rf'.current_term)
        → LogInv gob (update led rf'.current_term ys) (after s i rf' bs cs ls)
    grow_term prefix coh seg full k others =
        let term = rf'.current_term in
        let led' = update led term ys in
        let grow = update_grows led term ys prefix in
        let here_it_is : led' term ≡ ys = update_at led term ys in
        grown-LogInv gob inv i rf' bs cs ls more led' grow
          (update-IsCoherent led term ys prefix inv.coherent coh)
          (record { from_term = term; segment = rw here_it_is seg }) k
          (λ _. rw here_it_is (seg, full))
          (λ j off l.
            rw (update_off led term ys (s.cluster.servers j).current_term (others j off l))
              (inv.whole j l))
          (λ t. elim (Bool-cases (term == t)) [
            | inl e ↦
                let same = ==→eq term t e in
                inr (
                  inr
                    (i, subst (λ u. Memᴰ (record { lead_term = u; lead_id = i }) ls) same crowned))
            | inr e ↦ elim (inv.led_ok t) [
              | inl z ↦ inl z
              | inr (inl z) ↦ inr (inl (rw e z))
              | inr (inr (j, m)) ↦ inr (inr (j, more (record { lead_term = t; lead_id = j }) m))
            ]
          ])

module _ {C : Type 0} (gob : Labgob (Saved C)) {n : ℕ} {led : ℕ → List (LogEntry C)}
    {s : LogCluster C} (ok : ClusterInv gob n s.cluster) (inv : LogInv gob led s) where
  -- Two peers that lead in one term are the same.
  one_leader :
      (i j : ℕ)
      → (s.cluster.servers i).role ≡ leader
      → (s.cluster.servers j).role ≡ leader
      → (s.cluster.servers i).current_term ≡ (s.cluster.servers j).current_term
      → i ≡ j
  one_leader i j a b e =
      leads_agree gob (record { lead_term = (s.cluster.servers i).current_term; lead_id = i })
        (record { lead_term = (s.cluster.servers j).current_term; lead_id = j }) ok
        (ok.roles_ok i a) (ok.roles_ok j b) e

  pub start-LogInv :
      (command : C) (i : ℕ) (rf' : Raft C) {answer : Option (ℕ × ℕ)}
      → start command (s.cluster.servers i) ≡ some (rf', answer)
      → (led' : ℕ → List (LogEntry C)) × LogInv gob led'
          (after s i rf' s.cluster.ballots s.cluster.campaigns s.cluster.leads)
  start-LogInv command i rf' h =
      let rf = s.cluster.servers i in
      elim (start_log gob command rf h) [
        | inl still ↦ (
          led,
          calm-LogInv gob inv i rf' s.cluster.ballots s.cluster.campaigns s.cluster.leads (λ l m. m)
              (start-IsCalm gob command rf h) still,
        )
        | inr (role, logs, index, term, disk, ct) ↦
            let e : LogEntry C = record { term = rf.current_term; command = some command } in
            let xs = led rf'.current_term in
            let ys = xs ++ e ∷ [] in
            let led' = update led rf'.current_term ys in
            let prefix = IsPrefix-append xs (e ∷ []) in
            let (seg, full) = inv.whole i role in
            let seg' : IsSegment rf.last_snapshot_index rf.last_snapshot_term rf.logs xs =
              rw ct seg in
            let full' : rf.last_snapshot_index + length rf.logs ≡ length xs = rw ct full in
            (
              led',
              grow_term gob inv i rf' s.cluster.ballots s.cluster.campaigns s.cluster.leads
                  (λ l m. m) (rw ct (ok.roles_ok i role)) ys prefix
                  (append-IsCoherent led rf'.current_term e (sym ct)
                    (inv.coherent rf'.current_term))
                  (rw (logs, index, term)
                    (snoc-IsSegment rf.last_snapshot_index rf.last_snapshot_term rf.logs xs e seg'
                      full'))
                  (omega (
                    arith,
                    ap length logs,
                    index,
                    full',
                    length-append rf.logs (e ∷ []),
                    length-append xs (e ∷ []),
                  ))
                  (IsKept-same gob led' rf.persister rf'.persister (ap (λ p. p.raftstate) disk) (
                    IsKept-more gob led led' rf.persister
                      (update_grows led rf'.current_term ys prefix) (inv.kept i)))
                  (λ j off l same. cc (off, eq→== i j (one_leader i j role l (sym ct ∙ sym same)))),
            )
      ]
