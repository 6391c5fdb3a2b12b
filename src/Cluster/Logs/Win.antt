-- ===== src/Cluster/Logs/Win.antt =====
-- The round in which a candidate wins: the log of its term begins.
use major_assignments.Common.{
  eq→==, length, take, length-take, ℕ, ◌+◌, ◌≡◌, refl, sym, ap, inl, inr, Bool, some, List, [], ◌∷◌,
  Memᴰ, arith,
}
use major_assignments.Cluster.{Campaign, Lead, update, note_lead}
use major_assignments.Cluster.Invariant.{ClusterInv}
use major_assignments.Cluster.Logs.{LogCluster}
use major_assignments.Cluster.Logs.Elect.{update_at, grow_term}
use major_assignments.Cluster.Logs.Invariant.{IsTraced, LogInv, IsKept-step, IsKept-more}
use major_assignments.Cluster.Logs.Keeps.{after, still-LogInv}
use major_assignments.Cluster.Logs.Segment.{
  IsSegment, IsPrefix, IsPrefix-take, IsSegment-less, IsCoherent-more, IsCoherent-less,
  update_grows,
}
use major_assignments.Cluster.Logs.Still.{IsStill}
use major_assignments.Cluster.Safety.{leads_agree}
use major_assignments.Cluster.Standing.{StandInv}
use major_assignments.Labgob.{Labgob}
use major_assignments.Raft.Discipline.{Discipline}
use major_assignments.Raft.Election.{Tally, Round, count_vote}
use major_assignments.Raft.Persist.{Saved}
use major_assignments.Raft.Types.{Role, follower, candidate, leader, LogEntry, Raft}
use major_assignments.Raft.Vote.{RequestVoteArgs}

abbrev crown_of : {C : Type 0} → ℕ → Raft C → Lead
crown_of i rf = record { lead_term = rf.current_term; lead_id = i }

module _ {C : Type 0} (gob : Labgob (Saved C)) where
  pub won_term :
      (args : RequestVoteArgs) (flag : Bool) (t : Tally) (rf : Raft C) {rf' : Raft C} {t' : Tally}
      {round : Round}
      → count_vote gob args flag t rf ≡ some (rf', t', round)
      → rf'.current_term ≡ rf.current_term
  unfolding count_vote
  won_term args flag t rf h = ground arith

  module _ {n : ℕ} {led : ℕ → List (LogEntry C)} {s : LogCluster C} (inv : LogInv gob led s)
      (posts : StandInv gob s.cluster) (i : ℕ) (rf' : Raft C) (cs : List Campaign)
      (cand : (s.cluster.servers i).role ≡ candidate)
      (ct : rf'.current_term ≡ (s.cluster.servers i).current_term)
      (d : Discipline gob (s.cluster.servers i) rf')
      (still : IsStill (s.cluster.servers i) rf') where
    module _
        (ok : ClusterInv gob n
          (after s i rf' s.cluster.ballots cs (crown_of i rf' ∷ s.cluster.leads)).cluster) where
      -- A lead of the term before the round would be the peer's own.
      no_lead :
          (j : ℕ) → Memᴰ (record { lead_term = rf'.current_term; lead_id = j }) s.cluster.leads → ⊥
      no_lead j m =
          let l : Lead = record { lead_term = rf'.current_term; lead_id = j } in
          let same = leads_agree gob (crown_of i rf') l ok (Memᴰ.head refl) (Memᴰ.tail m) refl in
          (posts.spent l m).1 (rw (sym same) ct) (rw (sym same) cand)

      nothing_yet : led rf'.current_term ≡ []
      nothing_yet = elim (inv.led_ok rf'.current_term) [
        | inl z ↦ absurd (omega (arith, z, ct, posts.standing i cand))
        | inr (inl z) ↦ z
        | inr (inr (j, m)) ↦ absurd (no_lead j m)
      ]

      elected-LogInv :
          (led' : ℕ → List (LogEntry C)) × LogInv gob led'
            (after s i rf' s.cluster.ballots cs (crown_of i rf' ∷ s.cluster.leads))
      elected-LogInv =
          let rf = s.cluster.servers i in
          let (logs, index, term) = still in
          let own = inv.traced i in
          let whole = led own.from_term in
          let size = rf.last_snapshot_index + length rf.logs in
          let ys = take size whole in
          let led' = update led rf'.current_term ys in
          let cut = IsPrefix-take size whole in
          let full : size ≡ length ys = omega (arith, length-take size whole, own.segment.fits) in
          let seg =
            IsSegment-less rf.last_snapshot_index rf.last_snapshot_term rf.logs ys whole cut
              (omega arith) own.segment in
          let seg' : IsSegment rf'.last_snapshot_index rf'.last_snapshot_term rf'.logs ys =
            rw (logs, index, term) seg in
          let prefix : IsPrefix (led rf'.current_term) ys =
            rw nothing_yet (omega arith, λ k lt. absurd (omega arith)) in
          let grow = update_grows led rf'.current_term ys prefix in
          let at = update_at led rf'.current_term ys in
          let t : IsTraced led' rf' = record {
            from_term = rf'.current_term;
            segment = rw at seg';
          } in
          (
            led',
            grow_term gob inv i rf' s.cluster.ballots cs (crown_of i rf' ∷ s.cluster.leads)
                (λ l m. Memᴰ.tail m) (Memᴰ.head refl) ys prefix
                (IsCoherent-more led led' ys grow
                  (IsCoherent-less led ys whole cut (inv.coherent own.from_term)))
                seg' (omega (arith, ap length logs, index))
                (IsKept-step gob led' d t (IsKept-more gob led led' rf.persister grow (inv.kept i)))
                (λ j off l same.
                  let r = s.cluster.servers j in
                  let m : Memᴰ (crown_of j r) (crown_of i rf' ∷ s.cluster.leads) =
                    rw off at (ok.roles_ok j) l in
                  let e =
                    leads_agree gob (crown_of i rf') (crown_of j r) ok (Memᴰ.head refl) m
                      (sym same) in
                  cc (off, eq→== i j e)),
          )

    -- The round, won or not.
    pub counted-LogInv :
        (r : Role)
        → rf'.role ≡ r
        → ClusterInv gob n
            (after s i rf' s.cluster.ballots cs
              (note_lead i r rf'.current_term s.cluster.leads)).cluster
        → (led' : ℕ → List (LogEntry C)) × LogInv gob led'
            (after s i rf' s.cluster.ballots cs (note_lead i r rf'.current_term s.cluster.leads))
    counted-LogInv follower e ok = (
      led,
      still-LogInv gob inv i rf' s.cluster.ballots cs s.cluster.leads (λ l m. m) d still
          (λ l. absurd (cc (e, l))),
    )
    counted-LogInv candidate e ok = (
      led,
      still-LogInv gob inv i rf' s.cluster.ballots cs s.cluster.leads (λ l m. m) d still
          (λ l. absurd (cc (e, l))),
    )
    counted-LogInv leader e ok = elected-LogInv ok
