-- ===== src/Cluster/Logs/Account.antt =====
-- Every move keeps the logs accounted for.
use mathlib.Core.Path.{subst}
use major_assignments.Raft.Step.{stopped}
use major_assignments.Common.{ℕ, refl, sym, List, ◌∷◌}
use major_assignments.Cluster.{
  Cluster, ballot_of, cast, campaign_of, hear, Move, local, vote_asked, campaigned, counted,
}
use major_assignments.Cluster.Invariant.{ClusterInv}
use major_assignments.Cluster.Logs.{LogCluster, IsServed, IsFaithful}
use major_assignments.Cluster.Logs.Elect.{start-LogInv}
use major_assignments.Cluster.Logs.Invariant.{LogInv}
use major_assignments.Cluster.Logs.Keeps.{after, calm-LogInv}
use major_assignments.Cluster.Logs.Preserve.{
  quiet-LogInv, append_entries-LogInv, snapshot_to-LogInv, make-LogInv,
}
use major_assignments.Cluster.Logs.Still.{
  request_vote-IsStill, start_election-IsStill, count_vote-IsStill, on_vote_reply-IsStill,
  prepare_append-IsStill, finish_append-IsStill, finish_snapshot-IsStill, deliver-IsStill,
  kill-IsStill,
}
use major_assignments.Cluster.Logs.Win.{won_term, counted-LogInv}
use major_assignments.Cluster.Standing.{StandInv}
use major_assignments.Labgob.{Labgob}
use major_assignments.Raft.Discipline.Handlers.{
  request_vote-IsCalm, start_election-IsCalm, on_vote_reply-IsCalm, prepare_append-IsCalm,
  finish_append-IsCalm, finish_snapshot-IsCalm, deliver-IsCalm, kill-IsCalm, count_vote-Discipline,
}
use major_assignments.Raft.Persist.{Saved}
use major_assignments.Raft.Step.{
  Step, voted_reply, no_campaign, appended, prepared, replied, commanded, applied, snapshot_made,
  snapshot_installed, snapshot_received, snapshot_sent, restarted,
}
use major_assignments.Raft.Types.{LogEntry, Raft}

module _ {C : Type 0} (gob : Labgob (Saved C)) where
  -- Some chronicle of the leaders' logs accounts for the cluster.
  abbrev pub Accounted : LogCluster C → Type 0
  Accounted s = (led : ℕ → List (LogEntry C)) × LogInv gob led s

  Step-Accounted :
      {n : ℕ} (s : LogCluster C) {led : ℕ → List (LogEntry C)} (i : ℕ) (rf' : Raft C)
      (st : Step gob (s.cluster.servers i) rf')
      → ClusterInv gob n s.cluster
      → LogInv gob led s
      → IsServed s.messages st
      → Accounted (after s i rf' s.cluster.ballots s.cluster.campaigns s.cluster.leads)
  Step-Accounted s {led} i rf' (voted_reply args reply e) ok inv h =
      let rf = s.cluster.servers i in
      (
        led,
        quiet-LogInv gob inv i (on_vote_reply-IsCalm gob args reply rf e)
            (on_vote_reply-IsStill gob args reply rf e),
      )
  Step-Accounted s {led} i rf' (no_campaign e) ok inv h =
      let rf = s.cluster.servers i in
      (
        led,
        quiet-LogInv gob inv i (start_election-IsCalm gob rf e) (start_election-IsStill gob rf e),
      )
  Step-Accounted s {led} i rf' (appended args reply e) ok inv (m, h) =
      (led, append_entries-LogInv gob inv i args e m h)
  Step-Accounted s {led} i rf' (prepared p args e) ok inv h =
      let rf = s.cluster.servers i in
      (
        led,
        quiet-LogInv gob inv i (prepare_append-IsCalm gob p rf e)
            (prepare_append-IsStill gob p rf e),
      )
  Step-Accounted s {led} i rf' (replied p args reply f e) ok inv h =
      let rf = s.cluster.servers i in
      (
        led,
        quiet-LogInv gob inv i (finish_append-IsCalm gob p args reply rf e)
            (finish_append-IsStill gob p args reply rf e),
      )
  Step-Accounted s i rf' (commanded c a e) ok inv h = start-LogInv gob ok inv c i rf' e
  Step-Accounted s {led} i rf' (applied msg e) ok inv h =
      let rf = s.cluster.servers i in
      (
        led,
        quiet-LogInv gob inv i (rw e (deliver-IsCalm gob msg rf))
            (rw e (deliver-IsStill gob msg rf)),
      )
  Step-Accounted s {led} i rf' (snapshot_made k b e) ok inv h =
      (led, snapshot_to-LogInv gob inv i k b e)
  Step-Accounted s i rf' (snapshot_installed t k b f e) ok inv h = elim h [ ]
  Step-Accounted s i rf' (snapshot_received args reply q e) ok inv h = elim h [ ]
  Step-Accounted s {led} i rf' (snapshot_sent to args reply e) ok inv h =
      let rf = s.cluster.servers i in
      (
        led,
        quiet-LogInv gob inv i (finish_snapshot-IsCalm gob to args reply rf e)
            (finish_snapshot-IsStill gob to args reply rf e),
      )
  Step-Accounted s {led} i rf' (stopped e) ok inv h =
      let rf = s.cluster.servers i in
      (led, quiet-LogInv gob inv i (rw e (kill-IsCalm gob rf)) (rw e (kill-IsStill gob rf)))
  Step-Accounted s {led} i rf' (restarted entropy e) ok inv h =
      (led, make-LogInv gob inv i entropy e)

  pub Move-Accounted :
      {n : ℕ} (s : LogCluster C) {c' : Cluster C} (mv : Move gob n s.cluster c')
      → ClusterInv gob n s.cluster
      → ClusterInv gob n c'
      → StandInv gob s.cluster
      → IsFaithful s.messages mv
      → Accounted s
      → Accounted (record s { cluster = c' })
  Move-Accounted s (local i rf' lt st e) ok ok' posts h (led, inv) =
      subst (λ c. Accounted (record s { cluster = c })) (sym e) (Step-Accounted s i rf' st ok inv h)
  Move-Accounted s (vote_asked i args reply rf' lt st e) ok ok' posts h (led, inv) =
      subst (λ c. Accounted (record s { cluster = c })) (sym e)
        (
          led,
          calm-LogInv gob inv i rf' (cast reply.vote_granted (ballot_of i args) s.cluster.ballots)
              s.cluster.campaigns s.cluster.leads (λ l m. m)
              (request_vote-IsCalm gob args (s.cluster.servers i) st)
              (request_vote-IsStill gob args (s.cluster.servers i) st),
        )
  Move-Accounted s (campaigned i args rf' lt st e) ok ok' posts h (led, inv) =
      subst (λ c. Accounted (record s { cluster = c })) (sym e)
        (
          led,
          calm-LogInv gob inv i rf' (ballot_of i args ∷ s.cluster.ballots)
              (campaign_of i args ∷ s.cluster.campaigns) s.cluster.leads (λ l m. m)
              (start_election-IsCalm gob (s.cluster.servers i) st)
              (start_election-IsStill gob (s.cluster.servers i) st),
        )
  Move-Accounted {n} s (counted c v granted t' round rf' m own lt new b cand st e) ok ok' posts h
        (led, inv) =
      let rf = s.cluster.servers c.owner in
      subst (λ c. Accounted (record s { cluster = c })) (sym e)
        (counted-LogInv gob inv posts c.owner rf' (hear v granted t' c ∷ s.cluster.campaigns) cand
          (won_term gob c.args granted c.tally rf st)
          (count_vote-Discipline gob c.args granted c.tally rf st)
          (count_vote-IsStill gob c.args granted c.tally rf st) rf'.role refl
          (subst (ClusterInv gob n) e ok'))
