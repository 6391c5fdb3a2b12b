-- ===== src/Cluster/Standing.antt =====
-- Who stands for election: no peer stands again in a term that it has led.
use mathlib.Core.Path.{subst}
use major_assignments.Raft.Step.{stopped}
use major_assignments.Common.{
  eq→==, ℕ, ◌≤◌, ◌<◌, ◌≡◌, refl, sym, ◌≢◌, ◌⊎◌, Bool, Option, some, Memᴰ, arith,
}
use major_assignments.Cluster.{
  Lead, Cluster, update, note_lead, Move, local, vote_asked, campaigned, counted, IsInitial,
}
use major_assignments.Cluster.Invariant.{ClusterInv}
use major_assignments.Cluster.Keeps.{update_all}
use major_assignments.Cluster.Safety.{booted_fresh}
use major_assignments.Labgob.{Labgob}
use major_assignments.Raft.Append.{append_entries}
use major_assignments.Raft.Apply.{start, deliver, make}
use major_assignments.Raft.Discipline.{Discipline}
use major_assignments.Raft.Discipline.Handlers.{
  request_vote-IsCalm, start_election-IsCalm, count_vote-Discipline,
}
use major_assignments.Raft.Election.{start_election, on_vote_reply, Tally, Round, count_vote}
use major_assignments.Raft.Persist.{Saved}
use major_assignments.Raft.Send.{prepare_append, finish_append}
use major_assignments.Raft.Snapshot.{
  cond_install_snapshot, snapshot_to, install_snapshot, finish_snapshot,
}
use major_assignments.Raft.Step.{
  Step, voted_reply, no_campaign, appended, prepared, replied, commanded, applied, snapshot_made,
  snapshot_installed, snapshot_received, snapshot_sent, restarted, Step-IsCalm,
}
use major_assignments.Raft.Timers.{kill}
use major_assignments.Raft.Types.{Role, follower, candidate, leader, Raft}
use major_assignments.Raft.Vote.{RequestVoteArgs, RequestVoteReply, request_vote}

module _ {C : Type 0} (gob : Labgob (Saved C)) where
  -- A peer that is a candidate after a step was one before it, or has come to a new term.
  abbrev pub StandsAnew : Raft C → Raft C → Type 0
  StandsAnew rf rf' =
      rf'.role ≡ candidate
      → (rf.current_term < rf'.current_term)
        ⊎ ((rf.role ≡ candidate) × (rf'.current_term ≡ rf.current_term))

  request_vote-StandsAnew :
      (args : RequestVoteArgs) (rf : Raft C) {rf' : Raft C} {reply : RequestVoteReply}
      → request_vote gob args rf ≡ some (rf', reply)
      → StandsAnew rf rf'
  unfolding request_vote
  request_vote-StandsAnew args rf h = ground arith

  start_election-StandsAnew :
      (rf : Raft C) {rf' : Raft C} {args : Option RequestVoteArgs}
      → start_election gob rf ≡ some (rf', args)
      → StandsAnew rf rf'
  unfolding start_election
  start_election-StandsAnew rf h = ground arith

  count_vote-StandsAnew :
      (args : RequestVoteArgs) (flag : Bool) (t : Tally) (rf : Raft C) {rf' : Raft C} {t' : Tally}
      {round : Round}
      → count_vote gob args flag t rf ≡ some (rf', t', round)
      → StandsAnew rf rf'
  unfolding count_vote
  count_vote-StandsAnew args flag t rf h = ground arith

  Step-StandsAnew : {rf rf' : Raft C} → Step gob rf rf' → StandsAnew rf rf'
  unfolding on_vote_reply append_entries prepare_append finish_append start deliver snapshot_to
      cond_install_snapshot install_snapshot finish_snapshot kill make
  Step-StandsAnew {rf} (voted_reply args reply e) = ground arith
  Step-StandsAnew {rf} (no_campaign e) = start_election-StandsAnew rf e
  Step-StandsAnew {rf} (appended args reply e) = ground arith
  Step-StandsAnew {rf} (prepared p args e) = ground arith
  Step-StandsAnew {rf} (replied p args reply f e) = ground arith
  Step-StandsAnew {rf} (commanded c a e) = ground arith
  Step-StandsAnew {rf} (applied msg e) = ground arith
  Step-StandsAnew {rf} (snapshot_made i b e) = ground arith
  Step-StandsAnew {rf} (snapshot_installed t i b f e) = ground arith
  Step-StandsAnew {rf} (snapshot_received args reply q e) = ground arith
  Step-StandsAnew {rf} (snapshot_sent s args reply e) = ground arith
  Step-StandsAnew {rf} (stopped e) = ground arith
  Step-StandsAnew {rf} (restarted entropy e) = ground arith

  -- The peer has led in the term and will not stand in it.
  abbrev pub IsSpent : Raft C → ℕ → Type 0
  IsSpent rf term = (term ≤ rf.current_term) × (term ≡ rf.current_term → rf.role ≢ candidate)

  pub record StandInv (s : Cluster C) : Type 0 where
    pub spent : (l : Lead) → Memᴰ l s.leads → IsSpent (s.servers l.lead_id) l.lead_term
    pub standing : (i : ℕ) → (s.servers i).role ≡ candidate → 0 < (s.servers i).current_term

  IsSpent-kept :
      {rf rf' : Raft C} (term : ℕ)
      → Discipline gob rf rf'
      → StandsAnew rf rf'
      → IsSpent rf term
      → IsSpent rf' term
  IsSpent-kept term d new h =
      (omega (arith, d.term_le), λ e c. ground (arith, d.term_le, new c, h.1))

  module _ {s : Cluster C} (inv : StandInv s) (i : ℕ) {rf' : Raft C}
      (d : Discipline gob (s.servers i) rf') (new : StandsAnew (s.servers i) rf') where
    leads-IsSpent :
        (l : Lead) → Memᴰ l s.leads → IsSpent (update s.servers i rf' l.lead_id) l.lead_term
    leads-IsSpent l m =
        update_all (λ j r. l.lead_id ≡ j → IsSpent r l.lead_term) s.servers i rf'
          (λ e. IsSpent-kept l.lead_term d new (rw e at (inv.spent l m)))
          (λ j e. rw e at (inv.spent l m)) l.lead_id refl

    standing_kept :
        (j : ℕ)
        → (update s.servers i rf' j).role ≡ candidate
        → 0 < (update s.servers i rf' j).current_term
    standing_kept =
        update_all (λ _ r. r.role ≡ candidate → 0 < r.current_term) s.servers i rf'
          (λ c. ground (arith, new c, inv.standing i, d.term_le)) inv.standing

    noted-IsSpent :
        (r : Role)
        → rf'.role ≡ r
        → (l : Lead) → Memᴰ l (note_lead i r rf'.current_term s.leads)
        → IsSpent (update s.servers i rf' l.lead_id) l.lead_term
    noted-IsSpent follower e l m = leads-IsSpent l m
    noted-IsSpent candidate e l m = leads-IsSpent l m
    noted-IsSpent leader e l (Memᴰ.tail m) = leads-IsSpent l m
    noted-IsSpent leader e l (Memᴰ.head p) =
        subst (λ k. IsSpent (update s.servers i rf' k.lead_id) k.lead_term) (sym p)
          (rw (eq→== i i refl) (omega arith, λ _ c. cc (e, c)))

  pub Move-StandInv :
      {n : ℕ} {s s' : Cluster C} → Move gob n s s' → ClusterInv gob n s → StandInv s → StandInv s'
  Move-StandInv (local i rf' lt st e) ok inv =
      let d = (Step-IsCalm gob st (ok.durable i)).discipline in
      subst StandInv (sym e) (record {
        spent = leads-IsSpent inv i d (Step-StandsAnew st);
        standing = standing_kept inv i d (Step-StandsAnew st);
      })
  Move-StandInv {s} (vote_asked i args reply rf' lt st e) ok inv =
      let d = (request_vote-IsCalm gob args (s.servers i) st).discipline in
      let new = request_vote-StandsAnew args (s.servers i) st in
      subst StandInv (sym e)
        (record { spent = leads-IsSpent inv i d new; standing = standing_kept inv i d new })
  Move-StandInv {s} (campaigned i args rf' lt st e) ok inv =
      let d = (start_election-IsCalm gob (s.servers i) st).discipline in
      let new = start_election-StandsAnew (s.servers i) st in
      subst StandInv (sym e)
        (record { spent = leads-IsSpent inv i d new; standing = standing_kept inv i d new })
  Move-StandInv {s} (counted c v granted t' round rf' m own lt new b cand st e) ok inv =
      let d = count_vote-Discipline gob c.args granted c.tally (s.servers c.owner) st in
      let fresh = count_vote-StandsAnew c.args granted c.tally (s.servers c.owner) st in
      subst StandInv (sym e) (record {
        spent = noted-IsSpent inv c.owner d fresh rf'.role refl;
        standing = standing_kept inv c.owner d fresh;
      })

  pub initial-StandInv : {n : ℕ} {s : Cluster C} → IsInitial gob n s → StandInv s
  initial-StandInv {n} {s} init = record {
    spent = λ l m. elim (subst (Memᴰ l) init.no_leads m) [ ];
    standing = λ i c. absurd (cc ((booted_fresh gob n i (init.booted i).0 (init.booted i).1).2, c));
  }
