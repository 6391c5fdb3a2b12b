-- ===== src/Cluster/Logs/Reached.antt =====
-- What holds of the logs of every cluster that is reached.
use mathlib.Core.Path.{subst}
use major_assignments.Common.{
  ℕ, zero, suc, ◌≡◌, refl, sym, ◌∙◌, ◌⊎◌, inl, inr, none, some, List, [], ◌∷◌, Memᴰ, arith,
}
use major_assignments.Cluster.{update, Move, local}
use major_assignments.Cluster.Invariant.{ClusterInv}
use major_assignments.Cluster.Logs.{
  LogCluster, LogMove, moved, sent, LogReach, at_start, and_then, IsLogInitial,
}
use major_assignments.Cluster.Logs.Account.{Accounted, Move-Accounted}
use major_assignments.Cluster.Logs.Change.{prepared_by, prepared-IsCarried}
use major_assignments.Cluster.Logs.Invariant.{
  stored_log, IsKept, LogInv, make_log, IsKept-same, make-IsTraced,
}
use major_assignments.Cluster.Logs.Preserve.{quiet-LogInv}
use major_assignments.Cluster.Logs.Segment.{IsCoherent}
use major_assignments.Cluster.Logs.Still.{prepare_append-IsStill}
use major_assignments.Cluster.Safety.{Move-ClusterInv, initial-ClusterInv}
use major_assignments.Cluster.Standing.{StandInv, Move-StandInv, initial-StandInv}
use major_assignments.Labgob.{Labgob}
use major_assignments.Raft.Append.{AppendEntriesArgs}
use major_assignments.Raft.Discipline.Handlers.{prepare_append-IsCalm}
use major_assignments.Raft.Persist.{Saved}
use major_assignments.Raft.Persister.{make_persister}
use major_assignments.Raft.Send.{prepare_append}
use major_assignments.Raft.Send.Replication.{made_of}
use major_assignments.Raft.Step.{prepared}
use major_assignments.Raft.Types.{LogEntry, Raft}

module _ {C : Type 0} (gob : Labgob (Saved C)) where
  -- What holds of every cluster that is reached.
  pub record ReachedInv (n : ℕ) (s : LogCluster C) : Type 0 where
    pub cluster_ok : ClusterInv gob n s.cluster
    pub stands : StandInv gob s.cluster
    pub accounted : Accounted gob s

  sent-LogInv :
      {n : ℕ} {s : LogCluster C} {led : ℕ → List (LogEntry C)} (i peer_id : ℕ)
      {args : AppendEntriesArgs C} {rf' : Raft C}
      → prepare_append peer_id (s.cluster.servers i) ≡ some (rf', some args)
      → ClusterInv gob n s.cluster
      → LogInv gob led s
      → LogInv gob led (record {
        cluster = record s.cluster { servers = update s.cluster.servers i rf' };
        messages = args ∷ s.messages;
      })
  sent-LogInv {s} {led} i peer_id {args} {rf'} h ok inv =
      let rf = s.cluster.servers i in
      let (l, e, _, _, _, _) = made_of peer_id rf h in
      let (_, from, ct, role) = prepared_by peer_id rf h e in
      let quiet =
        quiet-LogInv gob inv i (prepare_append-IsCalm gob peer_id rf h)
          (prepare_append-IsStill gob peer_id rf h) in
      let (seg, full) = inv.whole i role in
      record {
        coherent = quiet.coherent;
        traced = quiet.traced;
        kept = quiet.kept;
        whole = quiet.whole;
        sent_ok = λ m mem. elim mem [
          | Memᴰ.head p ↦ rw p (
            rw (ct, from ∙ ok.me_ok i) (ok.roles_ok i role),
            prepared-IsCarried peer_id rf (led args.term) h (rw ct seg) (rw ct full),
          )
          | Memᴰ.tail q ↦ quiet.sent_ok m q
        ];
        led_ok = quiet.led_ok;
      }

  LogMove-ReachedInv :
      {n : ℕ} {s s' : LogCluster C} → LogMove gob n s s' → ReachedInv n s → ReachedInv n s'
  LogMove-ReachedInv {n} {s} (moved c' mv h e) inv =
      let ok = Move-ClusterInv gob mv inv.cluster_ok in
      subst (ReachedInv n) (sym e) (record {
        cluster_ok = ok;
        stands = Move-StandInv gob mv inv.cluster_ok inv.stands;
        accounted = Move-Accounted gob s mv inv.cluster_ok ok inv.stands h inv.accounted;
      })
  LogMove-ReachedInv {n} {s} (sent i peer_id args rf' lt h e) inv =
      let mv : Move gob n s.cluster
          (record s.cluster { servers = update s.cluster.servers i rf' }) =
        local i rf' lt (prepared peer_id (some args) h) refl in
      let (led, logs) = inv.accounted in
      subst (ReachedInv n) (sym e) (record {
        cluster_ok = Move-ClusterInv gob mv inv.cluster_ok;
        stands = Move-StandInv gob mv inv.cluster_ok inv.stands;
        accounted = (led, sent-LogInv i peer_id h inv.cluster_ok logs);
      })

  -- Before any election there is the marker alone.
  abbrev first_led : ℕ → List (LogEntry C)
  first_led zero = record { term = 0; command = none } ∷ []
  first_led (suc t) = []

  first-IsCoherent : (t : ℕ) → IsCoherent first_led (first_led t)
  first-IsCoherent zero zero e p j le = let z : e.term ≡ 0 = ground arith in rw z refl
  first-IsCoherent zero (suc i) e p j le = absurd (cc p)
  first-IsCoherent (suc t) i e p j le = absurd (cc p)

  first-IsKept : IsKept gob first_led make_persister
  unfolding stored_log
  first-IsKept = record {
    kept_index = 0;
    kept_term = 0;
    kept_logs = first_led 0;
    kept_read = refl;
    kept_traced = record {
      from_term = 0;
      segment = record {
        nonempty = omega arith;
        fits = omega arith;
        entries_ok = λ k lo hi. absurd (omega arith);
        head_term = refl;
        whole_term = refl;
      };
    };
  }

  initial-LogInv : {n : ℕ} {s : LogCluster C} → IsLogInitial gob n s → LogInv gob first_led s
  initial-LogInv {n} {s} init = record {
    coherent = first-IsCoherent;
    traced = λ i.
        let (entropy, e) = init.cluster_ok.booted i in
        make-IsTraced gob first_led n i make_persister entropy e first-IsKept;
    kept = λ i.
        let (entropy, e) = init.cluster_ok.booted i in
        let (_, disk, _) = make_log gob n i make_persister entropy e in
        IsKept-same gob first_led make_persister (s.cluster.servers i).persister disk first-IsKept;
    whole = λ i l.
        let (entropy, e) = init.cluster_ok.booted i in
        let (_, _, role) = make_log gob n i make_persister entropy e in absurd (cc (l, role));
    sent_ok = λ m mem. elim (subst (Memᴰ m) init.no_messages mem) [ ];
    led_ok = led_first;
  }
    where
      led_first :
          (t : ℕ)
          → (t ≡ 0)
            ⊎ (first_led t ≡ [])
            ⊎ ((j : ℕ) × Memᴰ (record { lead_term = t; lead_id = j }) s.cluster.leads)
      led_first zero = inl refl
      led_first (suc t) = inr (inl refl)

  pub LogReach-ReachedInv :
      {n : ℕ} {s t : LogCluster C} → IsLogInitial gob n s → LogReach gob n s t → ReachedInv n t
  LogReach-ReachedInv init at_start = record {
    cluster_ok = initial-ClusterInv gob init.cluster_ok;
    stands = initial-StandInv gob init.cluster_ok;
    accounted = (first_led, initial-LogInv init);
  }
  LogReach-ReachedInv init (and_then r m) = LogMove-ReachedInv m (LogReach-ReachedInv init r)
