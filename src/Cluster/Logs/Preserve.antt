-- ===== src/Cluster/Logs/Preserve.antt =====
-- Every move keeps the invariant of the logs.
use major_assignments.Common.{
  Bool-cases, length, length-drop, ℕ, suc, ◌+◌, ◌-◌, ◌≡◌, refl, sym, ap, inl, inr, some, List, Memᴰ,
  arith,
}
use major_assignments.Cluster.Logs.{LogCluster}
use major_assignments.Cluster.Logs.Accept.{append_entries-IsSegment}
use major_assignments.Cluster.Logs.Change.{trim-IsSegment}
use major_assignments.Cluster.Logs.Invariant.{
  IsTraced, IsKept, IsWhole, LogInv, make_log, IsKept-saved, IsKept-same, make-IsTraced,
}
use major_assignments.Cluster.Logs.Keeps.{after, peer-LogInv, calm-LogInv}
use major_assignments.Cluster.Logs.Segment.{IsSegment, some-lt}
use major_assignments.Cluster.Logs.Still.{IsStill, snapshot_log}
use major_assignments.Labgob.{Labgob}
use major_assignments.Raft.Append.{AppendEntriesArgs, AppendEntriesReply, append_entries}
use major_assignments.Raft.Append.Accepted.{rejected_same, accepted_same}
use major_assignments.Raft.Apply.{make}
use major_assignments.Raft.Discipline.{IsCalm}
use major_assignments.Raft.Discipline.Handlers.{append_entries-IsCalm, snapshot_to-IsCalm}
use major_assignments.Raft.Persist.{Saved}
use major_assignments.Raft.Persister.{copy}
use major_assignments.Raft.Snapshot.{snapshot_to}
use major_assignments.Raft.Types.{LogEntry, Raft}

module _ {C : Type 0} (gob : Labgob (Saved C)) {led : ℕ → List (LogEntry C)} {s : LogCluster C}
    (inv : LogInv gob led s) (i : ℕ) where
  -- The state after a step of the peer that no one takes note of.
  abbrev pub moved_to : Raft C → LogCluster C
  moved_to rf' = after s i rf' s.cluster.ballots s.cluster.campaigns s.cluster.leads

  pub quiet-LogInv :
      {rf' : Raft C}
      → IsCalm gob (s.cluster.servers i) rf'
      → IsStill (s.cluster.servers i) rf'
      → LogInv gob led (moved_to rf')
  quiet-LogInv {rf'} d t =
      calm-LogInv gob inv i rf' s.cluster.ballots s.cluster.campaigns s.cluster.leads (λ l m. m) d t

  local-LogInv :
      (rf' : Raft C)
      → IsTraced led rf'
      → IsKept gob led rf'.persister
      → IsWhole led rf'
      → LogInv gob led (moved_to rf')
  local-LogInv rf' t k w =
      peer-LogInv gob inv i rf' s.cluster.ballots s.cluster.campaigns s.cluster.leads (λ l m. m) t k
        w

  pub append_entries-LogInv :
      (args : AppendEntriesArgs C) {rf' : Raft C} {reply : AppendEntriesReply}
      → append_entries gob args (s.cluster.servers i) ≡ some (rf', reply)
      → Memᴰ args s.messages
      → (args.prev_log_index ≡ (s.cluster.servers i).last_snapshot_index
          → args.prev_log_term ≡ (s.cluster.servers i).last_snapshot_term)
      → LogInv gob led (moved_to rf')
  append_entries-LogInv args {rf'} {reply} h mem snap =
      let rf = s.cluster.servers i in
      elim (Bool-cases reply.success) [
        | inl g ↦
            let (_, role, disk, _) = accepted_same gob args rf h g in
            let own = inv.traced i in
            let t : IsTraced led rf' = record {
              from_term = args.term;
              segment =
                  append_entries-IsSegment gob led (led own.from_term) (led args.term) args rf h g
                    snap (inv.coherent own.from_term) (inv.coherent args.term) own.segment
                    (inv.sent_ok args mem).1;
            } in
            local-LogInv rf' t (IsKept-saved gob led rf' disk t) (λ l. absurd (cc (l, role)))
        | inr g ↦ quiet-LogInv (append_entries-IsCalm gob args rf h) (rejected_same gob args rf h g)
      ]

  pub snapshot_to-LogInv :
      (index : ℕ) (bytes : List ℕ) {rf' : Raft C}
      → snapshot_to gob index bytes (s.cluster.servers i) ≡ some rf'
      → LogInv gob led (moved_to rf')
  snapshot_to-LogInv index bytes {rf'} h =
      let rf = s.cluster.servers i in
      let calm = snapshot_to-IsCalm gob index bytes rf h in
      elim (snapshot_log gob index bytes rf h) [
        | inl e ↦ quiet-LogInv calm (rw e (refl, refl, refl))
        | inr (lt, at, disk, e, p, term, logs) ↦
            let k = index - rf.last_snapshot_index in
            let same : rf.last_snapshot_index + k ≡ rf'.last_snapshot_index = omega (arith, at) in
            let cut =
              λ (whole : List (LogEntry C))
                  (seg : IsSegment rf.last_snapshot_index rf.last_snapshot_term rf.logs whole).
                trim-IsSegment rf.last_snapshot_index rf.last_snapshot_term rf.logs whole k e seg
                  p in
            let own = inv.traced i in
            let t : IsTraced led rf' = record {
              from_term = own.from_term;
              segment = rw (logs, term, sym same) (cut (led own.from_term) own.segment);
            } in
            local-LogInv rf' t (IsKept-saved gob led rf' disk t) (λ l.
              let (role, ct) = calm.no_new_leader l in
              let (seg, full) = inv.whole i role in
              (
                rw (ct, logs, term, sym same) (cut (led rf.current_term) seg),
                rw ct (
                    omega (
                      arith,
                      ap length logs,
                      length-drop (suc k) rf.logs,
                      same,
                      full,
                      some-lt rf.logs k p,
                    )),
              ))
      ]

  pub make-LogInv :
      (entropy : ℕ → ℕ) {rf' : Raft C}
      → let rf = s.cluster.servers i in
        make gob rf.peers rf.me (copy rf.persister) entropy ≡ some rf'
        → LogInv gob led (moved_to rf')
  make-LogInv entropy {rf'} h =
      let rf = s.cluster.servers i in
      let (_, disk, role) = make_log gob rf.peers rf.me rf.persister entropy h in
      local-LogInv rf' (make-IsTraced gob led rf.peers rf.me rf.persister entropy h (inv.kept i))
        (IsKept-same gob led rf.persister rf'.persister disk (inv.kept i))
        (λ l. absurd (cc (l, role)))
