-- ===== src/Cluster/Logs/Matching.antt =====
-- Log matching of the cluster.
use major_assignments.Common.{
  get_elem?, ℕ, ◌+◌, ◌-◌, ◌≤◌, ◌<◌, ◌≡◌, sym, ap, ◌∙◌, some, List, arith,
}
use major_assignments.Cluster.Logs.{LogCluster, LogReach, IsLogInitial}
use major_assignments.Cluster.Logs.Change.{segment_term}
use major_assignments.Cluster.Logs.Reached.{LogReach-ReachedInv}
use major_assignments.Cluster.Logs.Segment.{
  term_of, IsSegment, some-lt, term_of-some, coherent_agree,
}
use major_assignments.Labgob.{Labgob}
use major_assignments.Raft.Append.Accepted.{stored_at}
use major_assignments.Raft.Log.{last_log_index, entry_at}
use major_assignments.Raft.Persist.{Saved}
use major_assignments.Raft.Snapshot.Trim.{entry_at-get_elem?}
use major_assignments.Raft.Types.{leader, LogEntry, Raft}

module _ {C : Type 0} (gob : Labgob (Saved C)) where
  -- An entry behind the snapshot is the entry of the whole log.
  traced_entry :
      (rf : Raft C) (whole : List (LogEntry C)) (m : ℕ)
      → IsSegment rf.last_snapshot_index rf.last_snapshot_term rf.logs whole
      → rf.last_snapshot_index < m
      → m ≤ last_log_index rf
      → entry_at m rf ≡ get_elem? whole m
  traced_entry rf whole m seg lo hi =
      let k = m - rf.last_snapshot_index in
      let at : rf.last_snapshot_index + k ≡ m = omega arith in
      entry_at-get_elem? m k rf (omega arith)
      ∙ seg.entries_ok k (omega arith) (omega (arith, seg.nonempty))
      ∙ ap (get_elem? whole) at

  traced_term :
      (rf : Raft C) (whole : List (LogEntry C)) (k : ℕ) {e : LogEntry C}
      → IsSegment rf.last_snapshot_index rf.last_snapshot_term rf.logs whole
      → entry_at k rf ≡ some e
      → (k ≤ last_log_index rf) × (term_of (get_elem? whole k) ≡ some e.term)
  traced_term rf whole k {e} seg p =
      let (lo, q) = stored_at k rf p in
      let j = k - rf.last_snapshot_index in
      let at : rf.last_snapshot_index + j ≡ k = omega arith in
      (
        omega (arith, some-lt rf.logs j q),
        ap (λ x. term_of (get_elem? whole x)) (sym at)
            ∙ segment_term rf.last_snapshot_index rf.last_snapshot_term rf.logs whole j e seg q,
      )

  -- Log matching: in every cluster that is reached from the start by any interleaving of the
  -- handlers, of elections, commands, the services' own snapshots, crashes and restarts, where a vote
  -- is counted only if it was granted, once for each voter, where `AppendEntries` is given messages
  -- that a leader has prepared, in any order and as often as the network likes, where a message that
  -- begins right behind its receiver's snapshot has the snapshot's term, and where no snapshot of
  -- another peer is installed: if two peers have entries of one term at one index, they have the
  -- same entry at that index and at every index below it that lies behind both of their snapshots.
  pub log_matching :
      {n : ℕ} {s t : LogCluster C} (i j k m : ℕ) {e f : LogEntry C}
      → IsLogInitial gob n s
      → LogReach gob n s t
      → entry_at k (t.cluster.servers i) ≡ some e
      → entry_at k (t.cluster.servers j) ≡ some f
      → e.term ≡ f.term
      → m ≤ k
      → (t.cluster.servers i).last_snapshot_index < m
      → (t.cluster.servers j).last_snapshot_index < m
      → entry_at m (t.cluster.servers i) ≡ entry_at m (t.cluster.servers j)
  log_matching {t} i j k m init r p q same le lo lo' =
      let (led, inv) = (LogReach-ReachedInv gob init r).accounted in
      let a = t.cluster.servers i in
      let b = t.cluster.servers j in
      let u = inv.traced i in
      let v = inv.traced j in
      let (hi, x) = traced_term a (led u.from_term) k u.segment p in
      let (hi', y) = traced_term b (led v.from_term) k v.segment q in
      traced_entry a (led u.from_term) m u.segment lo (omega arith)
      ∙ coherent_agree led (led u.from_term) (led v.from_term) k _ (inv.coherent u.from_term)
          (inv.coherent v.from_term) (x ∙ ap some same) y m le
      ∙ sym (traced_entry b (led v.from_term) m v.segment lo' (omega arith))

  -- In a cluster that is reached as for `log_matching`, a leader has every entry of its term: if any peer has one,
  -- behind its snapshot and the leader's, then the leader has the same entry at the same index, and
  -- the peer has the leader's entries at every index below it that lies behind both snapshots.
  pub leader_has_its_term :
      {n : ℕ} {s t : LogCluster C} (i j k m : ℕ) {e : LogEntry C}
      → IsLogInitial gob n s
      → LogReach gob n s t
      → (t.cluster.servers j).role ≡ leader
      → entry_at k (t.cluster.servers i) ≡ some e
      → e.term ≡ (t.cluster.servers j).current_term
      → (t.cluster.servers i).last_snapshot_index < m
      → (t.cluster.servers j).last_snapshot_index < m
      → m ≤ k
      → (entry_at m (t.cluster.servers j) ≡ entry_at m (t.cluster.servers i))
        × (k ≤ last_log_index (t.cluster.servers j))
  leader_has_its_term {t} i j k m {e} init r l p same lo lo' le =
      let (led, inv) = (LogReach-ReachedInv gob init r).accounted in
      let a = t.cluster.servers i in
      let b = t.cluster.servers j in
      let u = inv.traced i in
      let (seg, full) = inv.whole j l in
      let (hi, x) = traced_term a (led u.from_term) k u.segment p in
      let (f, q, w) = term_of-some (get_elem? (led u.from_term) k) x in
      let agree : (h : ℕ)
          → h ≤ k
          → get_elem? (led u.from_term) h ≡ get_elem? (led b.current_term) h =
        λ h lt. inv.coherent u.from_term k f q h lt ∙ ap (λ c. get_elem? (led c) h) (w ∙ same) in
      let bound = some-lt (led b.current_term) k (sym (agree k (omega arith)) ∙ q) in
      (
        traced_entry b (led b.current_term) m seg lo' (omega (arith, full, bound))
            ∙ sym (agree m le)
            ∙ sym (traced_entry a (led u.from_term) m u.segment lo (omega arith)),
        omega (arith, full, bound),
      )
