-- ===== src/Raft/WellFormed/Snapshots.antt =====
-- The snapshot handlers return, and keep the shape; so does a restart.
use major_assignments.Common.{
  Returns, set?-lt, length, length-drop, get_elem?-lt, ℕ, ◌+◌, ◌-◌, ◌≤◌, ◌<◌, ◌≡◌, List, arith,
}
use major_assignments.Labgob.{Labgob}
use major_assignments.Raft.Persist.{Saved}
use major_assignments.Raft.Snapshot.{
  InstallSnapshotArgs, InstallSnapshotReply, raise, trim_log, cond_install_snapshot, adopt_term,
  install_snapshot, finish_snapshot,
}
use major_assignments.Raft.Types.{Raft}
use major_assignments.Raft.WellFormed.{IsWellFormed, last_entry}

raise-Returns :
    (i v : ℕ) (xs : List ℕ) → i < length xs → Returns (raise i v xs) (λ ys. length ys ≡ length xs)
unfolding raise
raise-Returns i v xs h = ground (arith, get_elem?-lt xs i h, set?-lt xs i v h)

module _ {C : Type 0} where
  trim_log-Returns :
      (term index : ℕ) (rf : Raft C)
      → 0 < length rf.logs
      → rf.last_snapshot_index ≤ index
      → Returns (trim_log term index rf) (λ es. 0 < length es)
  unfolding trim_log
  trim_log-Returns term index rf h le =
      ground (arith, last_entry rf h, length-drop (index - rf.last_snapshot_index) rf.logs)

module _ {C : Type 0} (gob : Labgob (Saved C)) where
  pub install_snapshot-IsWellFormed :
      (args : InstallSnapshotArgs) (rf : Raft C)
      → IsWellFormed rf
      → Returns (install_snapshot gob args rf) (λ r. IsWellFormed r.0)
  unfolding install_snapshot adopt_term cond_install_snapshot
  install_snapshot-IsWellFormed args rf w =
      ground (arith, trim_log-Returns args.last_included_term args.last_included_index rf)

  pub finish_snapshot-IsWellFormed :
      (server : ℕ) (args : InstallSnapshotArgs) (reply : InstallSnapshotReply) (rf : Raft C)
      → IsWellFormed rf
      → server < rf.peers
      → Returns (finish_snapshot gob server args reply rf) IsWellFormed
  unfolding finish_snapshot
  finish_snapshot-IsWellFormed server args reply rf w h = ground (
    arith,
    raise-Returns server args.last_included_index rf.match_index,
    raise-Returns server (args.last_included_index + 1) rf.next_index,
  )
