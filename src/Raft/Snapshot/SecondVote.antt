-- ===== src/Raft/Snapshot/SecondVote.antt =====
-- `InstallSnapshot` clears the vote of a peer that is no follower also when the term does not change.
use major_assignments.Common.{
  ◌>>=◌, Returns, length, get_elem?, ◌-◌, ◌≤◌, ◌≡◌, ◌≢◌, true, false, some, arith,
}
use major_assignments.Labgob.{Labgob}
use major_assignments.Raft.Log.{last_log_index}
use major_assignments.Raft.Persist.{Saved}
use major_assignments.Raft.Snapshot.{InstallSnapshotArgs, install_snapshot}
use major_assignments.Raft.Types.{follower, LogEntry, Raft}
use major_assignments.Raft.Vote.{RequestVoteArgs, is_newer, request_vote}

module _ {C : Type 0} (gob : Labgob (Saved C)) where
  -- A candidate or leader that has voted for itself and then receives a snapshot of its own term,
  -- which ends no later than the one it has, grants another candidate of that term, whose log is
  -- not older, a second vote in the term.
  pub install_snapshot_second_vote :
      (snap : InstallSnapshotArgs) (args : RequestVoteArgs) (rf : Raft C) (e : LogEntry C)
      → rf.role ≢ follower
      → rf.voted_for ≡ some rf.me
      → snap.term ≡ rf.current_term
      → args.term ≡ rf.current_term
      → snap.last_included_index ≤ rf.last_snapshot_index
      → get_elem? rf.logs (length rf.logs - 1) ≡ some e
      → is_newer e.term (last_log_index rf) args ≡ false
      → Returns (install_snapshot gob snap rf >>= λ r. request_vote gob args r.0) (λ r.
        (r.1.vote_granted ≡ true)
        × (r.0.voted_for ≡ some args.candidate_id)
        × (r.0.current_term ≡ rf.current_term))
  unfolding install_snapshot request_vote
  install_snapshot_second_vote snap args rf e role vote t t' old last newer = ground arith
