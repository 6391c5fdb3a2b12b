-- ===== src/Lab3a/Append/Heartbeat.antt =====
-- An empty message cuts the log.
use major_assignments.Common.{Returns, length, take, ◌+◌, ◌≤◌, ◌<◌, ◌≡◌, false, [], arith}
use major_assignments.Lab3a.Append.{append_entries, HeartBeatArgs}
use major_assignments.Lab3a.Append.Matching.{last_log_info_lem}
use major_assignments.Lab3a.Log.{IsIndexed}
use major_assignments.Lab3a.Persist.{Saved}
use major_assignments.Lab3a.Types.{Raft}
use major_assignments.Labgob.{Labgob}

module _ {C : Type 0} (gob : Labgob (Saved C)) where
  -- A message without entries, of a term that is not behind, cuts the log of a follower behind its
  -- `PrevLogIndex`, whatever the follower has committed: the commit index stays, and is outside of the
  -- log if it was above `PrevLogIndex`.
  pub heartbeat_truncates :
      (args : HeartBeatArgs C) (rf : Raft C)
      → IsIndexed rf
      → args.entries ≡ []
      → rf.term ≤ args.term
      → args.prev_log_index + 1 < length rf.log_entries
      → Returns (append_entries gob args rf) (λ r.
        (r.0.log_entries ≡ take (args.prev_log_index + 1) rf.log_entries)
        × (r.0.commit_index ≡ rf.commit_index)
        × (r.1.success ≡ false))
  unfolding append_entries
  heartbeat_truncates args rf w empty newer longer =
      let (e, p, q) = last_log_info_lem rf w in ground (arith, q)
