-- ===== src/Raft/Apply/Restart.antt =====
-- What a peer finds after a crash.
use major_assignments.Common.{ge→ltb, Returns, length-replicate, ℕ, ◌≡◌, refl, Option, List, arith}
use major_assignments.Labgob.Stream.{Stream}
use major_assignments.Raft.Apply.{make}
use major_assignments.Raft.Persist.{saved, persist}
use major_assignments.Raft.Persist.Sequence.{saved_gob}
use major_assignments.Raft.Persister.{copy}
use major_assignments.Raft.Timers.{heart_beat_interval}
use major_assignments.Raft.Types.{follower, LogEntry, Raft}
use major_assignments.Raft.WellFormed.{IsWellFormed}

module _ {C : Type 0} (ints : Stream ℕ) (vote_ints : Stream (Option ℕ))
    (entries : Stream (List (LogEntry C))) where
  -- With the values encoded one by one, and decoded in the order of `readPersist`, nothing that is
  -- persisted is lost in a crash right after `persist`: `Make` with a copy of the storage returns, and
  -- the peer has its term, its vote, its commit index, its log, the index and the term of its snapshot
  -- and the snapshot's bytes again. It is a follower that has applied nothing, and if the peer was
  -- well-formed, the restarted one is.
  pub make-persist :
      (rf : Raft C) (entropy : ℕ → ℕ)
      → IsWellFormed rf
      → let gob = saved_gob ints vote_ints entries in
        Returns (make gob rf.peers rf.me (copy (persist gob rf).persister) entropy) (λ rf'.
          (rf'.current_term ≡ rf.current_term)
          × (rf'.voted_for ≡ rf.voted_for)
          × (rf'.commit_index ≡ rf.commit_index)
          × (rf'.logs ≡ rf.logs)
          × (rf'.last_snapshot_index ≡ rf.last_snapshot_index)
          × (rf'.last_snapshot_term ≡ rf.last_snapshot_term)
          × (rf'.persister.snapshot ≡ rf.persister.snapshot)
          × (rf'.role ≡ follower)
          × (rf'.last_applied ≡ 0)
          × IsWellFormed rf')
  unfolding make persist
  make-persist rf entropy w =
      let gob = saved_gob ints vote_ints entries in
      rw (ge→ltb _ _ (gob.encode_nonempty (saved rf)), gob.decode-encode (saved rf))
        (
          refl,
          refl,
          refl,
          refl,
          refl,
          refl,
          refl,
          refl,
          refl,
          record {
            has_marker = w.has_marker;
            nexts = length-replicate rf.peers 0;
            matches = length-replicate rf.peers 0;
            timers = length-replicate rf.peers heart_beat_interval;
            me_in_range = w.me_in_range;
            timeout_low = omega arith;
            timeout_high = omega arith;
          },
        )
