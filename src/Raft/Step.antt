-- ===== src/Raft/Step.antt =====
-- The steps of one peer that cast no vote and count none, each a stretch of code under the lock.
-- Arguments and replies are arbitrary: nothing is assumed of the network. A restart goes through
-- `Make` with a copy of the stable storage. A snapshot from the leader is left out where it meets a
-- peer of its own term that is no follower.
use major_assignments.Common.{ℕ, ◌≡◌, Bool, Option, none, some, List}
use major_assignments.Labgob.{Labgob}
use major_assignments.Raft.Append.{AppendEntriesArgs, AppendEntriesReply, append_entries}
use major_assignments.Raft.Apply.{start, deliver, make}
use major_assignments.Raft.Discipline.{IsCalm, IsDurable}
use major_assignments.Raft.Discipline.Durable.{make-IsCalm}
use major_assignments.Raft.Discipline.Handlers.{
  start_election-IsCalm, on_vote_reply-IsCalm, append_entries-IsCalm, prepare_append-IsCalm,
  finish_append-IsCalm, start-IsCalm, cond_install_snapshot-IsCalm, snapshot_to-IsCalm,
  finish_snapshot-IsCalm, install_snapshot-IsCalm, deliver-IsCalm, kill-IsCalm,
}
use major_assignments.Raft.Election.{start_election, on_vote_reply}
use major_assignments.Raft.Persist.{Saved}
use major_assignments.Raft.Persister.{copy}
use major_assignments.Raft.Send.{prepare_append, finish_append}
use major_assignments.Raft.Snapshot.{
  InstallSnapshotArgs, InstallSnapshotReply, cond_install_snapshot, snapshot_to, install_snapshot,
  finish_snapshot,
}
use major_assignments.Raft.Timers.{kill}
use major_assignments.Raft.Types.{follower, ApplyMsg, Raft}
use major_assignments.Raft.Vote.{RequestVoteArgs, RequestVoteReply}

-- The steps that neither grant nor count a vote. `snapshot_received` asks that an `InstallSnapshot` of
-- the peer's own term comes to a follower.
pub data Step {C : Type 0} (gob : Labgob (Saved C)) (rf rf' : Raft C) : Type 0 where
  voted_reply :
      (args : RequestVoteArgs) (reply : RequestVoteReply)
      → on_vote_reply gob args reply rf ≡ some rf'
      → Step gob rf rf'
  no_campaign : start_election gob rf ≡ some (rf', none) → Step gob rf rf'
  appended :
      (args : AppendEntriesArgs C) (reply : AppendEntriesReply)
      → append_entries gob args rf ≡ some (rf', reply)
      → Step gob rf rf'
  prepared :
      (peer_id : ℕ) (args : Option (AppendEntriesArgs C))
      → prepare_append peer_id rf ≡ some (rf', args)
      → Step gob rf rf'
  replied :
      (peer_id : ℕ) (args : AppendEntriesArgs C) (reply : AppendEntriesReply) (flag : Bool)
      → finish_append gob peer_id args reply rf ≡ some (rf', flag)
      → Step gob rf rf'
  commanded :
      (command : C) (answer : Option (ℕ × ℕ))
      → start command rf ≡ some (rf', answer)
      → Step gob rf rf'
  applied : (msg : ApplyMsg C) → rf' ≡ deliver msg rf → Step gob rf rf'
  snapshot_made :
      (index : ℕ) (bytes : List ℕ) → snapshot_to gob index bytes rf ≡ some rf' → Step gob rf rf'
  snapshot_installed :
      (term index : ℕ) (bytes : List ℕ) (flag : Bool)
      → cond_install_snapshot gob term index bytes rf ≡ some (rf', flag)
      → Step gob rf rf'
  snapshot_received :
      (args : InstallSnapshotArgs) (reply : InstallSnapshotReply)
      → (rf.current_term ≡ args.term → rf.role ≡ follower)
      → install_snapshot gob args rf ≡ some (rf', reply)
      → Step gob rf rf'
  snapshot_sent :
      (server : ℕ) (args : InstallSnapshotArgs) (reply : InstallSnapshotReply)
      → finish_snapshot gob server args reply rf ≡ some rf'
      → Step gob rf rf'
  stopped : rf' ≡ kill rf → Step gob rf rf'
  restarted :
      (entropy : ℕ → ℕ)
      → make gob rf.peers rf.me (copy rf.persister) entropy ≡ some rf'
      → Step gob rf rf'

pub Step-IsCalm :
    {C : Type 0} (gob : Labgob (Saved C)) {rf rf' : Raft C}
    → Step gob rf rf'
    → IsDurable gob rf
    → IsCalm gob rf rf'
Step-IsCalm gob {rf} (voted_reply args reply e) d = on_vote_reply-IsCalm gob args reply rf e
Step-IsCalm gob {rf} (no_campaign e) d = start_election-IsCalm gob rf e
Step-IsCalm gob {rf} (appended args reply e) d = append_entries-IsCalm gob args rf e
Step-IsCalm gob {rf} (prepared p args e) d = prepare_append-IsCalm gob p rf e
Step-IsCalm gob {rf} (replied p args reply f e) d = finish_append-IsCalm gob p args reply rf e
Step-IsCalm gob {rf} (commanded c a e) d = start-IsCalm gob c rf e
Step-IsCalm gob {rf} (applied msg e) d = rw e (deliver-IsCalm gob msg rf)
Step-IsCalm gob {rf} (snapshot_made i b e) d = snapshot_to-IsCalm gob i b rf e
Step-IsCalm gob {rf} (snapshot_installed t i b f e) d = cond_install_snapshot-IsCalm gob t i b rf e
Step-IsCalm gob {rf} (snapshot_received args reply q e) d = install_snapshot-IsCalm gob args rf q e
Step-IsCalm gob {rf} (snapshot_sent s args reply e) d = finish_snapshot-IsCalm gob s args reply rf e
Step-IsCalm gob {rf} (stopped e) d = rw e (kill-IsCalm gob rf)
Step-IsCalm gob {rf} (restarted entropy e) d = make-IsCalm gob rf entropy d e
