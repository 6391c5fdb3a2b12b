-- ===== src/Raft/Discipline/Handlers.antt =====
-- The handlers keep the discipline, and only a counted vote makes a leader.
use major_assignments.Common.{ℕ, ◌≡◌, Bool, Option, some, List, arith}
use major_assignments.Labgob.{Labgob}
use major_assignments.Raft.Append.{AppendEntriesArgs, AppendEntriesReply, append_entries}
use major_assignments.Raft.Apply.{start, deliver}
use major_assignments.Raft.Discipline.{Discipline, IsCalm}
use major_assignments.Raft.Election.{start_election, on_vote_reply, Tally, Round, count_vote}
use major_assignments.Raft.Persist.{Saved}
use major_assignments.Raft.Send.{prepare_append, finish_append}
use major_assignments.Raft.Snapshot.{
  InstallSnapshotArgs, InstallSnapshotReply, cond_install_snapshot, snapshot_to, install_snapshot,
  finish_snapshot,
}
use major_assignments.Raft.Timers.{kill}
use major_assignments.Raft.Types.{follower, ApplyMsg, Raft}
use major_assignments.Raft.Vote.{RequestVoteArgs, RequestVoteReply, request_vote}

module _ {C : Type 0} (gob : Labgob (Saved C)) where
  pub request_vote-IsCalm :
      (args : RequestVoteArgs) (rf : Raft C) {rf' : Raft C} {reply : RequestVoteReply}
      → request_vote gob args rf ≡ some (rf', reply)
      → IsCalm gob rf rf'
  unfolding request_vote
  request_vote-IsCalm args rf h = ground arith

  pub start_election-IsCalm :
      (rf : Raft C) {rf' : Raft C} {args : Option RequestVoteArgs}
      → start_election gob rf ≡ some (rf', args)
      → IsCalm gob rf rf'
  unfolding start_election
  start_election-IsCalm rf h = ground arith

  pub on_vote_reply-IsCalm :
      (args : RequestVoteArgs) (reply : RequestVoteReply) (rf : Raft C) {rf' : Raft C}
      → on_vote_reply gob args reply rf ≡ some rf'
      → IsCalm gob rf rf'
  unfolding on_vote_reply
  on_vote_reply-IsCalm args reply rf h = ground arith

  pub append_entries-IsCalm :
      (args : AppendEntriesArgs C) (rf : Raft C) {rf' : Raft C} {reply : AppendEntriesReply}
      → append_entries gob args rf ≡ some (rf', reply)
      → IsCalm gob rf rf'
  unfolding append_entries
  append_entries-IsCalm args rf h = ground arith

  pub prepare_append-IsCalm :
      (peer_id : ℕ) (rf : Raft C) {rf' : Raft C} {args : Option (AppendEntriesArgs C)}
      → prepare_append peer_id rf ≡ some (rf', args)
      → IsCalm gob rf rf'
  unfolding prepare_append
  prepare_append-IsCalm peer_id rf h = ground arith

  pub finish_append-IsCalm :
      (peer_id : ℕ) (args : AppendEntriesArgs C) (reply : AppendEntriesReply) (rf : Raft C)
      {rf' : Raft C} {flag : Bool}
      → finish_append gob peer_id args reply rf ≡ some (rf', flag)
      → IsCalm gob rf rf'
  unfolding finish_append
  finish_append-IsCalm peer_id args reply rf h = ground arith

  pub start-IsCalm :
      (command : C) (rf : Raft C) {rf' : Raft C} {answer : Option (ℕ × ℕ)}
      → start command rf ≡ some (rf', answer)
      → IsCalm gob rf rf'
  unfolding start
  start-IsCalm command rf h = ground arith

  pub cond_install_snapshot-IsCalm :
      (term index : ℕ) (bytes : List ℕ) (rf : Raft C) {rf' : Raft C} {flag : Bool}
      → cond_install_snapshot gob term index bytes rf ≡ some (rf', flag)
      → IsCalm gob rf rf'
  unfolding cond_install_snapshot
  cond_install_snapshot-IsCalm term index bytes rf h = ground arith

  pub snapshot_to-IsCalm :
      (index : ℕ) (bytes : List ℕ) (rf : Raft C) {rf' : Raft C}
      → snapshot_to gob index bytes rf ≡ some rf'
      → IsCalm gob rf rf'
  unfolding snapshot_to
  snapshot_to-IsCalm index bytes rf h = ground arith

  pub finish_snapshot-IsCalm :
      (server : ℕ) (args : InstallSnapshotArgs) (reply : InstallSnapshotReply) (rf : Raft C)
      {rf' : Raft C}
      → finish_snapshot gob server args reply rf ≡ some rf'
      → IsCalm gob rf rf'
  unfolding finish_snapshot
  finish_snapshot-IsCalm server args reply rf h = ground arith

  -- `InstallSnapshot` does too, unless it meets a peer of its own term that is no follower.
  pub install_snapshot-IsCalm :
      (args : InstallSnapshotArgs) (rf : Raft C) {rf' : Raft C} {reply : InstallSnapshotReply}
      → (rf.current_term ≡ args.term → rf.role ≡ follower)
      → install_snapshot gob args rf ≡ some (rf', reply)
      → IsCalm gob rf rf'
  unfolding install_snapshot
  install_snapshot-IsCalm args rf quiet h = ground arith

  pub deliver-IsCalm : (msg : ApplyMsg C) (rf : Raft C) → IsCalm gob rf (deliver msg rf)
  unfolding deliver
  deliver-IsCalm msg rf = ground arith

  pub kill-IsCalm : (rf : Raft C) → IsCalm gob rf (kill rf)
  unfolding kill
  kill-IsCalm rf = ground arith

  -- The round that makes a leader.
  pub count_vote-Discipline :
      (args : RequestVoteArgs) (flag : Bool) (t : Tally) (rf : Raft C) {rf' : Raft C} {t' : Tally}
      {round : Round}
      → count_vote gob args flag t rf ≡ some (rf', t', round)
      → Discipline gob rf rf'
  unfolding count_vote
  count_vote-Discipline args flag t rf h = ground arith
