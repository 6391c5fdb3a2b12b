-- ===== src/Cluster/Logs/Still.antt =====
-- The handlers that leave the log alone.
use major_assignments.Common.{
  leb, Bool-cases, Option-cases, get_elem?, drop, ℕ, suc, ◌-◌, ◌<◌, ◌≡◌, ◌⊎◌, inl, inr, Bool,
  Option, none, some, List, [], ◌∷◌, ◌++◌, arith,
}
use major_assignments.Labgob.{Labgob}
use major_assignments.Raft.Append.{AppendEntriesArgs, AppendEntriesReply}
use major_assignments.Raft.Apply.{start, deliver}
use major_assignments.Raft.Election.{start_election, on_vote_reply, Tally, Round, count_vote}
use major_assignments.Raft.Log.{is_leader}
use major_assignments.Raft.Persist.{Saved, saved}
use major_assignments.Raft.Send.{prepare_append, finish_append}
use major_assignments.Raft.Snapshot.{
  InstallSnapshotArgs, InstallSnapshotReply, snapshot_to, finish_snapshot,
}
use major_assignments.Raft.Snapshot.Trim.{drop-get_elem?}
use major_assignments.Raft.Timers.{kill}
use major_assignments.Raft.Types.{leader, LogEntry, ApplyMsg, Raft}
use major_assignments.Raft.Vote.{RequestVoteArgs, RequestVoteReply, request_vote}

-- The log and where it begins are what they were.
abbrev pub IsStill : {C : Type 0} → Raft C → Raft C → Type 0
IsStill rf rf' =
    (rf'.logs ≡ rf.logs)
    × (rf'.last_snapshot_index ≡ rf.last_snapshot_index)
    × (rf'.last_snapshot_term ≡ rf.last_snapshot_term)

module _ {C : Type 0} (gob : Labgob (Saved C)) where
  pub request_vote-IsStill :
      (args : RequestVoteArgs) (rf : Raft C) {rf' : Raft C} {reply : RequestVoteReply}
      → request_vote gob args rf ≡ some (rf', reply)
      → IsStill rf rf'
  unfolding request_vote
  request_vote-IsStill args rf h = ground arith

  pub start_election-IsStill :
      (rf : Raft C) {rf' : Raft C} {args : Option RequestVoteArgs}
      → start_election gob rf ≡ some (rf', args)
      → IsStill rf rf'
  unfolding start_election
  start_election-IsStill rf h = ground arith

  pub count_vote-IsStill :
      (args : RequestVoteArgs) (flag : Bool) (t : Tally) (rf : Raft C) {rf' : Raft C} {t' : Tally}
      {round : Round}
      → count_vote gob args flag t rf ≡ some (rf', t', round)
      → IsStill rf rf'
  unfolding count_vote
  count_vote-IsStill args flag t rf h = ground arith

  pub on_vote_reply-IsStill :
      (args : RequestVoteArgs) (reply : RequestVoteReply) (rf : Raft C) {rf' : Raft C}
      → on_vote_reply gob args reply rf ≡ some rf'
      → IsStill rf rf'
  unfolding on_vote_reply
  on_vote_reply-IsStill args reply rf h = ground arith

  pub prepare_append-IsStill :
      (peer_id : ℕ) (rf : Raft C) {rf' : Raft C} {args : Option (AppendEntriesArgs C)}
      → prepare_append peer_id rf ≡ some (rf', args)
      → IsStill rf rf'
  unfolding prepare_append
  prepare_append-IsStill peer_id rf h = ground arith

  pub finish_append-IsStill :
      (peer_id : ℕ) (args : AppendEntriesArgs C) (reply : AppendEntriesReply) (rf : Raft C)
      {rf' : Raft C} {flag : Bool}
      → finish_append gob peer_id args reply rf ≡ some (rf', flag)
      → IsStill rf rf'
  unfolding finish_append
  finish_append-IsStill peer_id args reply rf h = ground arith

  pub finish_snapshot-IsStill :
      (server : ℕ) (args : InstallSnapshotArgs) (reply : InstallSnapshotReply) (rf : Raft C)
      {rf' : Raft C}
      → finish_snapshot gob server args reply rf ≡ some rf'
      → IsStill rf rf'
  unfolding finish_snapshot
  finish_snapshot-IsStill server args reply rf h = ground arith

  pub deliver-IsStill : (msg : ApplyMsg C) (rf : Raft C) → IsStill rf (deliver msg rf)
  unfolding deliver
  deliver-IsStill msg rf = ground arith

  pub kill-IsStill : (rf : Raft C) → IsStill rf (kill rf)
  unfolding kill
  kill-IsStill rf = ground arith

  -- `Start` puts one entry of the leader's term behind its log, or does nothing.
  pub start_log :
      (command : C) (rf : Raft C) {rf' : Raft C} {answer : Option (ℕ × ℕ)}
      → start command rf ≡ some (rf', answer)
      → IsStill rf rf'
        ⊎ ((rf.role ≡ leader)
            × (rf'.logs ≡ rf.logs ++ record { term = rf.current_term; command = some command } ∷ [])
            × (rf'.last_snapshot_index ≡ rf.last_snapshot_index)
            × (rf'.last_snapshot_term ≡ rf.last_snapshot_term)
            × (rf'.persister ≡ rf.persister)
            × (rf'.current_term ≡ rf.current_term))
  unfolding start
  start_log command rf h = elim (Bool-cases (is_leader rf.role)) [
    | inl e ↦ inr (ground arith)
    | inr e ↦ inl (ground arith)
  ]

  -- `Snapshot` drops the log up to an index, or does nothing.
  pub snapshot_log :
      (index : ℕ) (bytes : List ℕ) (rf : Raft C) {rf' : Raft C}
      → snapshot_to gob index bytes rf ≡ some rf'
      → (rf' ≡ rf)
        ⊎ ((rf.last_snapshot_index < index)
            × (rf'.last_snapshot_index ≡ index)
            × (rf'.persister.raftstate ≡ gob.encode (saved rf'))
            × (e : LogEntry C) × (get_elem? rf.logs (index - rf.last_snapshot_index) ≡ some e)
            × (rf'.last_snapshot_term ≡ e.term)
            × (rf'.logs
                ≡ record { term = e.term; command = none }
                  ∷ drop (suc (index - rf.last_snapshot_index)) rf.logs))
  unfolding snapshot_to
  snapshot_log index bytes rf h = elim (Bool-cases (leb index rf.last_snapshot_index)) [
    | inl e ↦ inl (ground arith)
    | inr e ↦ elim (Option-cases (get_elem? rf.logs (index - rf.last_snapshot_index))) [
      | inl none_there ↦ absurd (ground arith)
      | inr (x, p) ↦
          let q = drop-get_elem? rf.logs (index - rf.last_snapshot_index) p in
          inr (
            ground arith,
            ground (arith, q.0, q.1),
            ground (arith, q.0, q.1),
            x,
            p,
            ground (arith, q.0, q.1),
            ground (arith, q.0, q.1),
          )
    ]
  ]
