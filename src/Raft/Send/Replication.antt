-- ===== src/Raft/Send/Replication.antt =====
-- From the leader's log to the follower's: what `getAppendLogs` sends is the leader's log behind
-- `PrevLogIndex`, and a success means that the follower has it.
use major_assignments.Common.{
  ltb, leb, Bool-cases, Option-cases, >>=-eq-some, length, get_elem?, drop, length-drop,
  get_elem?-ge, get_elem?-drop, ℕ, ◌+◌, ◌-◌, ◌≤◌, ◌<◌, ◌≡◌, ap, ◌⊎◌, inl, inr, true, ◌||◌, some, [],
  arith,
}
use major_assignments.Labgob.{Labgob}
use major_assignments.Raft.Append.{AppendEntriesArgs, AppendEntriesReply, append_entries}
use major_assignments.Raft.Append.Matching.{success_log, append_entries_success}
use major_assignments.Raft.Log.{last_log_index, entry_at}
use major_assignments.Raft.Persist.{Saved}
use major_assignments.Raft.Send.{AppendLogs, get_append_logs, prepare_append}
use major_assignments.Raft.Types.{Raft}

module _ {C : Type 0} where
  sent :
      (peer_id : ℕ) (rf : Raft C) {l : AppendLogs C}
      → get_append_logs peer_id rf ≡ some l
      → ((l.prev_log_index ≡ last_log_index rf) × (l.log_entries ≡ []) × (0 < length rf.logs))
        ⊎ ((next : ℕ) × (rf.last_snapshot_index < next)
            × (next ≤ last_log_index rf)
            × (l.prev_log_index ≡ next - 1)
            × (l.log_entries ≡ drop (next - rf.last_snapshot_index) rf.logs))
  unfolding get_append_logs
  sent peer_id rf h =
      let (next, p, q) = >>=-eq-some (get_elem? rf.next_index peer_id) _ h in
      elim (Bool-cases (leb next rf.last_snapshot_index || ltb (last_log_index rf) next)) [
        | inl e ↦
            inl (
              ground arith,
              ground arith,
              ground (arith, get_elem?-ge rf.logs (length rf.logs - 1)),
            )
        | inr e ↦ inr (next, ground arith, ground arith, ground arith, ground arith)
      ]

  -- If `getAppendLogs` returns, the message begins behind an index that is not below the snapshot,
  -- ends where the log ends, and holds the entries in between.
  pub get_append_logs_lem :
      (peer_id : ℕ) (rf : Raft C) {l : AppendLogs C}
      → get_append_logs peer_id rf ≡ some l
      → (l.prev_log_index + length l.log_entries ≡ last_log_index rf)
        × (rf.last_snapshot_index ≤ l.prev_log_index)
        × ((k : ℕ) → get_elem? l.log_entries k ≡ entry_at (l.prev_log_index + 1 + k) rf)
  unfolding entry_at
  get_append_logs_lem peer_id rf {l} h = elim (sent peer_id rf h) [
    | inl (p, q, ne) ↦ (
      omega (arith, ap length q),
      omega arith,
      λ k.
          ground
            (arith, q, get_elem?-ge rf.logs (l.prev_log_index + 1 + k - rf.last_snapshot_index)),
    )
    | inr (next, a, b, p, q) ↦
        let size = length-drop (next - rf.last_snapshot_index) rf.logs in
        (
          omega (arith, ap length q, size),
          omega arith,
          λ k.
              let at : l.prev_log_index + 1 + k - rf.last_snapshot_index
                  ≡ next - rf.last_snapshot_index + k =
                omega arith in
              ground (
                arith,
                ap (λ xs. get_elem? xs k) q,
                get_elem?-drop (next - rf.last_snapshot_index) rf.logs k,
                ap (get_elem? rf.logs) at,
              ),
        )
  ]

  pub made_of :
      (peer_id : ℕ) (rf : Raft C) {rf' : Raft C} {args : AppendEntriesArgs C}
      → prepare_append peer_id rf ≡ some (rf', some args)
      → (l : AppendLogs C) × (get_append_logs peer_id rf ≡ some l)
        × (args.prev_log_index ≡ l.prev_log_index)
        × (args.entries ≡ l.log_entries)
        × (args.leader_commit ≡ rf.commit_index)
        × (args.term ≡ rf.current_term)
  unfolding prepare_append
  made_of peer_id rf h = elim (Option-cases (get_append_logs peer_id rf)) [
    | inl e ↦ absurd (ground arith)
    | inr (l, e) ↦ (l, e, ground arith, ground arith, ground arith, ground arith)
  ]

module _ {C : Type 0} (gob : Labgob (Saved C)) where
  -- A follower that answers with success to what the leader has prepared for it has the leader's
  -- log behind `PrevLogIndex`: the same last index, and the same entry, or none, at every index
  -- there. Its commit index stays inside its log, if that and the leader's were inside the
  -- leader's.
  pub replication :
      (peer_id : ℕ) (lead follow : Raft C) {lead' follow' : Raft C} {args : AppendEntriesArgs C}
      {reply : AppendEntriesReply}
      → prepare_append peer_id lead ≡ some (lead', some args)
      → append_entries gob args follow ≡ some (follow', reply)
      → reply.success ≡ true
      → (last_log_index follow' ≡ last_log_index lead)
        × (reply.next_log_index ≡ last_log_index lead + 1)
        × ((i : ℕ) → args.prev_log_index < i → entry_at i follow' ≡ entry_at i lead)
        × (lead.commit_index ≤ last_log_index lead
            → follow.commit_index ≤ last_log_index lead
            → follow'.commit_index ≤ last_log_index follow')
  replication peer_id lead follow {follow'} {args} p a g =
      let (l, e, prev, es, c, _) = made_of peer_id lead p in
      let (ends, _, same) = get_append_logs_lem peer_id lead e in
      let (last, next, _, new) = append_entries_success gob args follow a g in
      let (_, _, _, _, _, commit) = success_log gob args follow a g in
      let n = ap length es in
      (
        omega (arith, n),
        omega (arith, n),
        λ i lt.
            let k = i - args.prev_log_index - 1 in
            let at : args.prev_log_index + 1 + k ≡ i = omega arith in
            let at' : l.prev_log_index + 1 + k ≡ i = omega arith in
            cc (
              new k,
              same k,
              ap (λ j. entry_at j follow') at,
              ap (λ j. entry_at j lead) at',
              ap (λ xs. get_elem? xs k) es,
            ),
        λ a b. omega (arith, n),
      )
