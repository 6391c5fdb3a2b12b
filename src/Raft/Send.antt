-- ===== src/Raft/Send.antt =====
-- `getAppendLogs` and `sendAppendEntriesToPeer`: what a leader sends, and what it does with the
-- reply. A call that fails leaves the zero reply.
pub mod Replication
use major_assignments.Common.{
  ltb, leb, ◌==◌, if◌then◌else◌, ◌>>=◌, set?, slice_from, length, get_elem?, ℕ, ◌-◌, Bool, true,
  false, not, ◌||◌, Option, none, some, List, [],
}
use major_assignments.Labgob.{Labgob}
use major_assignments.Raft.Append.{AppendEntriesArgs, AppendEntriesReply}
use major_assignments.Raft.Commit.{try_commit_log}
use major_assignments.Raft.Log.{is_leader, get_last_log_term_and_index}
use major_assignments.Raft.Persist.{Saved, persist}
use major_assignments.Raft.Role.{change_role}
use major_assignments.Raft.Timers.{
  reset_election_timer, reset_append_entries_timer_zero, reset_append_entries_timer, killed,
}
use major_assignments.Raft.Types.{follower, LogEntry, Raft}

pub record AppendLogs (C : Type 0) : Type 0 where
  pub prev_log_index : ℕ
  pub prev_log_term : ℕ
  pub log_entries : List (LogEntry C)

module _ {C : Type 0} where
  -- The copy has room for `lastLogIndex - nextIndex + 1` entries, which is the whole slice.
  unfoldable pub get_append_logs : ℕ → Raft C → Option (AppendLogs C)
  unfolding get_last_log_term_and_index
  get_append_logs peer_id rf = do
    next ← get_elem? rf.next_index peer_id
    (last_term, last_index) ← get_last_log_term_and_index rf
    if leb next rf.last_snapshot_index || ltb last_index next
        then some
            (record { prev_log_index = last_index; prev_log_term = last_term; log_entries = [] })
        else do
          entries ← slice_from (next - rf.last_snapshot_index) rf.logs
          prev_term ←
              if next - 1 == rf.last_snapshot_index
              then some rf.last_snapshot_term
              else do entry ← get_elem? rf.logs (next - 1 - rf.last_snapshot_index); some entry.term
          some (record {
            prev_log_index = next - 1;
            prev_log_term = prev_term;
            log_entries = entries;
          })

  -- The first stretch under the lock; `none` beside the state means that nothing is sent.
  unfoldable pub prepare_append : ℕ → Raft C → Option (Raft C × Option (AppendEntriesArgs C))
  unfolding get_append_logs reset_append_entries_timer
  prepare_append peer_id rf =
      if killed rf
      then some (rf, none)
      else if is_leader rf.role
      then (do
        l ← get_append_logs peer_id rf
        rf' ← reset_append_entries_timer peer_id rf
        some (
          rf',
          some (record {
            term = rf.current_term;
            leader_id = rf.me;
            prev_log_index = l.prev_log_index;
            prev_log_term = l.prev_log_term;
            entries = l.log_entries;
            leader_commit = rf.commit_index;
          }),
        ))
      else do rf' ← reset_append_entries_timer peer_id rf; some (rf', none)

  -- `len(es) > 0 && es[len(es)-1].Term == term`
  unfoldable pub ends_in_term : List (LogEntry C) → ℕ → Bool
  ends_in_term es term = elim (get_elem? es (length es - 1)) [
    | none ↦ false
    | some e ↦ e.term == term
  ]

  unfoldable pub note_match : ℕ → ℕ → Raft C → Option (Raft C)
  note_match peer_id next rf = do
    old ← get_elem? rf.next_index peer_id
    if ltb old next
        then (do
          nexts ← set? rf.next_index peer_id next
          matches ← set? rf.match_index peer_id (next - 1)
          some (record rf { next_index = nexts; match_index = matches }))
        else some rf

module _ {C : Type 0} (gob : Labgob (Saved C)) where
  -- The second stretch. The flag beside the state says that the goroutine which sends a snapshot is
  -- started.
  unfoldable pub finish_append :
      ℕ → AppendEntriesArgs C → AppendEntriesReply → Raft C → Option (Raft C × Bool)
  unfolding change_role reset_election_timer persist note_match ends_in_term try_commit_log
      reset_append_entries_timer_zero
  finish_append peer_id args reply rf =
      if ltb rf.current_term reply.term
      then (do
        rf' ← change_role follower rf
        some (persist gob (reset_election_timer (record rf' { current_term = reply.term })), false))
      else if not (is_leader rf.role) || not (rf.current_term == args.term)
      then some (rf, false)
      else if reply.success
      then (do
        rf1 ← note_match peer_id reply.next_log_index rf
        rf2 ← if ends_in_term args.entries rf1.current_term then try_commit_log rf1 else some rf1
        some (persist gob rf2, false))
      else if reply.next_log_index == 0
      then some (rf, false)
      else if ltb rf.last_snapshot_index reply.next_log_index
      then (do
        nexts ← set? rf.next_index peer_id reply.next_log_index
        rf' ← reset_append_entries_timer_zero peer_id (record rf { next_index = nexts })
        some (rf', false))
      else some (rf, true)
