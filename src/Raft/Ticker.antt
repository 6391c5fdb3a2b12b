-- ===== src/Raft/Ticker.antt =====
-- `ticker`: the goroutine that applies entries, the one that starts elections and those that send.
-- What wakes a goroutine is a list; a goroutine runs alone here.
use major_assignments.Common.{
  ltb, ◌==◌, if◌then◌else◌, ◌>>=◌, ℕ, ◌+◌, ◌-◌, Bool, true, false, Option, none, some, List, [],
  ◌∷◌,
}
use major_assignments.Labgob.{Labgob}
use major_assignments.Raft.Append.{AppendEntriesArgs}
use major_assignments.Raft.Apply.{start_apply_logs}
use major_assignments.Raft.Election.{start_election}
use major_assignments.Raft.Persist.{Saved}
use major_assignments.Raft.Send.{prepare_append}
use major_assignments.Raft.Timers.{killed}
use major_assignments.Raft.Types.{Raft}
use major_assignments.Raft.Vote.{RequestVoteArgs}

pub data Wake : Type 0 where
  stop : Wake
  timer_fired : Wake
  notified : Wake

-- The room of `notifyApplyCh`.
abbrev pub notify_room : ℕ
notify_room = 100

module _ {C : Type 0} (gob : Labgob (Saved C)) where
  -- A send waits while the channel is full, for ever if this goroutine sends: it is the receiver. A
  -- receive is not chosen while the channel is empty. The flag says that the loop has ended.
  unfoldable pub apply_loop : List Wake → Raft C → Option (Raft C × Bool)
  apply_loop [] rf = some (rf, false)
  apply_loop (stop ∷ wakes) rf = some (rf, true)
  apply_loop (timer_fired ∷ wakes) rf =
      if ltb rf.notify_apply_ch notify_room
      then apply_loop wakes (record rf { notify_apply_ch = rf.notify_apply_ch + 1 })
      else none
  apply_loop (notified ∷ wakes) rf = if rf.notify_apply_ch == 0 then apply_loop wakes rf else do
    rf' ← start_apply_logs gob (record rf { notify_apply_ch = rf.notify_apply_ch - 1 })
    apply_loop wakes rf'

  -- The arguments of the elections that are begun.
  unfoldable pub election_loop :
      List Wake → Raft C → Option (Raft C × List (Option RequestVoteArgs))
  unfolding start_election
  election_loop [] rf = some (rf, [])
  election_loop (stop ∷ wakes) rf = some (rf, [])
  election_loop (notified ∷ wakes) rf = election_loop wakes rf
  election_loop (timer_fired ∷ wakes) rf = if killed rf then some (rf, []) else do
    (rf1, args) ← start_election gob rf
    (rf2, rest) ← election_loop wakes rf1
    some (rf2, args ∷ rest)

  -- The goroutine of one other peer; the messages that it sends.
  unfoldable pub send_loop :
      ℕ → List Wake → Raft C → Option (Raft C × List (Option (AppendEntriesArgs C)))
  unfolding prepare_append
  send_loop peer_id [] rf = some (rf, [])
  send_loop peer_id (stop ∷ wakes) rf = some (rf, [])
  send_loop peer_id (notified ∷ wakes) rf = send_loop peer_id wakes rf
  send_loop peer_id (timer_fired ∷ wakes) rf = if killed rf then some (rf, []) else do
    (rf1, args) ← prepare_append peer_id rf
    (rf2, rest) ← send_loop peer_id wakes rf1
    some (rf2, args ∷ rest)
