-- ===== src/Lab3a/Ticker.antt =====
-- The loops of `ticker`, `conductHeartbeat` and `sendRequestVote`. What wakes a goroutine, and how a
-- call ends, is a list; a goroutine runs alone here.
use major_assignments.Common.{
  ◌==◌, if◌then◌else◌, ◌>>=◌, set?, ℕ, zero, suc, ◌-◌, Bool, ◌||◌, Option, none, some, List, [],
  ◌∷◌,
}
use major_assignments.Lab3a.Append.{AppendEntriesReply}
use major_assignments.Lab3a.Apply.{start_apply_logs}
use major_assignments.Lab3a.Election.{start_election, Tally, own_vote, count_vote}
use major_assignments.Lab3a.Persist.{Saved}
use major_assignments.Lab3a.Send.{append_entries_to_peer}
use major_assignments.Lab3a.Timers.{is_leader, reset_election_timer, killed, heart_beat_time_limit}
use major_assignments.Lab3a.Types.{Raft}
use major_assignments.Labgob.{Labgob}

-- What a round of `sendRequestVote` receives: the timer, or the end of the call.
pub data RpcEnd (R : Type 0) : Type 0 where
  timer_ended : RpcEnd R
  call_failed : RpcEnd R
  call_replied : R → RpcEnd R

module _ {R : Type 0} where
  -- `none` where the timer ends the loop, or the list is over.
  unfoldable pub send_request_vote : List (RpcEnd R) → Option R
  send_request_vote [] = none
  send_request_vote (timer_ended ∷ ends) = none
  send_request_vote (call_failed ∷ ends) = send_request_vote ends
  send_request_vote (call_replied reply ∷ ends) = some reply

module _ {C : Type 0} (gob : Labgob (Saved C)) where
  -- The loop of `startElection`, over the votes that it takes from the channel.
  unfoldable pub count_votes : List Bool → Tally → Raft C → Option (Raft C)
  unfolding count_vote
  count_votes [] t rf = some rf
  count_votes (granted ∷ votes) t rf = do
    (rf', t', done) ← count_vote gob granted t rf
    if done then some rf' else count_votes votes t' rf'

  -- The goroutine that begins elections: for each time that the timer fires, the votes of the
  -- election, if one is begun.
  unfoldable pub ticker : List (List Bool) → Raft C → Option (Raft C)
  unfolding start_election count_votes reset_election_timer
  ticker [] rf = some rf
  ticker (votes ∷ fires) rf =
      let rf1 = reset_election_timer rf in
      let later = ticker fires rf1 in
      if killed rf then some rf else if is_leader rf1.state then later else do
        (rf2, _) ← start_election gob rf1
        rf3 ← count_votes votes own_vote rf2
        ticker fires rf3

  -- The goroutine of one other peer: for each time that its timer fires, the ends of the calls.
  unfoldable pub conduct_heartbeat :
      ℕ → List (List (Option AppendEntriesReply)) → Raft C → Option (Raft C)
  unfolding append_entries_to_peer
  conduct_heartbeat index [] rf = some rf
  conduct_heartbeat index (ends ∷ fires) rf = if killed rf then some rf else do
    timers ← set? rf.append_entries_timers index heart_beat_time_limit
    let rf1 = record rf { append_entries_timers = timers }
    if is_leader rf1.state
        then (append_entries_to_peer gob index ends rf1 >>= λ rf2.
            conduct_heartbeat index fires rf2)
        else conduct_heartbeat index fires rf1

  -- The goroutine that `Make` starts: the rounds of its loop. A round waits while nothing is notified.
  unfoldable pub apply_loop : ℕ → Raft C → Option (Raft C)
  unfolding start_apply_logs
  apply_loop zero rf = some rf
  apply_loop (suc rounds) rf = if killed rf || rf.notify_apply_ch == 0 then some rf else do
    rf1 ← start_apply_logs gob (record rf { notify_apply_ch = rf.notify_apply_ch - 1 })
    apply_loop rounds rf1
