-- ===== src/Lab3a/Types.antt =====
-- The data of raft.go.
use major_assignments.Common.{ℕ, Bool, Option, List}
use major_assignments.Lab3a.Persister.{Persister}

-- `Node_State`
pub data NodeState : Type 0 where
  follower candidate leader : NodeState

-- `votefor`; the value -1, -1 of a peer that has not voted is `none` in the peer.
pub record VoteFor : Type 0 where
  pub term : ℕ
  pub id : ℕ

pub record LogEntry (C : Type 0) : Type 0 where
  pub term : ℕ
  pub idx : ℕ
  pub command : Option C

pub record ApplyMsg (C : Type 0) : Type 0 where
  pub command_valid : Bool
  pub command : Option C
  pub command_index : ℕ

-- A timer is the duration it was last armed with, in nanoseconds; `apply_ch` holds what was sent, the
-- oldest first; `notify_apply_ch` counts what is pending; `entropy` gives what `rand.Int63` returns.
-- `match_index` and `next_index` are empty until the first win, like the slices that are nil.
-- `notifyApplyCh` has room for 100 values; a handler that sends while it is full waits with the mutex
-- held, which is not represented: in the handlers the counter has no bound.
pub record Raft (C : Type 0) : Type 0 where
  pub peers : ℕ
  pub persister : Persister
  pub me : ℕ
  pub dead : Bool
  pub election_timer : ℕ
  pub append_entries_timers : List ℕ
  pub state : NodeState
  pub term : ℕ
  pub vote_for : Option VoteFor
  pub log_entries : List (LogEntry C)
  pub match_index : List ℕ
  pub next_index : List ℕ
  pub apply_ch : List (ApplyMsg C)
  pub notify_apply_ch : ℕ
  pub commit_index : ℕ
  pub okbutnocommit : ℕ
  pub last_applied : ℕ
  pub entropy : ℕ → ℕ
  pub draws : ℕ
