-- ===== src/Raft/Types.antt =====
-- The data of raft.go: roles, log entries, messages, and the state of one peer.
use major_assignments.Common.{ℕ, Bool, Option, List}
use major_assignments.Raft.Persister.{Persister}

-- `Role`, with its three constants.
pub data Role : Type 0 where
  follower candidate leader : Role

-- `LogEntry`. The marker at the head of the log has the command `nil`, which is `none`.
pub record LogEntry (C : Type 0) : Type 0 where
  pub term : ℕ
  pub command : Option C

pub record ApplyMsg (C : Type 0) : Type 0 where
  pub command_valid : Bool
  pub command : Option C
  pub command_index : ℕ
  pub snapshot_valid : Bool
  pub snapshot : List ℕ
  pub snapshot_term : ℕ
  pub snapshot_index : ℕ

-- `Raft`. `peers` is `len(rf.peers)`; `voted_for` is `none` for -1; a timer is the duration that it
-- was last armed with, in nanoseconds; `apply_ch` holds what was sent, the oldest first;
-- `notify_apply_ch` counts what is pending; `entropy` and `draws` stand for `math/rand`, as the
-- values that `rand.Int63` is going to return and the number of them already taken.
-- `notifyApplyCh` has room for 100 values; a handler that sends while it is full waits with the mutex
-- held, which is not represented: in the handlers the counter has no bound (the loop of
-- `Raft.Ticker` has it).
pub record Raft (C : Type 0) : Type 0 where
  pub peers : ℕ
  pub persister : Persister
  pub me : ℕ
  pub dead : Bool
  pub role : Role
  pub current_term : ℕ
  pub voted_for : Option ℕ
  pub logs : List (LogEntry C)
  pub commit_index : ℕ
  pub last_applied : ℕ
  pub next_index : List ℕ
  pub match_index : List ℕ
  pub election_timer : ℕ
  pub append_entries_timers : List ℕ
  pub apply_timer : ℕ
  pub apply_ch : List (ApplyMsg C)
  pub notify_apply_ch : ℕ
  pub last_snapshot_index : ℕ
  pub last_snapshot_term : ℕ
  pub entropy : ℕ → ℕ
  pub draws : ℕ
