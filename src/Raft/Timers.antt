-- ===== src/Raft/Timers.antt =====
-- The timers of a peer and `killed`.
use major_assignments.Common.{◌>>=◌, set?, ℕ, ◌+◌, ◌%◌, Bool, true, Option, some, map}
use major_assignments.Raft.Types.{Raft}

-- `time.Millisecond * 300`, `* 150` and `* 100`, in nanoseconds.
abbrev pub election_timeout : ℕ
election_timeout = 300_000_000

abbrev pub heart_beat_interval : ℕ
heart_beat_interval = 150_000_000

abbrev pub apply_interval : ℕ
apply_interval = 100_000_000

-- The argument is what `rand.Int63` returned.
abbrev pub get_election_timeout : ℕ → ℕ
get_election_timeout random = election_timeout + random % election_timeout

module _ {C : Type 0} where
  unfoldable pub reset_election_timer : Raft C → Raft C
  reset_election_timer rf = record rf {
    election_timer = get_election_timeout (rf.entropy rf.draws);
    draws = rf.draws + 1;
  }

  unfoldable pub reset_append_entries_timers_zero : Raft C → Raft C
  reset_append_entries_timers_zero rf = record rf {
    append_entries_timers = map (λ _. 0) rf.append_entries_timers;
  }

  unfoldable pub reset_append_entries_timer_zero : ℕ → Raft C → Option (Raft C)
  reset_append_entries_timer_zero peer_id rf = do
    timers ← set? rf.append_entries_timers peer_id 0
    some (record rf { append_entries_timers = timers })

  unfoldable pub reset_append_entries_timer : ℕ → Raft C → Option (Raft C)
  reset_append_entries_timer peer_id rf = do
    timers ← set? rf.append_entries_timers peer_id heart_beat_interval
    some (record rf { append_entries_timers = timers })

  unfoldable pub kill : Raft C → Raft C
  kill rf = record rf { dead = true }

  abbrev pub killed : Raft C → Bool
  killed rf = rf.dead
