-- ===== src/Exercises/Timed.antt =====
-- 5/5.go: tasks run for a time each, and a goroutine that waits for all of them compares their total
-- with a limit. `calls of cancel` end a task that still runs.
pub mod Never
use major_assignments.Common.{
  ltb, if◌then◌else◌, ◌>>=◌, set?, get_elem?, ℕ, ◌+◌, Bool, true, false, not, ◌&&◌, ◌||◌, Option,
  none, some, List, [], ◌∷◌, map,
}

pub data Status : Type 0 where
  running : Status
  completed : Status
  cancelled : Status

pub record Timed : Type 0 where
  pub duration : ℕ
  pub status : Status

-- `stopped` says that `cancel` was called.
pub record Tasks : Type 0 where
  pub tasks : List Timed
  pub total_time : ℕ
  pub stopped : Bool

-- `time.Second * 10`
abbrev pub total_timeout : ℕ
total_timeout = 10_000_000_000

abbrev pub is_running : Status → Bool
is_running running = true
is_running completed = false
is_running cancelled = false

abbrev pub all_done : List Timed → Bool
all_done [] = true
all_done (t ∷ ts) = not (is_running t.status) && all_done ts

-- What may happen: the time of a task is over, a task sees `ctx.Done()`, or the monitor goes on.
pub data Event : Type 0 where
  time_over : ℕ → Event
  see_cancel : ℕ → Event
  monitor : Event

unfoldable pub complete_task : ℕ → Tasks → Option Tasks
complete_task i s = do
  t ← get_elem? s.tasks i
  if is_running t.status
      then (do
        ts ← set? s.tasks i (record t { status = completed })
        some (record s { tasks = ts; total_time = s.total_time + t.duration }))
      else none

unfoldable pub cancel_task : ℕ → Tasks → Option Tasks
cancel_task i s = do
  t ← get_elem? s.tasks i
  if is_running t.status && s.stopped
      then (do
        ts ← set? s.tasks i (record t { status = cancelled })
        some (record s { tasks = ts }))
      else none

-- `wg.Wait()`, the comparison and `cancel()`.
unfoldable pub monitor_tasks : Tasks → Option Tasks
monitor_tasks s =
    if all_done s.tasks
    then some (record s { stopped = s.stopped || ltb total_timeout s.total_time })
    else none

unfoldable pub happen : Event → Tasks → Option Tasks
happen (time_over i) s = complete_task i s
happen (see_cancel i) s = cancel_task i s
happen monitor s = monitor_tasks s

unfoldable pub start_tasks : List ℕ → Tasks
start_tasks durations = record {
  tasks = map (λ d. record { duration = d; status = running }) durations;
  total_time = 0;
  stopped = false;
}
