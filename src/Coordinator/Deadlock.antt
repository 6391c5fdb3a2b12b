-- ===== src/Coordinator/Deadlock.antt =====
-- `GetOneTask` keeps the mutex when the task that it took is of the other phase.
use major_assignments.Common.{
  ◌>>=◌, Returns, ℕ, ◌≡◌, true, false, Option, none, some, List, ◌∷◌, arith,
}
use major_assignments.Coordinator.{
  Task, Coordinator, ReportTaskArgs, same_phase, scan_task_state, assign_task, get_one_task,
  reg_worker, report_task, is_done,
}

-- Every call that needs the mutex.
pub data Call : Type 0 where
  scan : ℕ → Call
  ask : ℕ → ℕ → Task → Call
  register : Call
  report : ReportTaskArgs → Call
  query : Call

-- What a call leaves, if it returns.
unfoldable pub perform : Call → Coordinator → Option Coordinator
unfolding scan_task_state assign_task reg_worker report_task is_done
perform (scan now) c = scan_task_state now c
perform (ask worker now task) c = assign_task worker now task c >>= λ r. some r.0
perform register c = reg_worker c >>= λ r. some r.0
perform (report args) c = report_task args c
perform query c = is_done c >>= λ _. some c

abbrev pub AsksAlive : Call → Type 0
AsksAlive (ask worker now task) = task.alive ≡ true
AsksAlive _ = Unit

-- If the mutex is free and the first task of the queue is alive and was made in the other phase,
-- `GetOneTask` returns an error, and after it no scan, no request for an alive task, no
-- registration, no report and no `Done` returns.
pub get_one_task_deadlock :
    (worker now : ℕ) (task : Task) (rest : List Task) (c : Coordinator) (call : Call)
    → c.task_chan ≡ task ∷ rest
    → task.alive ≡ true
    → c.locked ≡ false
    → same_phase task.phase c.task_phase ≡ false
    → AsksAlive call
    → Returns (get_one_task worker now c) (λ r. (r.2 ≡ true) × (perform call r.0 ≡ none))
unfolding get_one_task perform
get_one_task_deadlock worker now task rest c (scan t) q a l p alive = ground arith
get_one_task_deadlock worker now task rest c _ q a l p alive = ground arith
