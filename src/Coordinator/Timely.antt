-- ===== src/Coordinator/Timely.antt =====
-- The coordinator with reports in time: while the task is still running by the table, so that no scan
-- has queued it again. `pending` are the tasks that were received from the queue and are not noted yet.
pub mod Queue
pub mod Scans
pub mod Free
pub mod Reached
use major_assignments.Common.{
  ◌==◌, if◌then◌else◌, get_elem?, String, ℕ, zero, suc, ◌+◌, ◌≤◌, ◌≡◌, Bool, true, false, some,
  List, [], ◌∷◌, ◌++◌,
}
use major_assignments.Coordinator.{
  TaskPhase, TaskStatus, ready, running, Task, TaskState, Coordinator, ReportTaskArgs, same_phase,
  scan_task_state, receive_task, assign_task, reg_worker, report_task, make_coordinator,
}
use major_assignments.Coordinator.Invariant.{task_count, AllTasks, IsSound}

-- A report that would change the table is about a running task.
abbrev pub IsOnTime : Coordinator → ReportTaskArgs → Type 0
IsOnTime c args =
    (v : TaskState)
    → get_elem? c.task_states args.seq ≡ some v
    → same_phase c.task_phase args.phase ≡ true
    → v.worker_id ≡ args.worker_id
    → v.status ≡ running

pub data TimelyReach (files : List String) (n_reduce : ℕ) : Coordinator → List Task → Type 0 where
  starts : TimelyReach files n_reduce (make_coordinator files n_reduce) []
  takes :
      {c : Coordinator} {ts : List Task} {r : Task × Coordinator}
      → TimelyReach files n_reduce c ts
      → receive_task c ≡ some r
      → TimelyReach files n_reduce r.1 (r.0 ∷ ts)
  notes :
      (worker now : ℕ) (before behind : List Task) (task : Task) {c : Coordinator} {ts : List Task}
      {r : Coordinator × Bool}
      → TimelyReach files n_reduce c ts
      → ts ≡ before ++ task ∷ behind
      → assign_task worker now task c ≡ some r
      → TimelyReach files n_reduce r.0 (before ++ behind)
  tells :
      (args : ReportTaskArgs) {c c' : Coordinator} {ts : List Task}
      → TimelyReach files n_reduce c ts
      → IsOnTime c args
      → report_task args c ≡ some c'
      → TimelyReach files n_reduce c' ts
  looks :
      (now : ℕ) {c c' : Coordinator} {ts : List Task}
      → TimelyReach files n_reduce c ts
      → scan_task_state now c ≡ some c'
      → TimelyReach files n_reduce c' ts
  joins :
      {c : Coordinator} {ts : List Task} {r : Coordinator × ℕ}
      → TimelyReach files n_reduce c ts
      → reg_worker c ≡ some r
      → TimelyReach files n_reduce r.0 ts

abbrev pub is_ready : TaskStatus → Bool
is_ready ready = true
is_ready _ = false

-- 1 for a task that is ready by the table.
abbrev pub ready_at : List TaskState → ℕ → ℕ
ready_at [] j = 0
ready_at (v ∷ vs) zero = if is_ready v.status then 1 else 0
ready_at (v ∷ vs) (suc j) = ready_at vs j

-- How often a task stands in a list.
abbrev pub queued : ℕ → List Task → ℕ
queued j [] = 0
queued j (t ∷ ts) = (if t.seq == j then 1 else 0) + queued j ts

abbrev pub AllOf : TaskPhase → List Task → Type 0
AllOf p [] = Unit
AllOf p (t ∷ ts) = (t.phase ≡ p) × AllOf p ts

-- A task that is queued or pending is ready by the table, and is queued or pending once.
pub record IsTimely (c : Coordinator) (pending : List Task) : Type 0 where
  pub sound : IsSound c
  pub room : task_count c c.task_phase ≤ c.chan_cap
  pub later_room : c.n_reduce ≤ c.chan_cap
  pub free : c.locked ≡ false
  pub pending_ok : AllTasks c pending
  pub queue_phases : AllOf c.task_phase c.task_chan
  pub pending_phases : AllOf c.task_phase pending
  pub once : (j : ℕ) → queued j c.task_chan + queued j pending ≤ ready_at c.task_states j
