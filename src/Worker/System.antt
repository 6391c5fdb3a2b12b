-- ===== src/Worker/System.antt =====
-- The coordinator together with its workers: the tasks that workers have, and the calls that they make
-- with them.
use mathlib.Core.Path.{subst}
use major_assignments.Common.{
  Bool-cases, Returns, returned, get_elem?, String, ℕ, zero, suc, ◌+◌, ◌≡◌, refl, sym, inl, inr,
  Bool, false, some, List, [], ◌∷◌, arith,
}
use major_assignments.Coordinator.{
  Task, Coordinator, ReportTaskArgs, scan_task_state, receive_task, assign_task, reg_worker,
  report_task, make_coordinator,
}
use major_assignments.Coordinator.Invariant.{
  IsTask, AllTasks, IsSound, AllTasks-moved, receive_task-IsSound, report_task-IsSound,
  assign_task-IsSound, make_coordinator-IsSound,
}
use major_assignments.Coordinator.ScanSound.{scan_task_state-IsSound}
use major_assignments.Worker.Loop.{report_args}

-- What is fixed from the start on.
SameJob : Coordinator → Coordinator → Type 0
SameJob c c' = (c'.files ≡ c.files) × (c'.n_reduce ≡ c.n_reduce)

receive_task-SameJob :
    (c : Coordinator) {r : Task × Coordinator} → receive_task c ≡ some r → SameJob c r.1
unfolding receive_task SameJob
receive_task-SameJob c h = (ground arith, ground arith)

assign_task-SameJob :
    (worker now : ℕ) (task : Task) (c : Coordinator) {r : Coordinator × Bool}
    → assign_task worker now task c ≡ some r
    → SameJob c r.0
unfolding assign_task SameJob
assign_task-SameJob worker now task c h = (ground arith, ground arith)

report_task-SameJob :
    (args : ReportTaskArgs) (c : Coordinator) {c' : Coordinator}
    → report_task args c ≡ some c'
    → SameJob c c'
unfolding report_task SameJob
report_task-SameJob args c h = (ground arith, ground arith)

scan_task_state-SameJob :
    (now : ℕ) (c : Coordinator) {c' : Coordinator} → scan_task_state now c ≡ some c' → SameJob c c'
unfolding scan_task_state SameJob
scan_task_state-SameJob now c h = (ground arith, ground arith)

-- The states of the coordinator, with the tasks that have been received from the queue.
pub data JobReach (files : List String) (n_reduce : ℕ) : Coordinator → List Task → Type 0 where
  begins : JobReach files n_reduce (make_coordinator files n_reduce) []
  receives :
      {c : Coordinator} {ts : List Task} {r : Task × Coordinator}
      → JobReach files n_reduce c ts
      → receive_task c ≡ some r
      → JobReach files n_reduce r.1 (r.0 ∷ ts)
  assigns :
      (worker now i : ℕ) {c : Coordinator} {ts : List Task} {task : Task} {r : Coordinator × Bool}
      → JobReach files n_reduce c ts
      → get_elem? ts i ≡ some task
      → assign_task worker now task c ≡ some r
      → JobReach files n_reduce r.0 ts
  reports :
      (worker i : ℕ) (done : Bool) {c c' : Coordinator} {ts : List Task} {task : Task}
      → JobReach files n_reduce c ts
      → get_elem? ts i ≡ some task
      → report_task (report_args worker task done) c ≡ some c'
      → JobReach files n_reduce c' ts
  scans :
      (now : ℕ) {c c' : Coordinator} {ts : List Task}
      → JobReach files n_reduce c ts
      → scan_task_state now c ≡ some c'
      → JobReach files n_reduce c' ts
  registers :
      {c : Coordinator} {ts : List Task} {r : Coordinator × ℕ}
      → JobReach files n_reduce c ts
      → reg_worker c ≡ some r
      → JobReach files n_reduce r.0 ts

AllTasks-at :
    (c : Coordinator) (ts : List Task) (i : ℕ) {task : Task}
    → AllTasks c ts
    → get_elem? ts i ≡ some task
    → IsTask c task
AllTasks-at c [] i a h = cc
AllTasks-at c (t ∷ ts) zero a h = subst (IsTask c) (ground arith) a.0
AllTasks-at c (t ∷ ts) (suc i) a h = AllTasks-at c ts i a.1 h

-- A call that needs the mutex and has returned has found it free.
assign_free :
    (worker now : ℕ) (task : Task) (c : Coordinator) {r : Coordinator × Bool}
    → IsSound c
    → IsTask c task
    → assign_task worker now task c ≡ some r
    → IsSound r.0
unfolding assign_task
assign_free worker now task c {r} s t h = elim (Bool-cases c.locked) [
  | inl e ↦ subst IsSound {x = c} (ground (arith, e)) s
  | inr e ↦ returned (λ r. IsSound r.0) (assign_task-IsSound worker now task c s e t) h
]

report_free :
    (worker : ℕ) (done : Bool) (task : Task) (c : Coordinator) {c' : Coordinator}
    → IsSound c
    → IsTask c task
    → report_task (report_args worker task done) c ≡ some c'
    → IsSound c'
unfolding report_task report_args
report_free worker done task c s t h = elim (Bool-cases c.locked) [
  | inl e ↦ absurd (ground (arith, e))
  | inr e ↦ returned IsSound (report_task-IsSound (report_args worker task done) c s e t.in_range) h
]

registered :
    (c : Coordinator) {r : Coordinator × ℕ}
    → reg_worker c ≡ some r
    → r.0 ≡ record c { worker_seq = c.worker_seq + 1 }
unfolding reg_worker
registered c h = ground arith

pub JobReach-IsSound :
    {files : List String} {n_reduce : ℕ} {c : Coordinator} {ts : List Task}
    → JobReach files n_reduce c ts
    → IsSound c × AllTasks c ts
unfolding SameJob
JobReach-IsSound begins = (make_coordinator-IsSound _ _, tt)
JobReach-IsSound (receives {c} {ts} {r = x} r h) =
    let (s, a) = JobReach-IsSound r in
    let (s', t) = receive_task-IsSound c s h in
    let (f, n) = receive_task-SameJob c h in (s', (t, AllTasks-moved c x.1 ts f n a))
JobReach-IsSound (assigns worker now i {c} {ts} {task} {r = x} r g h) =
    let (s, a) = JobReach-IsSound r in
    let (f, n) = assign_task-SameJob worker now task c h in
    (assign_free worker now task c s (AllTasks-at c ts i a g) h, AllTasks-moved c x.0 ts f n a)
JobReach-IsSound (reports worker i done {c} {c'} {ts} {task} r g h) =
    let (s, a) = JobReach-IsSound r in
    let (f, n) = report_task-SameJob (report_args worker task done) c h in
    (report_free worker done task c s (AllTasks-at c ts i a g) h, AllTasks-moved c c' ts f n a)
JobReach-IsSound (scans now {c} {c'} {ts} r h) =
    let (s, a) = JobReach-IsSound r in
    let (f, n) = scan_task_state-SameJob now c h in
    (scan_task_state-IsSound now c s h, AllTasks-moved c c' ts f n a)
JobReach-IsSound (registers {c} {ts} {r = x} r h) =
    let (s, a) = JobReach-IsSound r in
    let c1 = record c { worker_seq = c.worker_seq + 1 } in
    let same = sym (registered c h) in
    subst (λ d. IsSound d × AllTasks d ts) same
      (
        record {
          states_length = s.states_length;
          queue_ok = AllTasks-moved c c1 c.task_chan refl refl s.queue_ok;
          queue_fits = s.queue_fits;
        },
        AllTasks-moved c c1 ts refl refl a,
      )

-- In every state that the coordinator reaches with its workers, with the mutex free, a worker that has
-- received a task can note it and report on it, done or not: both calls return, inside the table of
-- tasks, and leave the table and the queue sound.
pub received_task_lem :
    {files : List String} {n_reduce : ℕ} {c : Coordinator} {ts : List Task} (worker now i : ℕ)
    (done : Bool) (task : Task)
    → JobReach files n_reduce c ts
    → get_elem? ts i ≡ some task
    → c.locked ≡ false
    → Returns (assign_task worker now task c) (λ r. IsSound r.0)
      × Returns (report_task (report_args worker task done) c) IsSound
unfolding report_args
received_task_lem {c = c} {ts = ts} worker now i done task r g free =
    let (s, a) = JobReach-IsSound r in
    let t = AllTasks-at c ts i a g in
    (
      assign_task-IsSound worker now task c s free t,
      report_task-IsSound (report_args worker task done) c s free t.in_range,
    )
