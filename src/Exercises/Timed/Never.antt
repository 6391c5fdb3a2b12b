-- ===== src/Exercises/Timed/Never.antt =====
-- The limit comes too late: no task is ever cancelled by it.
use major_assignments.Common.{
  if◌then◌else◌, Option-cases, set?, get_elem?, ℕ, zero, suc, ◌+◌, ◌<◌, ◌≡◌, refl, inl, inr, true,
  some, List, [], ◌∷◌, arith,
}
use major_assignments.Exercises.Runs.{runs, runs-keeps}
use major_assignments.Exercises.Timed.{
  running, completed, cancelled, Timed, Tasks, is_running, all_done, Event, time_over, see_cancel,
  monitor, complete_task, cancel_task, monitor_tasks, happen, start_tasks,
}
use major_assignments.Exercises.Totals.{total, total-set?}

abbrev completed_time : Timed → ℕ
completed_time t = elim t.status [ running ↦ 0 | completed ↦ t.duration | cancelled ↦ 0 ]

abbrev pub cancellations : Timed → ℕ
cancellations t = elim t.status [ running ↦ 0 | completed ↦ 0 | cancelled ↦ 1 ]

abbrev running_tasks : Timed → ℕ
running_tasks t = if is_running t.status then 1 else 0

abbrev pub running_time : Timed → ℕ
running_time t = if is_running t.status then t.duration else 0

record IsTimed (goal : ℕ) (s : Tasks) : Type 0 where
  durations_kept : total (λ t. t.duration) s.tasks ≡ goal
  none_cancelled : total cancellations s.tasks ≡ 0
  time_counted : s.total_time ≡ total completed_time s.tasks
  stopped_late : s.stopped ≡ true → total running_tasks s.tasks ≡ 0

all_done-running : (ts : List Timed) → all_done ts ≡ true → total running_tasks ts ≡ 0
all_done-running [] h = refl
all_done-running (t ∷ ts) h = ground (arith, all_done-running ts)

time_split :
    (ts : List Timed)
    → total cancellations ts ≡ 0
    → total completed_time ts + total running_time ts ≡ total (λ t. t.duration) ts
time_split [] c = omega arith
time_split (t ∷ ts) c = ground (arith, time_split ts)

-- What a goroutine of a task does to the state.
ended_task :
    (i : ℕ) (s : Tasks) {s' : Tasks}
    → complete_task i s ≡ some s'
    → (t : Timed) × (ts : List Timed) × (get_elem? s.tasks i ≡ some t)
      × (t.status ≡ running)
      × (set? s.tasks i (record t { status = completed }) ≡ some ts)
      × (s' ≡ record s { tasks = ts; total_time = s.total_time + t.duration })
unfolding complete_task
ended_task i s h = elim (Option-cases (get_elem? s.tasks i)) [
  | inl e ↦ absurd (ground (arith, h, e))
  | inr (t, e) ↦ elim (Option-cases (set? s.tasks i (record t { status = completed }))) [
    | inl g ↦ absurd (ground (arith, h, e, g))
    | inr (ts, g) ↦ (t, ts, e, ground (arith, h, e, g), g, ground (arith, h, e, g))
  ]
]

cancelled_task :
    (i : ℕ) (s : Tasks) {s' : Tasks}
    → cancel_task i s ≡ some s'
    → (t : Timed) × (get_elem? s.tasks i ≡ some t) × (t.status ≡ running) × (s.stopped ≡ true)
unfolding cancel_task
cancelled_task i s h = elim (Option-cases (get_elem? s.tasks i)) [
  | inl e ↦ absurd (ground (arith, h, e))
  | inr (t, e) ↦ (t, e, ground (arith, h, e), ground (arith, h, e))
]

running_counted :
    (ts : List Timed) (i : ℕ) {t : Timed}
    → get_elem? ts i ≡ some t
    → t.status ≡ running
    → 0 < total running_tasks ts
running_counted [] i h r = cc h
running_counted (t ∷ ts) zero h r = ground arith
running_counted (t ∷ ts) (suc i) h r = ground (arith, running_counted ts i h r)

happen-IsTimed :
    (goal : ℕ) (e : Event) (s : Tasks) {s' : Tasks}
    → IsTimed goal s
    → happen e s ≡ some s'
    → IsTimed goal s'
unfolding happen monitor_tasks
happen-IsTimed goal (time_over i) s k h =
    let (t, ts, at, run, put, q) = ended_task i s h in
    let t' : Timed = record t { status = completed } in
    record {
      durations_kept =
          ground (arith, q, k.durations_kept, total-set? (λ t. t.duration) s.tasks i t t' at put);
      none_cancelled =
          ground (arith, q, run, k.none_cancelled, total-set? cancellations s.tasks i t t' at put);
      time_counted =
          ground (arith, q, run, k.time_counted, total-set? completed_time s.tasks i t t' at put);
      stopped_late =
          λ c. absurd (ground (arith, q, running_counted s.tasks i at run, k.stopped_late));
    }
happen-IsTimed goal (see_cancel i) s k h =
    let (t, at, run, c) = cancelled_task i s h in
    absurd (ground (arith, running_counted s.tasks i at run, k.stopped_late c))
happen-IsTimed goal monitor s k h = record {
  durations_kept = ground (arith, h, k.durations_kept);
  none_cancelled = ground (arith, h, k.none_cancelled);
  time_counted = ground (arith, h, k.time_counted);
  stopped_late = λ c. ground (arith, h, all_done-running s.tasks);
}

start-IsTimed : (durations : List ℕ) → IsTimed (total (λ d. d) durations) (start_tasks durations)
unfolding start_tasks
start-IsTimed [] = record {
  durations_kept = refl;
  none_cancelled = refl;
  time_counted = refl;
  stopped_late = λ c. cc c;
}
start-IsTimed (d ∷ ds) =
    let k = start-IsTimed ds in
    record {
      durations_kept = omega (arith, k.durations_kept);
      none_cancelled = omega (arith, k.none_cancelled);
      time_counted = omega (arith, k.time_counted);
      stopped_late = λ c. cc c;
    }

-- However the tasks and the monitor take turns, no task is ever cancelled, and the total and the
-- durations of the tasks that still run are together the durations of all tasks.
pub timed_lem :
    (durations : List ℕ) (es : List Event) {s : Tasks}
    → runs happen es (start_tasks durations) ≡ some s
    → (total cancellations s.tasks ≡ 0)
      × (s.total_time + total running_time s.tasks ≡ total (λ d. d) durations)
timed_lem durations es {s} h =
    let goal = total (λ d. d) durations in
    let k =
      runs-keeps happen (IsTimed goal) (λ e s s' k h. happen-IsTimed goal e s k h) es
        (start_tasks durations) (start-IsTimed durations) h in
    (
      k.none_cancelled,
      omega (arith, k.time_counted, time_split s.tasks k.none_cancelled, k.durations_kept),
    )
