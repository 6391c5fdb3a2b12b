-- ===== src/Coordinator/Invariant.antt =====
-- The shape of the coordinator's state, and that every operation keeps it.
use mathlib.Core.Path.{subst}
use major_assignments.Common.{
  if◌then◌else◌, Bool-cases, Returns, set?-lt, length, get_elem?, length-replicate, get_elem?-lt,
  String, ℕ, ◌≤◌, ◌<◌, ◌≡◌, refl, sym, ap, ◌∙◌, ◌⊎◌, inl, inr, true, false, some, List, [], ◌∷◌,
  ◌++◌, arith,
}
use major_assignments.Coordinator.{
  TaskPhase, map_phase, reduce_phase, running, terminated, error, Task, TaskState, Coordinator,
  ReportTaskArgs, same_phase, fresh_state, new_one_task, receive_task, assign_task, report_task,
  make_coordinator,
}

-- The number of tasks of a phase.
abbrev pub task_count : Coordinator → TaskPhase → ℕ
task_count c map_phase = length c.files
task_count c reduce_phase = c.n_reduce

-- A queued task has a number of its phase; a map task names its file.
pub record IsTask (c : Coordinator) (t : Task) : Type 0 where
  pub in_range : t.seq < task_count c t.phase
  pub named : t.phase ≡ map_phase → get_elem? c.files t.seq ≡ some t.file_name
  pub sizes : (t.n_map ≡ length c.files) × (t.n_reduce ≡ c.n_reduce)

abbrev pub AllTasks : Coordinator → List Task → Type 0
AllTasks c [] = Unit
AllTasks c (t ∷ ts) = IsTask c t × AllTasks c ts

pub record IsSound (c : Coordinator) : Type 0 where
  pub states_length : length c.task_states ≡ task_count c c.task_phase
  pub queue_ok : AllTasks c c.task_chan
  pub queue_fits : length c.task_chan ≤ c.chan_cap

pub AllTasks-snoc :
    (c : Coordinator) (ts : List Task) (t : Task)
    → AllTasks c ts
    → IsTask c t
    → AllTasks c (ts ++ t ∷ [])
AllTasks-snoc c [] t h g = (g, tt)
AllTasks-snoc c (x ∷ ts) t h g = (h.0, AllTasks-snoc c ts t h.1 g)

pub new_one_task-IsTask :
    (c : Coordinator) (k : ℕ) {t : Task}
    → k < task_count c c.task_phase
    → new_one_task c k ≡ some t
    → IsTask c t
unfolding new_one_task
new_one_task-IsTask c k lt h = ground arith

IsTask-moved :
    (c c' : Coordinator) (t : Task)
    → c'.files ≡ c.files
    → c'.n_reduce ≡ c.n_reduce
    → IsTask c t
    → IsTask c' t
IsTask-moved c c' t f n h = record {
  in_range =
      elim t.phase as (λ p. t.seq < task_count c p → t.seq < task_count c' p) [
        | map_phase ↦ λ l. ground arith
        | reduce_phase ↦ λ l. ground arith
      ]
        h.in_range;
  named = λ m. ap (λ xs. get_elem? xs t.seq) f ∙ h.named m;
  sizes = (h.sizes.0 ∙ sym (ap length f), h.sizes.1 ∙ sym n);
}

pub AllTasks-moved :
    (c c' : Coordinator) (ts : List Task)
    → c'.files ≡ c.files
    → c'.n_reduce ≡ c.n_reduce
    → AllTasks c ts
    → AllTasks c' ts
AllTasks-moved c c' [] f n h = tt
AllTasks-moved c c' (t ∷ ts) f n h = (IsTask-moved c c' t f n h.0, AllTasks-moved c c' ts f n h.1)

pub queue_cases : (ts : List Task) → (ts ≡ []) ⊎ ((t : Task) × (rest : List Task) × (ts ≡ t ∷ rest))
queue_cases [] = inl refl
queue_cases (t ∷ rest) = inr (t, rest, refl)

same_phase-count :
    (c : Coordinator) (p q : TaskPhase) → same_phase p q ≡ true → task_count c p ≡ task_count c q
same_phase-count c map_phase map_phase h = refl
same_phase-count c map_phase reduce_phase h = cc
same_phase-count c reduce_phase map_phase h = cc
same_phase-count c reduce_phase reduce_phase h = refl

-- The table is replaced by one that is as long.
pub states-IsSound :
    (c : Coordinator) (states : List TaskState)
    → IsSound c
    → length states ≡ length c.task_states
    → IsSound (record c { task_states = states })
states-IsSound c states s l = record {
  states_length = l ∙ s.states_length;
  queue_ok = AllTasks-moved c (record c { task_states = states }) c.task_chan refl refl s.queue_ok;
  queue_fits = s.queue_fits;
}

-- What is received from the queue of a sound state is a task of this coordinator, and the state that
-- is left is sound.
pub receive_task-IsSound :
    (c : Coordinator) {r : Task × Coordinator}
    → IsSound c
    → receive_task c ≡ some r
    → IsSound r.1 × IsTask r.1 r.0
unfolding receive_task
receive_task-IsSound c {r} s h = elim (queue_cases c.task_chan) [
  | inl e ↦ absurd (ground arith)
  | inr w ↦
      let (task, rest, e) = w in
      let both : AllTasks c (task ∷ rest) = subst (AllTasks c) e s.queue_ok in
      let moved = record c { task_chan = rest } in
      let eq : r ≡ (task, moved) = ground arith in
      subst (λ x. IsSound x.1 × IsTask x.1 x.0) (sym eq)
        (
          record {
            states_length = s.states_length;
            queue_ok = AllTasks-moved c moved rest refl refl both.1;
            queue_fits = ground (arith, s.queue_fits);
          },
          IsTask-moved c moved task refl refl both.0,
        )
]

-- `ReportTask` does not panic and keeps the state sound, if the mutex is free and the number in the
-- report is one of the phase that it names.
pub report_task-IsSound :
    (args : ReportTaskArgs) (c : Coordinator)
    → IsSound c
    → c.locked ≡ false
    → args.seq < task_count c args.phase
    → Returns (report_task args c) IsSound
unfolding report_task
report_task-IsSound args c s l lt = elim (Bool-cases (same_phase c.task_phase args.phase)) [
  | inl e ↦
      let same = same_phase-count c c.task_phase args.phase e in
      let (v, p) = get_elem?-lt c.task_states args.seq (ground (arith, same, s.states_length)) in
      let v' : TaskState = record v { status = if args.done then terminated else error } in
      let (states, q, len) =
        set?-lt c.task_states args.seq v' (ground (arith, same, s.states_length)) in
      ground (arith, p, q, s, states-IsSound c states s len)
  | inr e ↦ ground (arith, s)
]

-- `GetOneTask`, once it has a task, writes within the table of states and keeps the state sound, if
-- the mutex is free and the task was made by this coordinator.
pub assign_task-IsSound :
    (worker now : ℕ) (task : Task) (c : Coordinator)
    → IsSound c
    → c.locked ≡ false
    → IsTask c task
    → Returns (assign_task worker now task c) (λ r. IsSound r.0)
unfolding assign_task
assign_task-IsSound worker now task c s l t =
    elim (Bool-cases (same_phase task.phase c.task_phase)) [
      | inl e ↦
          let same = same_phase-count c task.phase c.task_phase e in
          let v : TaskState = record { status = running; worker_id = worker; start_time = now } in
          let (states, q, len) =
            set?-lt c.task_states task.seq v (ground (arith, same, t.in_range, s.states_length)) in
          ground (arith, q, s, states-IsSound c states s len)
      | inr e ↦
          let kept : IsSound (record c { locked = true }) = record {
            states_length = s.states_length;
            queue_ok =
                AllTasks-moved c (record c { locked = true }) c.task_chan refl refl s.queue_ok;
            queue_fits = s.queue_fits;
          } in
          ground (arith, kept, s)
    ]

-- The coordinator begins in a sound state.
pub make_coordinator-IsSound :
    (files : List String) (n_reduce : ℕ) → IsSound (make_coordinator files n_reduce)
unfolding make_coordinator
make_coordinator-IsSound files n_reduce = record {
  states_length = length-replicate (length files) fresh_state;
  queue_ok = tt;
  queue_fits = omega arith;
}
