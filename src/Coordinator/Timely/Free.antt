-- ===== src/Coordinator/Timely/Free.antt =====
-- With reports in time the coordinator never blocks.
use mathlib.Core.Path.{subst}
use major_assignments.Common.{
  ◌==◌, if◌then◌else◌, Bool-cases, set?, Returns, set?-lt, length, get_elem?, String, ℕ, zero, suc,
  ◌+◌, ◌≤◌, ◌<◌, ◌≡◌, refl, sym, ap, inl, inr, true, false, some, List, [], ◌∷◌, ◌++◌, arith,
}
use major_assignments.Coordinator.{
  TaskPhase, map_phase, reduce_phase, running, Task, TaskState, Coordinator, same_phase,
  receive_task, assign_task, make_coordinator,
}
use major_assignments.Coordinator.Invariant.{
  task_count, IsTask, AllTasks, IsSound, AllTasks-moved, queue_cases, states-IsSound,
  receive_task-IsSound, make_coordinator-IsSound,
}
use major_assignments.Coordinator.Timely.{is_ready, ready_at, queued, AllOf, IsTimely}
use major_assignments.Coordinator.Timely.Queue.{
  queued-append, AllOf-append, AllOf-left, AllOf-right, AllTasks-left, AllTasks-right,
  AllTasks-append, queued_none, ready_le, ready-set?,
}

same_phase_refl : (p : TaskPhase) → same_phase p p ≡ true
same_phase_refl map_phase = refl
same_phase_refl reduce_phase = refl

pub none_of : (p : TaskPhase) (ts : List Task) → ((j : ℕ) → queued j ts ≤ 0) → AllOf p ts
none_of p ts h = rw (queued_none ts h) tt

pub ready_of :
    (vs : List TaskState) (i : ℕ) {v : TaskState}
    → get_elem? vs i ≡ some v
    → ready_at vs i ≡ (if is_ready v.status then 1 else 0)
ready_of [] i h = absurd (cc h)
ready_of (x ∷ vs) zero h = ground arith
ready_of (x ∷ vs) (suc i) h = ready_of vs i h

pub start-IsTimely :
    (files : List String) (n_reduce : ℕ) → IsTimely (make_coordinator files n_reduce) []
unfolding make_coordinator
start-IsTimely files n_reduce = record {
  sound = make_coordinator-IsSound files n_reduce;
  room = ground arith;
  later_room = ground arith;
  free = refl;
  pending_ok = tt;
  queue_phases = tt;
  pending_phases = tt;
  once = λ j. omega arith;
}

pub receive_task-IsTimely :
    (c : Coordinator) (ts : List Task) {r : Task × Coordinator}
    → IsTimely c ts
    → receive_task c ≡ some r
    → IsTimely r.1 (r.0 ∷ ts)
unfolding receive_task
receive_task-IsTimely c ts {r} t h = elim (queue_cases c.task_chan) [
  | inl e ↦ absurd (ground arith)
  | inr (task, rest, e) ↦
      let c1 = record c { task_chan = rest } in
      let eq : r ≡ (task, c1) = ground arith in
      let (sound, is_task) = receive_task-IsSound c t.sound h in
      let phases : AllOf c.task_phase (task ∷ rest) = subst (AllOf c.task_phase) e t.queue_phases in
      subst (λ x. IsTimely x.1 (x.0 ∷ ts)) (sym eq)
        (record {
          sound = subst (λ x. IsSound x.1) eq sound;
          room = t.room;
          later_room = t.later_room;
          free = t.free;
          pending_ok = (
            subst (λ x. IsTask x.1 x.0) eq is_task,
            AllTasks-moved c c1 ts refl refl t.pending_ok,
          );
          queue_phases = phases.1;
          pending_phases = (phases.0, t.pending_phases);
          once = λ j. omega (arith, t.once j, ap (queued j) e);
        })
]

-- The table is replaced, and no task in the queue or pending loses its mark.
pub states-IsTimely :
    (c : Coordinator) (states : List TaskState) (ts ts' : List Task)
    → IsTimely c ts
    → length states ≡ length c.task_states
    → AllTasks c ts'
    → AllOf c.task_phase ts'
    → ((j : ℕ) → queued j c.task_chan + queued j ts' ≤ ready_at states j)
    → IsTimely (record c { task_states = states }) ts'
states-IsTimely c states ts ts' t size a p once = record {
  sound = states-IsSound c states t.sound size;
  room = t.room;
  later_room = t.later_room;
  free = t.free;
  pending_ok = AllTasks-moved c (record c { task_states = states }) ts' refl refl a;
  queue_phases = t.queue_phases;
  pending_phases = p;
  once = once;
}

assigned :
    (worker now : ℕ) (task : Task) (c : Coordinator) {states : List TaskState}
    → task.alive ≡ true
    → c.locked ≡ false
    → same_phase task.phase c.task_phase ≡ true
    → set? c.task_states task.seq
        (record { status = running; worker_id = worker; start_time = now })
      ≡ some states
    → assign_task worker now task c ≡ some (record c { task_states = states }, false)
unfolding assign_task
assigned worker now task c a l p q = ground (arith, a, l, p, q)

passed_over :
    (worker now : ℕ) (task : Task) (c : Coordinator)
    → task.alive ≡ false
    → assign_task worker now task c ≡ some (c, false)
unfolding assign_task
passed_over worker now task c a = ground (arith, a)

pub assign_task-IsTimely :
    (worker now : ℕ) (c : Coordinator) (before behind : List Task) (task : Task)
    → IsTimely c (before ++ task ∷ behind)
    → Returns (assign_task worker now task c) (λ r. (r.1 ≡ false) × IsTimely r.0 (before ++ behind))
assign_task-IsTimely worker now c before behind task t =
    let ts' = before ++ behind in
    let mine = AllTasks-right c before (task ∷ behind) t.pending_ok in
    let phase = AllOf-right c.task_phase before (task ∷ behind) t.pending_phases in
    let others : AllTasks c ts' =
      AllTasks-append c before behind (AllTasks-left c before (task ∷ behind) t.pending_ok)
        mine.1 in
    let phases : AllOf c.task_phase ts' =
      AllOf-append c.task_phase before behind
        (AllOf-left c.task_phase before (task ∷ behind) t.pending_phases) phase.1 in
    let split : (j : ℕ)
        → queued j (before ++ task ∷ behind) ≡ (if task.seq == j then 1 else 0) + queued j ts' =
      λ j. omega (arith, queued-append j before (task ∷ behind), queued-append j before behind) in
    let v : TaskState = record { status = running; worker_id = worker; start_time = now } in
    let low : task.seq < length c.task_states = omega (
      arith,
      subst (λ p. task.seq < task_count c p) (phase.0) (mine.0.in_range),
      t.sound.states_length,
    ) in
    let (states, q, size) = set?-lt c.task_states task.seq v low in
    let agree : same_phase task.phase c.task_phase ≡ true =
      rw (phase.0) (same_phase_refl c.task_phase) in
    elim (Bool-cases task.alive) [
      | inr e ↦ rw (passed_over worker now task c e) (
        refl,
        states-IsTimely c c.task_states (before ++ task ∷ behind) ts' t refl others phases
            (λ j. omega (arith, t.once j, split j)),
      )
      | inl e ↦ rw (assigned worker now task c e t.free agree q) (
        refl,
        states-IsTimely c states (before ++ task ∷ behind) ts' t size others phases (λ j.
            elim (Bool-cases (task.seq == j)) [
              | inl same ↦
                  let gone : ready_at states j ≡ 0 =
                    rw same at (ready-set? c.task_states task.seq v q j) in
                  let own : queued j (before ++ task ∷ behind) ≡ 1 + queued j ts' =
                    rw same at (split j) in
                  omega (arith, gone, own, t.once j, ready_le c.task_states j)
              | inr other ↦
                  let kept : ready_at states j ≡ ready_at c.task_states j =
                    rw other at (ready-set? c.task_states task.seq v q j) in
                  omega (arith, kept, split j, t.once j)
            ]),
      )
    ]
