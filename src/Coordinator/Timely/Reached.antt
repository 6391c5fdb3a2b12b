-- ===== src/Coordinator/Timely/Reached.antt =====
-- Every state that is reached with reports in time, and what the coordinator answers there.
use mathlib.Core.Path.{subst}
use mathlib.Core.List.{append_assoc}
use major_assignments.Common.{
  ◌==◌, if◌then◌else◌, ==→eq, Bool-cases, Option-cases, Returns, Returns-some, Returns-map,
  returned, set?-lt, get_elem?, replicate, get_elem?-ge, String, ℕ, ◌+◌, ◌≤◌, ◌≡◌, refl, sym, inl,
  inr, true, false, some, List, [], ◌∷◌, ◌++◌, arith,
}
use major_assignments.Coordinator.{
  reduce_phase, terminated, error, Task, TaskState, Coordinator, ReportTaskArgs, is_map, same_phase,
  fresh_state, Scanned, scan_states, scan_task_state, assign_task, reg_worker, report_task,
}
use major_assignments.Coordinator.Invariant.{AllTasks-moved}
use major_assignments.Coordinator.Scan.{phase_cases}
use major_assignments.Coordinator.ScanSound.{scan_task_state-IsSound}
use major_assignments.Coordinator.Timely.{
  IsOnTime, TimelyReach, starts, takes, notes, tells, looks, joins, is_ready, ready_at, queued,
  IsTimely,
}
use major_assignments.Coordinator.Timely.Free.{
  none_of, ready_of, start-IsTimely, receive_task-IsTimely, states-IsTimely, assign_task-IsTimely,
}
use major_assignments.Coordinator.Timely.Queue.{ready_le, ready-set?}
use major_assignments.Coordinator.Timely.Scans.{IsScanned, scan_states-IsScanned}

report_task-IsTimely :
    (args : ReportTaskArgs) (c : Coordinator) (ts : List Task) {c' : Coordinator}
    → IsTimely c ts
    → IsOnTime c args
    → report_task args c ≡ some c'
    → IsTimely c' ts
unfolding report_task
report_task-IsTimely args c ts {c'} t on_time h =
    elim (Bool-cases (same_phase c.task_phase args.phase)) [
      | inr e ↦ subst (λ x. IsTimely x ts) {x = c} (ground (arith, t.free)) t
      | inl e ↦ elim (Option-cases (get_elem? c.task_states args.seq)) [
        | inl n ↦ absurd (ground (arith, t.free))
        | inr (v, p) ↦ elim (Bool-cases (v.worker_id == args.worker_id)) [
          | inr w ↦ subst (λ x. IsTimely x ts) {x = c} (ground (arith, t.free)) t
          | inl w ↦
              let v' : TaskState = record v { status = if args.done then terminated else error } in
              let runs = on_time v p e (==→eq v.worker_id args.worker_id w) in
              let (states, q, size) =
                set?-lt c.task_states args.seq v'
                  (ground (arith, p, get_elem?-ge c.task_states args.seq)) in
              let unready : is_ready v'.status ≡ false = ground arith in
              let was : ready_at c.task_states args.seq ≡ 0 =
                ground (arith, ready_of c.task_states args.seq p, runs) in
              subst (λ x. IsTimely x ts) {x = record c { task_states = states }}
                (ground (arith, t.free, q))
                (states-IsTimely c states ts ts t size t.pending_ok t.pending_phases (λ j.
                  elim (Bool-cases (args.seq == j)) [
                    | inl same ↦
                        let old : ready_at c.task_states j ≡ 0 =
                          subst (λ k. ready_at c.task_states k ≡ 0) (==→eq args.seq j same) was in
                        omega (arith, old, t.once j)
                    | inr other ↦
                        let kept : ready_at states j ≡ ready_at c.task_states j =
                          rw other at (ready-set? c.task_states args.seq v' q j) in
                        omega (arith, kept, t.once j)
                  ]))
        ]
      ]
    ]

registered-IsTimely :
    (c : Coordinator) (ts : List Task) {r : Coordinator × ℕ}
    → IsTimely c ts
    → reg_worker c ≡ some r
    → IsTimely r.0 ts
unfolding reg_worker
registered-IsTimely c ts {r} t h =
    let c1 = record c { worker_seq = c.worker_seq + 1 } in
    subst (λ x. IsTimely x ts) {x = c1} (ground (arith, t.free))
      (record {
        sound = record {
          states_length = t.sound.states_length;
          queue_ok = AllTasks-moved c c1 c.task_chan refl refl t.sound.queue_ok;
          queue_fits = t.sound.queue_fits;
        };
        room = t.room;
        later_room = t.later_room;
        free = t.free;
        pending_ok = AllTasks-moved c c1 ts refl refl t.pending_ok;
        queue_phases = t.queue_phases;
        pending_phases = t.pending_phases;
        once = t.once;
      })

scan_ended :
    (now : ℕ) (c : Coordinator) → c.locked ≡ false → c.done ≡ true → scan_task_state now c ≡ some c
unfolding scan_task_state
scan_ended now c l d = ground (arith, l, d)

module _ (now : ℕ) (c : Coordinator) (r : Scanned) (l : c.locked ≡ false) (d : c.done ≡ false)
    (q : scan_states now c 0 c.task_states c.task_chan ≡ some r) where
  scan_goes_on :
      r.all_done ≡ false
      → scan_task_state now c ≡ some (record c { task_states = r.states; task_chan = r.chan })
  unfolding scan_task_state
  scan_goes_on e = ground (arith, l, d, q, e)

  scan_to_reduce :
      r.all_done ≡ true
      → is_map c.task_phase ≡ true
      → scan_task_state now c
        ≡ some (record c {
          task_chan = r.chan;
          task_phase = reduce_phase;
          task_states = replicate c.n_reduce fresh_state;
        })
  unfolding scan_task_state
  scan_to_reduce e m = ground (arith, l, d, q, e, m)

  scan_to_end :
      r.all_done ≡ true
      → is_map c.task_phase ≡ false
      → scan_task_state now c
        ≡ some (record c { task_states = r.states; task_chan = r.chan; done = true })
  unfolding scan_task_state
  scan_to_end e m = ground (arith, l, d, q, e, m)

-- The end of a scan.
finish_scan-IsTimely :
    (now : ℕ) (c : Coordinator) (ts : List Task) (r : Scanned)
    → IsTimely c ts
    → c.done ≡ false
    → scan_states now c 0 c.task_states c.task_chan ≡ some r
    → IsScanned c 0 c.task_chan ts r
    → Returns (scan_task_state now c) (λ c'. IsTimely c' ts)
finish_scan-IsTimely now c ts r t d q h =
    let gone : r.all_done ≡ true → (j : ℕ) → queued j r.chan + queued j ts ≤ 0 = λ e j.
      let at : 0 + j ≡ j = omega arith in
      omega (arith, rw at at (h.still_once j), h.none_ready e j) in
    let c1 = record c { task_states = r.states; task_chan = r.chan } in
    elim (Bool-cases r.all_done) [
      | inr e ↦
          let eq = scan_goes_on now c r t.free d q e in
          rw eq (record {
            sound = scan_task_state-IsSound now c t.sound eq;
            room = t.room;
            later_room = t.later_room;
            free = t.free;
            pending_ok = AllTasks-moved c c1 ts refl refl t.pending_ok;
            queue_phases = h.one_phase;
            pending_phases = t.pending_phases;
            once = λ j. let at : 0 + j ≡ j = omega arith in rw at at (h.still_once j);
          })
      | inl e ↦ elim (phase_cases c.task_phase) [
        | inl m ↦
            let eq = scan_to_reduce now c r t.free d q e (m.0) in
            let c2 = record c1 {
              task_phase = reduce_phase;
              task_states = replicate c.n_reduce fresh_state;
            } in
            rw eq (record {
              sound = scan_task_state-IsSound now c t.sound eq;
              room = t.later_room;
              later_room = t.later_room;
              free = t.free;
              pending_ok = AllTasks-moved c c2 ts refl refl t.pending_ok;
              queue_phases = none_of reduce_phase r.chan (λ j. omega (arith, gone e j));
              pending_phases = none_of reduce_phase ts (λ j. omega (arith, gone e j));
              once = λ j. omega (arith, gone e j);
            })
        | inr m ↦
            let eq = scan_to_end now c r t.free d q e (m.0) in
            let c3 = record c1 { done = true } in
            rw eq (record {
              sound = scan_task_state-IsSound now c t.sound eq;
              room = t.room;
              later_room = t.later_room;
              free = t.free;
              pending_ok = AllTasks-moved c c3 ts refl refl t.pending_ok;
              queue_phases = h.one_phase;
              pending_phases = t.pending_phases;
              once = λ j. let at : 0 + j ≡ j = omega arith in rw at at (h.still_once j);
            })
      ]
    ]

scan_task_state-IsTimely :
    (now : ℕ) (c : Coordinator) (ts : List Task)
    → IsTimely c ts
    → Returns (scan_task_state now c) (λ c'. IsTimely c' ts)
scan_task_state-IsTimely now c ts t = elim (Bool-cases c.done) [
  | inl d ↦ rw (scan_ended now c t.free d) t
  | inr d ↦
      let (r, q, h) = Returns-some (scan_states now c 0 c.task_states c.task_chan) (
        scan_states-IsScanned now c ts t.room 0 c.task_states c.task_chan t.sound.queue_ok
          t.queue_phases (omega (arith, t.sound.states_length))
          (λ j. omega (arith, t.once j, ready_le c.task_states j))
          (λ j. let at : 0 + j ≡ j = omega arith in rw at (t.once j))) in
      finish_scan-IsTimely now c ts r t d q h
]

TimelyReach-IsTimely :
    {files : List String} {n_reduce : ℕ} {c : Coordinator} {ts : List Task}
    → TimelyReach files n_reduce c ts
    → IsTimely c ts
TimelyReach-IsTimely starts = start-IsTimely _ _
TimelyReach-IsTimely (takes {c} {ts} r h) = receive_task-IsTimely c ts (TimelyReach-IsTimely r) h
TimelyReach-IsTimely (notes worker now before behind task {c} r e h) =
    (returned (λ x. (x.1 ≡ false) × IsTimely x.0 (before ++ behind))
      (assign_task-IsTimely worker now c before behind task
        (subst (IsTimely c) e (TimelyReach-IsTimely r)))
      h).1
TimelyReach-IsTimely (tells args {c} {ts = ts} r o h) =
    report_task-IsTimely args c ts (TimelyReach-IsTimely r) o h
TimelyReach-IsTimely (looks now {c} {ts = ts} r h) =
    returned (λ x. IsTimely x ts) (scan_task_state-IsTimely now c ts (TimelyReach-IsTimely r)) h
TimelyReach-IsTimely (joins {c} {ts} r h) = registered-IsTimely c ts (TimelyReach-IsTimely r) h

-- Each of the tasks is noted when its worker comes, with no error and with the mutex released.
abbrev pub AllNoted : ℕ → ℕ → Coordinator → List Task → Type 0
AllNoted worker now c [] = Unit
AllNoted worker now c (t ∷ ts) =
    Returns (assign_task worker now t c) (λ r. (r.1 ≡ false) × (r.0.locked ≡ false))
    × AllNoted worker now c ts

all_noted :
    (worker now : ℕ) (c : Coordinator) (before ts : List Task)
    → IsTimely c (before ++ ts)
    → AllNoted worker now c ts
all_noted worker now c before [] t = tt
all_noted worker now c before (task ∷ ts) t = (
  Returns-map (λ r h. (h.0, h.1.free)) (assign_task worker now task c)
      (assign_task-IsTimely worker now c before ts task t),
  all_noted worker now c (before ++ task ∷ []) ts
      (subst (IsTimely c) (sym (append_assoc before (task ∷ []) ts)) t),
)

-- In every state that the coordinator reaches with workers whose reports come while their task is
-- still running by the table: the mutex is free, a scan returns, so that the queue has room for
-- what it puts there, and every task that was received and is not noted yet can be noted, with no
-- error and with the mutex released.
pub never_blocks :
    {files : List String} {n_reduce : ℕ} {c : Coordinator} {ts : List Task} (worker now : ℕ)
    → TimelyReach files n_reduce c ts
    → (c.locked ≡ false)
      × Returns (scan_task_state now c) (λ c'. c'.locked ≡ false)
      × AllNoted worker now c ts
never_blocks {c = c} {ts = ts} worker now r =
    let t = TimelyReach-IsTimely r in
    (
      t.free,
      Returns-map (λ c' h. h.free) (scan_task_state now c) (scan_task_state-IsTimely now c ts t),
      all_noted worker now c [] ts t,
    )
