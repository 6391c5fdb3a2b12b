-- ===== src/Coordinator/ScanSound.antt =====
-- A scan keeps the state sound.
use mathlib.Core.Path.{subst}
use major_assignments.Common.{
  if◌then◌else◌, Bool-cases, ◌>>=◌, >>=-eq-some, length, replicate, length-append, length-replicate,
  ℕ, suc, ◌+◌, ◌≤◌, ◌<◌, ◌≡◌, refl, sym, ap, ◌∙◌, inl, inr, true, ◌&&◌, some, List, [], ◌∷◌, ◌++◌,
  arith,
}
use major_assignments.Coordinator.{
  reduce_phase, ready, Task, TaskState, Coordinator, is_terminated, fresh_state, new_one_task,
  is_requeued, send_task, Scanned, scan_states, scan_task_state,
}
use major_assignments.Coordinator.Invariant.{
  task_count, AllTasks, IsSound, AllTasks-snoc, new_one_task-IsTask, AllTasks-moved,
}
use major_assignments.Coordinator.Scan.{finish_scan, phase_cases}

-- What one task does to the queue.
queue_step :
    (now : ℕ) (c : Coordinator) (k : ℕ) (v : TaskState) (chan : List Task) {chan' : List Task}
    → k < task_count c c.task_phase
    → AllTasks c chan
    → length chan ≤ c.chan_cap
    → (if is_requeued now v
        then (new_one_task c k >>= λ task. send_task c.chan_cap task chan)
        else some chan)
      ≡ some chan'
    → AllTasks c chan' × (length chan' ≤ c.chan_cap)
unfolding send_task
queue_step now c k v chan {chan'} lt all fits h = elim (Bool-cases (is_requeued now v)) [
  | inl e ↦
      let opened : (new_one_task c k >>= λ t. send_task c.chan_cap t chan) ≡ some chan' =
        ground (arith, h, e) in
      let (t, p, q) = >>=-eq-some (new_one_task c k) (λ t. send_task c.chan_cap t chan) opened in
      let is_task = new_one_task-IsTask c k lt p in
      let sent : chan' ≡ chan ++ t ∷ [] = ground (arith, q) in
      (
        subst (AllTasks c) (sym sent) (AllTasks-snoc c chan t all is_task),
        ground (arith, q, length-append chan (t ∷ [])),
      )
  | inr e ↦
      let same : chan' ≡ chan = ground (arith, h, e) in
      (subst (AllTasks c) (sym same) all, ground (arith, same))
]

scan_states-AllTasks :
    (now : ℕ) (c : Coordinator) (k : ℕ) (vs : List TaskState) (chan : List Task) {r : Scanned}
    → k + length vs ≤ task_count c c.task_phase
    → AllTasks c chan
    → length chan ≤ c.chan_cap
    → scan_states now c k vs chan ≡ some r
    → AllTasks c r.chan × (length r.chan ≤ c.chan_cap) × (length r.states ≡ length vs)
unfolding scan_states
scan_states-AllTasks now c k [] chan {r} le all fits h =
    let same : r ≡ record { states = []; chan = chan; all_done = true } = ground arith in
    (
      subst (λ (x : Scanned). AllTasks c x.chan) (sym same) all,
      ground (arith, same),
      ground (arith, same),
    )
scan_states-AllTasks now c k (v ∷ vs) chan {r} le all fits h =
    let (chan', p, q) =
      >>=-eq-some
        (if is_requeued now v
          then (new_one_task c k >>= λ task. send_task c.chan_cap task chan)
          else some chan)
        (λ chan'. scan_states now c (suc k) vs chan' >>= λ rest. some (record {
          states = (if is_requeued now v then record v { status = ready } else v) ∷ rest.states;
          chan = rest.chan;
          all_done = is_terminated v.status && rest.all_done;
        }))
        h in
    let (all', fits') = queue_step now c k v chan (omega arith) all fits p in
    let (rest, p', q') = >>=-eq-some (scan_states now c (suc k) vs chan') _ q in
    let (tasks, room, size) =
      scan_states-AllTasks now c (suc k) vs chan' (omega arith) all' fits' p' in
    let made : Scanned = record {
      states = (if is_requeued now v then record v { status = ready } else v) ∷ rest.states;
      chan = rest.chan;
      all_done = is_terminated v.status && rest.all_done;
    } in
    let same : made ≡ r = ground (arith, q') in
    subst
      (λ (x : Scanned).
        AllTasks c x.chan × (length x.chan ≤ c.chan_cap) × (length x.states ≡ suc (length vs)))
      same (tasks, room, ap suc size)

-- The end of a scan.
finish_scan-IsSound :
    (c : Coordinator) (r : Scanned) {c' : Coordinator}
    → IsSound c
    → AllTasks c r.chan
    → length r.chan ≤ c.chan_cap
    → length r.states ≡ length c.task_states
    → finish_scan c r ≡ some c'
    → IsSound c'
finish_scan-IsSound c r {c'} s all fits size h =
    let c1 = record c { task_states = r.states; task_chan = r.chan } in
    elim (Bool-cases r.all_done) [
      | inr e ↦ subst IsSound {x = c1} (ground (arith, h, e)) (record {
        states_length = size ∙ s.states_length;
        queue_ok = AllTasks-moved c c1 r.chan refl refl all;
        queue_fits = fits;
      })
      | inl e ↦ elim (phase_cases c.task_phase) [
        | inl m ↦
            let c2 = record c1 {
              task_phase = reduce_phase;
              task_states = replicate c.n_reduce fresh_state;
            } in
            subst IsSound {x = c2} (ground (arith, h, e, m.0)) (record {
              states_length = length-replicate c.n_reduce fresh_state;
              queue_ok = AllTasks-moved c c2 r.chan refl refl all;
              queue_fits = fits;
            })
        | inr m ↦
            let c3 = record c1 { done = true } in
            subst IsSound {x = c3} (ground (arith, h, e, m.0)) (record {
              states_length = size ∙ s.states_length;
              queue_ok = AllTasks-moved c c3 r.chan refl refl all;
              queue_fits = fits;
            })
      ]
    ]

-- A scan that returns keeps the state sound.
pub scan_task_state-IsSound :
    (now : ℕ) (c : Coordinator) {c' : Coordinator}
    → IsSound c
    → scan_task_state now c ≡ some c'
    → IsSound c'
unfolding scan_task_state
scan_task_state-IsSound now c {c'} s h = elim (Bool-cases c.locked) [
  | inl e ↦ absurd (ground (arith, h, e))
  | inr e ↦ elim (Bool-cases c.done) [
    | inl d ↦ subst IsSound {x = c} (ground (arith, h, e, d)) s
    | inr d ↦
        let opened : (scan_states now c 0 c.task_states c.task_chan >>= finish_scan c) ≡ some c' =
          ground (arith, h, e, d) in
        let (r, p, q) =
          >>=-eq-some (scan_states now c 0 c.task_states c.task_chan) (finish_scan c) opened in
        let (all, fits, size) =
          scan_states-AllTasks now c 0 c.task_states c.task_chan (omega (arith, s.states_length))
            s.queue_ok s.queue_fits p in
        finish_scan-IsSound c r s all fits size q
  ]
]
