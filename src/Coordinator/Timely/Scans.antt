-- ===== src/Coordinator/Timely/Scans.antt =====
-- A scan in time: the queue has room for what it puts there.
use mathlib.Core.Path.{subst}
use major_assignments.Common.{
  ◌==◌, if◌then◌else◌, lt→ltb, ==→eq, eq→==, Bool-cases, Returns, Returns-some, length,
  get_elem?-lt, String, ℕ, zero, suc, ◌+◌, ◌≤◌, ◌<◌, ◌≡◌, refl, sym, ◌∙◌, ◌≢◌, inl, inr, true,
  false, ◌&&◌, some, List, [], ◌∷◌, ◌++◌, arith,
}
use major_assignments.Coordinator.{
  map_phase, TaskStatus, ready, Task, TaskState, Coordinator, is_terminated, new_one_task,
  is_requeued, send_task, Scanned, scan_states,
}
use major_assignments.Coordinator.Invariant.{
  task_count, AllTasks, AllTasks-snoc, new_one_task-IsTask,
}
use major_assignments.Coordinator.Scan.{phase_cases}
use major_assignments.Coordinator.Timely.{is_ready, ready_at, queued, AllOf}
use major_assignments.Coordinator.Timely.Queue.{queued-append, AllOf-append, queued_fits}

map_below : (c : Coordinator) (k : ℕ) → k < task_count c map_phase → k < length c.files
map_below c k h = h

made_task :
    (c : Coordinator) (k : ℕ)
    → k < task_count c c.task_phase
    → (t : Task) × (new_one_task c k ≡ some t) × (t.seq ≡ k) × (t.phase ≡ c.task_phase)
unfolding new_one_task
made_task c k lt =
    let made : String → Task = λ name. record {
      file_name = name;
      phase = c.task_phase;
      seq = k;
      n_map = length c.files;
      n_reduce = c.n_reduce;
      alive = true;
    } in
    elim (phase_cases c.task_phase) [
      | inl m ↦
          let inside = map_below c k (subst (λ p. k < task_count c p) (m.1) lt) in
          let (name, p) = get_elem?-lt c.files k inside in (made name, rw (m.0, p) refl, refl, refl)
      | inr m ↦ (made "", rw (m.0) refl, refl, refl)
    ]

-- What a scan from task `k` on leaves.
pub record IsScanned (c : Coordinator) (k : ℕ) (chan pending : List Task) (r : Scanned)
    : Type 0 where
  pub all_tasks : AllTasks c r.chan
  pub one_phase : AllOf c.task_phase r.chan
  pub as_before : (j : ℕ) → j < k → queued j r.chan ≡ queued j chan
  pub still_once : (j : ℕ) → queued (k + j) r.chan + queued (k + j) pending ≤ ready_at r.states j
  pub none_ready : r.all_done ≡ true → (j : ℕ) → ready_at r.states j ≡ 0

-- One task more, in front of a scan from the next on.
IsScanned-step :
    (c : Coordinator) (k : ℕ) (chan chan' pending : List Task) (v v' : TaskState) (rest : Scanned)
    → ((j : ℕ) → j < k → queued j chan' ≡ queued j chan)
    → queued k chan' + queued k pending ≤ (if is_ready v'.status then 1 else 0)
    → (is_terminated v.status ≡ true → is_ready v'.status ≡ false)
    → IsScanned c (suc k) chan' pending rest
    → IsScanned c k chan pending (record {
      states = v' ∷ rest.states;
      chan = rest.chan;
      all_done = is_terminated v.status && rest.all_done;
    })
IsScanned-step c k chan chan' pending v v' rest below here_once ended h = record {
  all_tasks = h.all_tasks;
  one_phase = h.one_phase;
  as_before = λ j lt. h.as_before j (omega arith) ∙ below j lt;
  still_once = λ j.
      elim j
        as (λ j.
          queued (k + j) rest.chan + queued (k + j) pending ≤ ready_at (v' ∷ rest.states) j) [
            | zero ↦
                let at : k + 0 ≡ k = omega arith in
                rw at (omega (arith, h.as_before k (omega arith), here_once))
            | suc j ↦ let at : k + suc j ≡ suc k + j = omega arith in rw at (h.still_once j)
          ];
  none_ready = λ e j. elim j as (λ j. ready_at (v' ∷ rest.states) j ≡ 0) [
    | zero ↦ ground (arith, ended, e)
    | suc j ↦ h.none_ready (ground (arith, e)) j
  ];
}

requeued_unready :
    (now : ℕ) (v : TaskState)
    → is_requeued now v ≡ true
    → (is_ready v.status ≡ false) × (is_terminated v.status ≡ false)
unfolding is_requeued
requeued_unready now v e = ground arith

ended_unready : (s : TaskStatus) → is_terminated s ≡ true → is_ready s ≡ false
ended_unready s h = ground arith

one_else : (t : Task) (j : ℕ) → j ≢ t.seq → queued j (t ∷ []) ≡ 0
one_else t j ne = elim (Bool-cases (t.seq == j)) [
  | inl e ↦ absurd (ne (sym (==→eq t.seq j e)))
  | inr e ↦ rw e refl
]

module _ (chan pending : List Task) (t : Task)
    (none_yet : queued t.seq chan + queued t.seq pending ≤ 0)
    (low : (j : ℕ) → queued j chan + queued j pending ≤ 1) where
  sent_else : (j : ℕ) → j ≢ t.seq → queued j (chan ++ t ∷ []) ≡ queued j chan
  sent_else j ne = omega (arith, queued-append j chan (t ∷ []), one_else t j ne)

  sent_once : (j : ℕ) → queued j (chan ++ t ∷ []) + queued j pending ≤ 1
  sent_once j = elim (Bool-cases (t.seq == j)) [
    | inl e ↦
        let same = ==→eq t.seq j e in
        let none_here : queued j chan + queued j pending ≤ 0 =
          subst (λ i. queued i chan + queued i pending ≤ 0) same none_yet in
        let one : queued j (t ∷ []) ≤ 1 = rw e (omega arith) in
        omega (arith, queued-append j chan (t ∷ []), one, none_here)
    | inr e ↦ omega (arith, sent_else j (λ q. cc (e, eq→== t.seq j (sym q))), low j)
  ]

  in_front : (j : ℕ) → queued j (t ∷ chan) ≤ 1
  in_front j = omega (arith, queued-append j chan (t ∷ []), sent_once j)

module _ (now : ℕ) (c : Coordinator) (pending : List Task)
    (room : task_count c c.task_phase ≤ c.chan_cap) where
  pub scan_states-IsScanned :
      (k : ℕ) (vs : List TaskState) (chan : List Task)
      → AllTasks c chan
      → AllOf c.task_phase chan
      → k + length vs ≡ task_count c c.task_phase
      → ((j : ℕ) → queued j chan + queued j pending ≤ 1)
      → ((j : ℕ) → queued (k + j) chan + queued (k + j) pending ≤ ready_at vs j)
      → Returns (scan_states now c k vs chan) (IsScanned c k chan pending)
  unfolding scan_states send_task
  scan_states-IsScanned k [] chan a p size low high = record {
    all_tasks = a;
    one_phase = p;
    as_before = λ j lt. refl;
    still_once = high;
    none_ready = λ e j. refl;
  }
  scan_states-IsScanned k (v ∷ vs) chan a p size low high =
      let at : k + 0 ≡ k = omega arith in
      let head_le : queued k chan + queued k pending ≤ (if is_ready v.status then 1 else 0) =
        subst (λ i. queued i chan + queued i pending ≤ (if is_ready v.status then 1 else 0)) at
          (high 0) in
      let tail_le : (j : ℕ) → queued (suc k + j) chan + queued (suc k + j) pending ≤ ready_at vs j =
        λ j.
          let at : k + suc j ≡ suc k + j = omega arith in
          subst (λ i. queued i chan + queued i pending ≤ ready_at vs j) at (high (suc j)) in
      elim (Bool-cases (is_requeued now v)) [
        | inl e ↦
            let lt : k < task_count c c.task_phase = omega (arith, size) in
            let (unready, going) = requeued_unready now v e in
            let (t, made, seq, phase) = made_task c k lt in
            let none_yet : queued t.seq chan + queued t.seq pending ≤ 0 =
              rw seq (rw unready at head_le) in
            let is_task = new_one_task-IsTask c k lt made in
            let inside : length chan < c.chan_cap = omega (
              arith,
              queued_fits c c.task_phase (t ∷ chan) (is_task, a) (phase, p)
                  (in_front chan pending t none_yet low),
              room,
            ) in
            let chan' = chan ++ t ∷ [] in
            let kept : (j : ℕ) → j ≢ k → queued j chan' ≡ queued j chan =
              λ j ne. sent_else chan pending t none_yet low j (λ q. ne (q ∙ seq)) in
            let (rest, q, h) = Returns-some (scan_states now c (suc k) vs chan') (
              scan_states-IsScanned (suc k) vs chan' (AllTasks-snoc c chan t a is_task)
                (AllOf-append c.task_phase chan (t ∷ []) p (phase, tt)) (omega (arith, size))
                (sent_once chan pending t none_yet low)
                (λ j. omega (arith, kept (suc k + j) (λ q. omega arith), tail_le j))) in
            rw (e, made, lt→ltb (length chan) c.chan_cap inside, q)
              (IsScanned-step c k chan chan' pending v (record v { status = ready }) rest
                (λ j lt. kept j (λ q. omega arith)) (sent_once chan pending t none_yet low k)
                (λ w. cc (w, going)) h)
        | inr e ↦
            let (rest, q, h) =
              Returns-some (scan_states now c (suc k) vs chan)
                (scan_states-IsScanned (suc k) vs chan a p (omega (arith, size)) low tail_le) in
            rw (e, q)
              (IsScanned-step c k chan chan pending v v rest (λ j lt. refl) head_le
                (ended_unready v.status) h)
      ]
