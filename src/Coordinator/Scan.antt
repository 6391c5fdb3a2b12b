-- ===== src/Coordinator/Scan.antt =====
-- What a scan finds and leaves.
use major_assignments.Common.{
  if◌then◌else◌, length, get_elem?, replicate, ℕ, suc, ◌≡◌, refl, ◌⊎◌, inl, inr, true, false,
  Option, some, List, [], ◌∷◌, ◌++◌, map,
}
use major_assignments.Coordinator.{
  TaskPhase, map_phase, reduce_phase, ready, terminated, Task, TaskState, Coordinator, is_map,
  fresh_state, is_requeued, Scanned,
}

abbrev pub AllTerminated : List TaskState → Type 0
AllTerminated [] = Unit
AllTerminated (v ∷ vs) = (v.status ≡ terminated) × AllTerminated vs

-- Nothing is left to be queued: no task is new or failed, or runs beyond its time.
abbrev pub NoneWaits : ℕ → List TaskState → Type 0
NoneWaits now [] = Unit
NoneWaits now (v ∷ vs) = (is_requeued now v ≡ false) × NoneWaits now vs

-- The numbers of the tasks that wait, from task `k` on.
abbrev pub waiting_seqs : ℕ → ℕ → List TaskState → List ℕ
waiting_seqs now k [] = []
waiting_seqs now k (v ∷ vs) =
    let rest = waiting_seqs now (suc k) vs in if is_requeued now v then k ∷ rest else rest

-- Task `k` of the coordinator's phase.
abbrev pub IsTaskOf : Coordinator → ℕ → Task → Type 0
IsTaskOf c k t =
    (t.seq ≡ k)
    × (t.phase ≡ c.task_phase)
    × ((if is_map c.task_phase then get_elem? c.files k else some "") ≡ some t.file_name)
    × (t.n_map ≡ length c.files)
    × (t.n_reduce ≡ c.n_reduce)
    × (t.alive ≡ true)

abbrev pub AreTasksOf : Coordinator → List ℕ → List Task → Type 0
AreTasksOf c [] [] = Unit
AreTasksOf c [] (_ ∷ _) = ⊥
AreTasksOf c (_ ∷ _) [] = ⊥
AreTasksOf c (k ∷ ks) (t ∷ ts) = IsTaskOf c k t × AreTasksOf c ks ts

-- A task that waits is ready in the queue after the scan, and every other is as it was.
abbrev pub after_scan : ℕ → TaskState → TaskState
after_scan now v = if is_requeued now v then record v { status = ready } else v

abbrev pub IsQueued : ℕ → Coordinator → ℕ → List TaskState → List Task → List Task → Type 0
IsQueued now c k vs chan chan' =
    (ts : List Task) × (chan' ≡ chan ++ ts) × AreTasksOf c (waiting_seqs now k vs) ts

record IsScan (now : ℕ) (c : Coordinator) (k : ℕ) (vs : List TaskState) (chan : List Task)
    (r : Scanned) : Type 0 where
  states_after : r.states ≡ map (after_scan now) vs
  queued : IsQueued now c k vs chan r.chan
  none_waits : NoneWaits now r.states
  all_if : r.all_done ≡ true → AllTerminated vs
  all_only_if : AllTerminated vs → r.all_done ≡ true

abbrev pub finish_scan : Coordinator → Scanned → Option Coordinator
finish_scan c r =
    let c' = record c { task_states = r.states; task_chan = r.chan } in
    if r.all_done
    then if is_map c.task_phase
      then some
          (record c' { task_phase = reduce_phase; task_states = replicate c.n_reduce fresh_state })
      else some (record c' { done = true })
    else some c'

pub phase_cases :
    (p : TaskPhase)
    → ((is_map p ≡ true) × (p ≡ map_phase)) ⊎ ((is_map p ≡ false) × (p ≡ reduce_phase))
phase_cases map_phase = inl (refl, refl)
phase_cases reduce_phase = inr (refl, refl)
