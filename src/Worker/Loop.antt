-- ===== src/Worker/Loop.antt =====
-- `run` and `doTask`: a worker takes tasks until it gets one that is not alive.
use major_assignments.Common.{
  if◌then◌else◌, Option-cases, ◌>>=◌, ℕ, ◌≡◌, refl, inl, inr, Bool, true, false, not, Option, none,
  some, List, [], ◌∷◌, ◌++◌,
}
use major_assignments.Coordinator.{map_phase, reduce_phase, Task, ReportTaskArgs}

-- What `reportTask` sends.
unfoldable pub report_args : ℕ → Task → Bool → ReportTaskArgs
report_args worker_id task done = record {
  worker_id = worker_id;
  phase = task.phase;
  seq = task.seq;
  done = done;
}

-- The tasks among the answers.
abbrev pub given : List (Option Task) → List Task
given [] = []
given (none ∷ answers) = given answers
given (some task ∷ answers) = task ∷ given answers

abbrev pub AllAlive : List (Option Task) → Type 0
AllAlive [] = Unit
AllAlive (none ∷ answers) = AllAlive answers
AllAlive (some task ∷ answers) = (task.alive ≡ true) × AllAlive answers

-- What the two kinds of tasks do to the world is a parameter.
module _ {S : Type 0} (do_map do_reduce : Task → S → Option S) where
  unfoldable pub do_task : Task → S → Option S
  do_task task s = elim task.phase [ map_phase ↦ do_map task s | reduce_phase ↦ do_reduce task s ]

  -- The answers of the coordinator, `none` for a call that fails. The flag says that the worker has
  -- left its loop.
  unfoldable pub run : List (Option Task) → S → Option (S × Bool)
  run [] s = some (s, false)
  run (none ∷ answers) s = run answers s
  run (some task ∷ answers) s =
      if not task.alive then some (s, true) else do s' ← do_task task s; run answers s'

  -- Every task in turn.
  unfoldable pub do_all : List Task → S → Option S
  do_all [] s = some s
  do_all (task ∷ tasks) s = do_task task s >>= λ s'. do_all tasks s'

  -- A worker whose answers are alive tasks and failed calls, then a task that is not alive, does all
  -- of the tasks in their order, passes over the failed calls, and leaves its loop, whatever answers
  -- would come after that.
  pub run_lem :
      (answers rest : List (Option Task)) (last : Task) (s : S)
      → AllAlive answers
      → last.alive ≡ false
      → run (answers ++ some last ∷ rest) s ≡ (do_all (given answers) s >>= λ s'. some (s', true))
  unfolding run do_all
  run_lem [] rest last s alive h = rw h refl
  run_lem (none ∷ answers) rest last s alive h = run_lem answers rest last s alive h
  run_lem (some task ∷ answers) rest last s alive h = elim (Option-cases (do_task task s)) [
    | inl e ↦ rw (e, alive.0) refl
    | inr w ↦ rw (w.1, alive.0) (run_lem answers rest last w.0 alive.1 h)
  ]
