-- ===== src/Examples/WholeJob.antt =====
-- A job of two files and two reduce tasks, with one map task done twice.
use Prim.Native.String.{len}
use major_assignments.Common.{
  ◌==◌, if◌then◌else◌, Returns, contains, String, ℕ, zero, suc, ◌%◌, ◌<◌, ◌≡◌, refl, true, some,
  List, [], ◌∷◌, arith,
}
use major_assignments.Coordinator.{map_phase, Task, Coordinator, make_coordinator}
use major_assignments.Coordinator.Invariant.{IsTask, AllTasks}
use major_assignments.Examples.Jobs.{words, good_calls, empty_disk, good_calls-IsGood}
use major_assignments.Worker.{ihash, reduce_lines, do_reduce_task}
use major_assignments.Worker.Loop.{do_all}
use major_assignments.Worker.Shuffle.{grouped, all_values}
use major_assignments.Worker.WholeJob.{map_on, reduce_on, seqs, output_of, reduce_job, job_lem}

abbrev two_files : Coordinator
two_files = make_coordinator ("a" ∷ "b" ∷ []) 2

abbrev task_for : String → ℕ → Task
task_for name seq = record {
  file_name = name;
  phase = map_phase;
  seq = seq;
  n_map = 2;
  n_reduce = 2;
  alive = true;
}

abbrev done_tasks : List Task
done_tasks = task_for "b" 1 ∷ task_for "a" 0 ∷ task_for "b" 1 ∷ []

abbrev file_text : String → String
file_text _ = "a bb a"

-- A mark for a key that has a value.
abbrev mark_key : String → List String → String
mark_key key [] = ""
mark_key key (v ∷ vs) = "1"

done_tasks-AllTasks : AllTasks two_files done_tasks
unfolding make_coordinator
done_tasks-AllTasks =
    let second : IsTask two_files (task_for "b" 1) = record {
      in_range = omega arith;
      named = λ _. refl;
      sizes = (refl, refl);
    } in
    let first : IsTask two_files (task_for "a" 0) = record {
      in_range = omega arith;
      named = λ _. refl;
      sizes = (refl, refl);
    } in
    (second, (first, (second, tt)))

every_file : (i : ℕ) → i < 2 → contains i (seqs done_tasks) ≡ true
every_file zero h = refl
every_file (suc zero) h = refl
every_file (suc (suc i)) h = absurd (omega arith)

job_lem_example :
    Returns (do_all (map_on len good_calls words) reduce_on done_tasks empty_disk) (λ disk.
      (maps : List (String × List String)) × (do_reduce_task good_calls mark_key
          (λ m. m)
          (reduce_job two_files 1)
          disk
        ≡ (some (reduce_lines mark_key maps), true ∷ []))
      × ((key : String)
          → grouped key maps ≡ (
              if ihash len key % 2 == 1
              then all_values key (output_of two_files words file_text) 0 2
              else [])))
unfolding make_coordinator
job_lem_example =
    job_lem len good_calls words file_text two_files (omega arith) good_calls-IsGood (λ _. refl)
      mark_key (λ m. m) done_tasks empty_disk 1 (omega arith) refl done_tasks-AllTasks
      (refl, (refl, (refl, tt))) every_file
