-- ===== src/Examples/Programs.antt =====
-- Runs of the channel exercises.
use major_assignments.Common.{
  length, ℕ, zero, suc, ◌+◌, ◌≤◌, ◌≡◌, refl, ◌⊎◌, true, false, none, some, List, [], ◌∷◌, arith,
}
use major_assignments.Exercises.Aggregate.{aggregate}
use major_assignments.Exercises.Aggregate.Columns.{columns, aggregate_lem}
use major_assignments.Exercises.Counter.{
  outside, loaded, Worker, Counter, Action, lock, load, store, unlock, read_lock, read_value,
  read_unlock, step_lock, step_load, step_store, step_unlock, step_read_lock, step_read,
  step_read_unlock, act, start_counter,
}
use major_assignments.Exercises.Counter.Exact.{counter_lem}
use major_assignments.Exercises.Counter.Writers.{in_section}
use major_assignments.Exercises.ProducerConsumer.{
  Move, buffer, Program, produce, consume, close_channel, leave, step_produce, step_consume,
  step_close, step_leave, go_on, step, start_program,
}
use major_assignments.Exercises.ProducerConsumer.Conserved.{unsent, copies, work}
use major_assignments.Exercises.ProducerConsumer.Ends.{waiting, runs_lem, stuck_lem}
use major_assignments.Exercises.Runs.{runs}
use major_assignments.Exercises.Timed.{
  completed, Tasks, time_over, monitor, complete_task, monitor_tasks, happen, start_tasks,
}
use major_assignments.Exercises.Timed.Never.{cancellations, running_time, timed_lem}
use major_assignments.Exercises.Totals.{total, count}
use major_assignments.Exercises.WordCount.{
  map_phase, reduce_phase, MapReduce, Turn, send_length, add_length, close_results, return_total,
  turn, map_reduce,
}
use major_assignments.Exercises.WordCount.Sum.{total_len, map_reduce_lem}

abbrev items : List (List ℕ)
items = (5 ∷ 6 ∷ []) ∷ (7 ∷ []) ∷ []

abbrev moves : List Move
moves =
    produce 0
    ∷ produce 1
    ∷ consume 1
    ∷ produce 0
    ∷ close_channel
    ∷ consume 0
    ∷ consume 0
    ∷ leave 0
    ∷ leave 1
    ∷ []

abbrev over : Program
over = record {
  producers = [] ∷ [] ∷ [];
  channel = [];
  closed = true;
  consumers =
      record { taken = 6 ∷ 7 ∷ []; ended = true } ∷ record { taken = 5 ∷ []; ended = true } ∷ [];
  crashed = false;
}

runs_lem_example :
    (over.crashed ≡ false)
    × ((over.closed ≡ false) ⊎ (unsent over ≡ 0))
    × (length over.channel ≤ buffer)
    × ((a : ℕ) → copies a over ≡ copies a (start_program items 2))
    × (length moves + work over ≤ work (start_program items 2))
    × (length over.consumers ≡ length (start_program items 2).consumers)
unfolding runs step go_on step_produce step_consume step_close step_leave start_program
runs_lem_example = runs_lem items 2 moves {s = over} refl

no_more : (m : Move) → step m over ≡ none
unfolding step go_on step_produce step_consume step_close step_leave
no_more (produce zero) = refl
no_more (produce (suc zero)) = refl
no_more (produce (suc (suc i))) = refl
no_more (consume zero) = refl
no_more (consume (suc zero)) = refl
no_more (consume (suc (suc i))) = refl
no_more close_channel = refl
no_more (leave zero) = refl
no_more (leave (suc zero)) = refl
no_more (leave (suc (suc i))) = refl

stuck_lem_example :
    (waiting over ≡ 0)
    × ((a : ℕ) → total (λ c. count a c.taken) over.consumers ≡ total (count a) items)
unfolding runs step go_on step_produce step_consume step_close step_leave start_program
stuck_lem_example = stuck_lem items 2 moves {s = over} (omega arith) refl no_more

aggregate_lem_example : aggregate 3 items ≡ some (columns 0 2 items)
aggregate_lem_example = aggregate_lem 2 items refl

abbrev summed : MapReduce
summed = record {
  words = [];
  results = [];
  capacity = 2;
  closed = true;
  total_length = 5;
  finished = true;
}

abbrev turns : List Turn
turns = send_length ∷ add_length ∷ send_length ∷ close_results ∷ add_length ∷ return_total ∷ []

map_reduce_lem_example :
    ((summed.finished ≡ false) ⊎ (summed.total_length ≡ total_len ("abc" ∷ "de" ∷ [])))
    × ((summed.words ≡ []) ⊎ ((s' : MapReduce) × (turn send_length summed ≡ some s')))
unfolding runs turn map_phase reduce_phase map_reduce
map_reduce_lem_example = map_reduce_lem ("abc" ∷ "de" ∷ []) turns {s = summed} refl

abbrev durations : List ℕ
durations = 4_000_000_000 ∷ 5_000_000_000 ∷ 5_000_000_000 ∷ []

-- The limit of ten seconds is passed, and nothing is cancelled.
abbrev timed_over : Tasks
timed_over = record {
  tasks =
      record { duration = 4_000_000_000; status = completed }
      ∷ record { duration = 5_000_000_000; status = completed }
      ∷ record { duration = 5_000_000_000; status = completed }
      ∷ [];
  total_time = 14_000_000_000;
  stopped = true;
}

timed_lem_example :
    (total cancellations timed_over.tasks ≡ 0)
    × (timed_over.total_time + total running_time timed_over.tasks ≡ total (λ d. d) durations)
unfolding runs happen complete_task monitor_tasks start_tasks
timed_lem_example =
    timed_lem durations (time_over 1 ∷ time_over 0 ∷ time_over 2 ∷ monitor ∷ []) {s = timed_over}
      refl

abbrev acts : List Action
acts =
    read_lock 0
    ∷ read_value 0
    ∷ read_unlock 0
    ∷ lock 1
    ∷ load 1
    ∷ store 1
    ∷ unlock 1
    ∷ lock 0
    ∷ load 0
    ∷ []

-- One increment is made, one has its value loaded, and one is to come.
abbrev halfway : Counter
halfway = record {
  count = 1;
  write_locked = true;
  read_locks = 0;
  writers = record { left = 2; phase = loaded 1 } ∷ record { left = 0; phase = outside } ∷ [];
  readers = record { left = 4; phase = outside } ∷ [];
  values = 0 ∷ [];
}

counter_lem_example :
    (1 + total (λ (w : Worker). w.left) halfway.writers ≡ 3)
    × (total in_section halfway.writers ≤ 1)
    × ((total in_section halfway.writers ≡ 0) ⊎ (total in_section halfway.readers ≡ 0))
unfolding runs act step_lock step_load step_store step_unlock step_read_lock step_read
    step_read_unlock start_counter
counter_lem_example = counter_lem (5 ∷ []) (2 ∷ 1 ∷ []) acts {s = halfway} refl
