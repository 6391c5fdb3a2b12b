-- ===== src/Examples/Tasks.antt =====
-- A coordinator with two files and one reduce task.
use major_assignments.Common.{Returns, ◌≡◌, refl, true, false, none, [], ◌∷◌, arith}
use major_assignments.Coordinator.{
  map_phase, reduce_phase, Task, Coordinator, ReportTaskArgs, fresh_state, new_one_task, send_task,
  scan_states, scan_task_state, receive_task, assign_task, get_one_task, report_task,
  make_coordinator,
}
use major_assignments.Coordinator.Deadlock.{Call, perform, get_one_task_deadlock}
use major_assignments.Coordinator.Invariant.{IsSound}
use major_assignments.Coordinator.Timely.{IsOnTime, TimelyReach, starts, takes, notes, tells, looks}
use major_assignments.Coordinator.Timely.Reached.{AllNoted, never_blocks}
use major_assignments.Examples.Peers.{left}
use major_assignments.Worker.Loop.{report_args}
use major_assignments.Worker.System.{JobReach, begins, receives, scans, received_task_lem}

abbrev start_state : Coordinator
start_state = make_coordinator ("a" ∷ "b" ∷ []) 1

abbrev map_task : Task
map_task = record {
  file_name = "a";
  phase = map_phase;
  seq = 0;
  n_map = 2;
  n_reduce = 1;
  alive = true;
}

abbrev scanned : Coordinator
scanned = left start_state (scan_task_state 0 start_state)

abbrev report : ReportTaskArgs
report = record { worker_id = 3; phase = map_phase; seq = 0; done = true }

-- The reduce phase, with a map task that was queued again and is still in the queue.
abbrev reducing : Coordinator
reducing = record start_state {
  task_phase = reduce_phase;
  task_states = fresh_state ∷ [];
  task_chan = map_task ∷ [];
}

get_one_task_deadlock_example :
    Returns
      (get_one_task 3 9 reducing)
      (λ r. (r.2 ≡ true) × (perform (Call.report report) r.0 ≡ none))
unfolding make_coordinator
get_one_task_deadlock_example =
    get_one_task_deadlock 3 9 map_task [] reducing (Call.report report) refl refl refl refl tt

abbrev first_received : Task × Coordinator
first_received = left (map_task, scanned) (receive_task scanned)

first_received-JobReach : JobReach ("a" ∷ "b" ∷ []) 1 first_received.1 (first_received.0 ∷ [])
unfolding make_coordinator scan_task_state scan_states new_one_task send_task receive_task
first_received-JobReach = receives {r = first_received} (scans 0 {c' = scanned} begins refl) refl

received_task_lem_example :
    Returns (assign_task 3 9 first_received.0 first_received.1) (λ r. IsSound r.0)
    × Returns (report_task (report_args 3 first_received.0 true) first_received.1) IsSound
unfolding make_coordinator scan_task_state scan_states new_one_task send_task receive_task
received_task_lem_example =
    received_task_lem 3 9 0 true first_received.0 first_received-JobReach refl refl

abbrev assigned_first : Coordinator
assigned_first =
    (left (first_received.1, false) (assign_task 3 9 first_received.0 first_received.1)).0

abbrev reported_first : Coordinator
reported_first = left assigned_first (report_task report assigned_first)

abbrev second_received : Task × Coordinator
second_received = left (map_task, reported_first) (receive_task reported_first)

report-IsOnTime : IsOnTime assigned_first report
unfolding make_coordinator scan_task_state scan_states new_one_task send_task receive_task
    assign_task
report-IsOnTime v p e w = ground arith

second_received-TimelyReach :
    TimelyReach ("a" ∷ "b" ∷ []) 1 second_received.1 (second_received.0 ∷ [])
unfolding make_coordinator scan_task_state scan_states new_one_task send_task receive_task
    assign_task report_task
second_received-TimelyReach =
    takes {r = second_received}
      (tells report {c' = reported_first}
        (notes 3 9 [] [] first_received.0 {r = (assigned_first, false)}
          (takes {r = first_received} (looks 0 {c' = scanned} starts refl) refl) refl refl)
        report-IsOnTime refl)
      refl

never_blocks_example :
    (second_received.1.locked ≡ false)
    × Returns (scan_task_state 9 second_received.1) (λ c. c.locked ≡ false)
    × AllNoted 4 9 second_received.1 (second_received.0 ∷ [])
never_blocks_example = never_blocks 4 9 second_received-TimelyReach
