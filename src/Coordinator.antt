-- ===== src/Coordinator.antt =====
-- coordinator.go of the MapReduce assignment: the tasks, the queue and the RPC handlers. `locked` is
-- the mutex `muLock` between two calls; `none` is a call that does not return, since it panics, or
-- waits for the mutex or for the channel. Times are numbers that only grow. The functions on
-- `maptasks` and `reducetasks` in the same file use fields that `Coordinator` does not have, and have
-- no counterpart here.
pub mod Invariant
pub mod Scan
pub mod ScanSound
pub mod Deadlock
pub mod Timely
use major_assignments.Common.{
  ltb, ◌==◌, if◌then◌else◌, ◌>>=◌, set?, length, get_elem?, replicate, String, ℕ, suc, ◌+◌, ◌-◌,
  Bool, true, false, not, ◌&&◌, Option, none, some, List, [], ◌∷◌, ◌++◌,
}

pub data TaskPhase : Type 0 where
  map_phase reduce_phase : TaskPhase

-- `new` is the zero value.
pub data TaskStatus : Type 0 where
  new ready running terminated error : TaskStatus

pub record Task : Type 0 where
  pub file_name : String
  pub phase : TaskPhase
  pub seq : ℕ
  pub n_map : ℕ
  pub n_reduce : ℕ
  pub alive : Bool

pub record TaskState : Type 0 where
  pub status : TaskStatus
  pub worker_id : ℕ
  pub start_time : ℕ

pub record Coordinator : Type 0 where
  pub files : List String
  pub n_reduce : ℕ
  pub task_phase : TaskPhase
  pub task_states : List TaskState
  pub task_chan : List Task
  pub chan_cap : ℕ
  pub worker_seq : ℕ
  pub done : Bool
  pub locked : Bool

pub record ReportTaskArgs : Type 0 where
  pub worker_id : ℕ
  pub phase : TaskPhase
  pub seq : ℕ
  pub done : Bool

-- `time.Second * 5`, in nanoseconds.
abbrev pub max_task_running_time : ℕ
max_task_running_time = 5_000_000_000

abbrev pub is_map : TaskPhase → Bool
is_map map_phase = true
is_map reduce_phase = false

abbrev pub same_phase : TaskPhase → TaskPhase → Bool
same_phase map_phase p = is_map p
same_phase reduce_phase p = not (is_map p)

abbrev pub is_terminated : TaskStatus → Bool
is_terminated terminated = true
is_terminated _ = false

abbrev pub fresh_state : TaskState
fresh_state = record { status = new; worker_id = 0; start_time = 0 }

-- A task of the map phase carries the name of its file.
unfoldable pub new_one_task : Coordinator → ℕ → Option Task
new_one_task c seq = do
  name ← if is_map c.task_phase then get_elem? c.files seq else some ""
  some (record {
    file_name = name;
    phase = c.task_phase;
    seq = seq;
    n_map = length c.files;
    n_reduce = c.n_reduce;
    alive = true;
  })

-- Is the task put into the queue by a scan at the time `now`?
unfoldable pub is_requeued : ℕ → TaskState → Bool
is_requeued now v = elim v.status [
  | new ↦ true
  | ready ↦ false
  | running ↦ ltb max_task_running_time (now - v.start_time)
  | terminated ↦ false
  | error ↦ true
]

-- `c.taskChan <- task`
unfoldable pub send_task : ℕ → Task → List Task → Option (List Task)
send_task cap task chan = if ltb (length chan) cap then some (chan ++ task ∷ []) else none

pub record Scanned : Type 0 where
  pub states : List TaskState
  pub chan : List Task
  pub all_done : Bool

-- The loop of `scanTaskState` from task `k` on.
unfoldable pub scan_states : ℕ → Coordinator → ℕ → List TaskState → List Task → Option Scanned
unfolding is_requeued
scan_states now c k [] chan = some (record { states = []; chan = chan; all_done = true })
scan_states now c k (v ∷ vs) chan = do
  chan' ←
      if is_requeued now v
      then (new_one_task c k >>= λ task. send_task c.chan_cap task chan)
      else some chan
  rest ← scan_states now c (suc k) vs chan'
  some (record {
    states = (if is_requeued now v then record v { status = ready } else v) ∷ rest.states;
    chan = rest.chan;
    all_done = is_terminated v.status && rest.all_done;
  })

unfoldable pub scan_task_state : ℕ → Coordinator → Option Coordinator
scan_task_state now c = if c.locked then none else if c.done then some c else do
  r ← scan_states now c 0 c.task_states c.task_chan
  let c' = record c { task_states = r.states; task_chan = r.chan }
  if r.all_done
      then if is_map c.task_phase
        then some (record c' {
          task_phase = reduce_phase;
          task_states = replicate c.n_reduce fresh_state;
        })
        else some (record c' { done = true })
      else some c'

-- `task := <-c.taskChan`, with no lock.
unfoldable pub receive_task : Coordinator → Option (Task × Coordinator)
receive_task c = elim c.task_chan [
  | [] ↦ none
  | task ∷ rest ↦ some (task, record c { task_chan = rest })
]

-- The rest of `GetOneTask`; the flag says that it returns an error. On that path the mutex is not
-- released.
unfoldable pub assign_task : ℕ → ℕ → Task → Coordinator → Option (Coordinator × Bool)
assign_task worker now task c =
    if not task.alive
    then some (c, false)
    else if c.locked
    then none
    else if not (same_phase task.phase c.task_phase)
    then some (record c { locked = true }, true)
    else do
      states ←
          set? c.task_states task.seq
            (record { status = running; worker_id = worker; start_time = now })
      some (record c { task_states = states }, false)

unfoldable pub get_one_task : ℕ → ℕ → Coordinator → Option (Coordinator × Task × Bool)
unfolding receive_task assign_task
get_one_task worker now c = do
  (task, c1) ← receive_task c
  (c2, failed) ← assign_task worker now task c1
  some (c2, task, failed)

unfoldable pub reg_worker : Coordinator → Option (Coordinator × ℕ)
reg_worker c =
    if c.locked then none else some (record c { worker_seq = c.worker_seq + 1 }, c.worker_seq + 1)

-- The scan that it starts is another goroutine.
unfoldable pub report_task : ReportTaskArgs → Coordinator → Option Coordinator
report_task args c =
    if c.locked then none else if not (same_phase c.task_phase args.phase) then some c else do
      v ← get_elem? c.task_states args.seq
      if v.worker_id == args.worker_id
          then (do
            states ←
                set? c.task_states args.seq
                  (record v { status = if args.done then terminated else error })
            some (record c { task_states = states }))
          else some c

unfoldable pub is_done : Coordinator → Option Bool
is_done c = if c.locked then none else some c.done

unfoldable pub make_coordinator : List String → ℕ → Coordinator
make_coordinator files n_reduce = record {
  files = files;
  n_reduce = n_reduce;
  task_phase = map_phase;
  task_states = replicate (length files) fresh_state;
  task_chan = [];
  chan_cap = if ltb n_reduce (length files) then length files else n_reduce;
  worker_seq = 0;
  done = false;
  locked = false;
}

-- The loop of `schedule`, with the time of each round.
unfoldable pub schedule : List ℕ → Coordinator → Option Coordinator
unfolding is_done scan_task_state
schedule [] c = some c
schedule (now ∷ times) c = do
  ended ← is_done c
  if ended then some c else (scan_task_state now c >>= λ c'. schedule times c')
