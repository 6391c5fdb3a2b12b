-- ===== src/Worker/WholeJob.antt =====
-- Map tasks that workers do, each as often as the coordinator hands it out, and a reduce task after
-- them.
use mathlib.Core.Path.{subst}
use major_assignments.Common.{
  ◌==◌, if◌then◌else◌, ==→eq, eq→==, Bool-cases, ◌>>=◌, Returns, Returns-some, Returns-map,
  contains, length, get_elem?, String, ℕ, ◌%◌, ◌<◌, ◌≡◌, refl, sym, ap, ◌∙◌, ◌≢◌, ◌⊎◌, inl, inr,
  true, Option, none, some, List, [], ◌∷◌, arith,
}
use major_assignments.Coordinator.{map_phase, Task, Coordinator}
use major_assignments.Coordinator.Invariant.{IsTask, AllTasks}
use major_assignments.Worker.{
  KeyValue, Job, Calls, Disk, ihash, do_map_task, gather, reduce_lines, do_reduce_task,
}
use major_assignments.Worker.Loop.{do_task, do_all}
use major_assignments.Worker.MapTask.{only, IsGood, do_map_task_lem}
use major_assignments.Worker.Shuffle.{grouped, all_values, shuffle}

-- What a worker does with a task that the coordinator has made.
abbrev pub job_of : Task → Job
job_of task = record {
  file_name = task.file_name;
  seq = task.seq;
  n_map = task.n_map;
  n_reduce = task.n_reduce;
}

abbrev pub map_on :
    (String → ℕ) → Calls → (String → String → List KeyValue) → Task → Disk → Option Disk
map_on sum32 io map_f task disk = do_map_task sum32 io map_f (job_of task) disk >>= λ r. some r.0

-- A reduce task leaves the files of the map tasks alone.
abbrev pub reduce_on : Task → Disk → Option Disk
reduce_on task disk = some disk

abbrev pub AllMaps : List Task → Type 0
AllMaps [] = Unit
AllMaps (t ∷ ts) = (t.phase ≡ map_phase) × AllMaps ts

abbrev pub seqs : List Task → List ℕ
seqs [] = []
seqs (t ∷ ts) = t.seq ∷ seqs ts

-- What the map function emits for file `i` of the coordinator.
abbrev pub output_of :
    Coordinator → (String → String → List KeyValue) → (String → String) → ℕ → List KeyValue
output_of c map_f text i = elim (get_elem? c.files i) [
  | none ↦ []
  | some name ↦ map_f name (text name)
]

abbrev pub reduce_job : Coordinator → ℕ → Job
reduce_job c r = record { file_name = ""; seq = r; n_map = length c.files; n_reduce = c.n_reduce }

-- A result that satisfies each of many properties satisfies all.
for_all :
    {A : Type 0} {P : String → A → Type 0} (o : Option A)
    → ((key : String) → Returns o (P key))
    → (a : A) × (o ≡ some a) × ((key : String) → P key a)
for_all none h = absurd (h "")
for_all (some a) h = (a, refl, h)

module _ (sum32 : String → ℕ) (io : Calls) (map_f : String → String → List KeyValue)
    (text : String → String) (c : Coordinator) (pos : 0 < c.n_reduce) (good : IsGood io)
    (reads : (name : String) → io.read_file name ≡ some (text name)) where
  -- The partitions of a map task are on disk.
  abbrev IsDone : Disk → ℕ → Type 0
  IsDone disk i =
      (k : ℕ)
      → k < c.n_reduce
      → disk i k ≡ some (only sum32 c.n_reduce k (output_of c map_f text i))

  output_named :
      (i : ℕ) (name : String)
      → get_elem? c.files i ≡ some name
      → output_of c map_f text i ≡ map_f name (text name)
  output_named i name h = rw (h, output_of) refl

  map_on-IsDone :
      (task : Task) (disk : Disk)
      → IsTask c task
      → task.phase ≡ map_phase
      → Returns (map_on sum32 io map_f task disk) (λ disk'.
        IsDone disk' task.seq × ((i : ℕ) → i ≢ task.seq → (k : ℕ) → disk' i k ≡ disk i k))
  map_on-IsDone task disk t p =
      let cont = text task.file_name in
      let (r, e, (_, mine, others)) = Returns-some (do_map_task sum32 io map_f (job_of task) disk) (
        do_map_task_lem sum32 io map_f (job_of task) disk cont (omega (arith, t.sizes.1)) good
          (reads task.file_name)) in
      rw e (
        λ k lt.
            mine k (omega (arith, t.sizes.1))
            ∙ ap (λ m. some (only sum32 m k (map_f task.file_name cont))) (t.sizes.1)
            ∙ ap (λ kvs. some (only sum32 c.n_reduce k kvs))
                (sym (output_named task.seq task.file_name (t.named p))),
        λ i ne k. others i k ne,
      )

  -- A task that has been done, now or before, stays done.
  tasks-IsDone :
      (tasks : List Task) (disk : Disk)
      → AllTasks c tasks
      → AllMaps tasks
      → Returns
          (do_all (map_on sum32 io map_f) reduce_on tasks disk)
          (λ disk'. (i : ℕ) → (contains i (seqs tasks) ≡ true) ⊎ IsDone disk i → IsDone disk' i)
  unfolding do_all do_task
  tasks-IsDone [] disk a m = λ i h. elim h [ inl e ↦ absurd (cc e) | inr d ↦ d ]
  tasks-IsDone (t ∷ ts) disk a m =
      let (disk1, e, (mine, others)) =
        Returns-some (map_on sum32 io map_f t disk) (map_on-IsDone t disk a.0 m.0) in
      let kept : (i : ℕ)
          → (contains i (seqs (t ∷ ts)) ≡ true) ⊎ IsDone disk i
          → (contains i (seqs ts) ≡ true) ⊎ IsDone disk1 i =
        λ i h. elim (Bool-cases (i == t.seq)) [
          | inl same ↦ inr (subst (IsDone disk1) (sym (==→eq i t.seq same)) mine)
          | inr ne ↦ elim h [
            | inl q ↦ inl (rw ne at q)
            | inr d ↦ inr (λ k lt. others i (λ p. cc (ne, eq→== i t.seq p)) k ∙ d k lt)
          ]
        ] in
      rw (m.0, e)
        (Returns-map (λ disk' all i h. all i (kept i h))
          (do_all (map_on sum32 io map_f) reduce_on ts disk1) (tasks-IsDone ts disk1 a.1 m.1))

  reduce_text :
      (reduce_f : String → List String → String)
      (visit : List (String × List String) → List (String × List String)) (r : ℕ) (disk : Disk)
      {maps : List (String × List String)}
      → gather (length c.files) 0 r disk [] ≡ some maps
      → io.writes ≡ true
      → do_reduce_task io reduce_f visit (reduce_job c r) disk
        ≡ (some (reduce_lines reduce_f (visit maps)), true ∷ [])
  unfolding do_reduce_task
  reduce_text reduce_f visit r disk e w = ground (arith, e, w)

  -- The whole job: if workers do map tasks that the coordinator has made, one after the other, in
  -- any order and each any number of times, but every file's at least once, and no call on the
  -- files fails, then no task panics, and the reduce task `r` after them reports success, once, and
  -- writes a line for each key of a table that has, under each key that hashes to `r`, all values
  -- which the map function emits for it, in the order of the files, and under any other key none.
  pub job_lem :
      (reduce_f : String → List String → String)
      (visit : List (String × List String) → List (String × List String)) (tasks : List Task)
      (disk : Disk) (r : ℕ)
      → r < c.n_reduce
      → io.writes ≡ true
      → AllTasks c tasks
      → AllMaps tasks
      → ((i : ℕ) → i < length c.files → contains i (seqs tasks) ≡ true)
      → Returns (do_all (map_on sum32 io map_f) reduce_on tasks disk) (λ disk'.
        (maps : List (String × List String)) × (do_reduce_task io reduce_f visit
            (reduce_job c r)
            disk'
          ≡ (some (reduce_lines reduce_f (visit maps)), true ∷ []))
        × ((key : String)
            → grouped key maps ≡ (
                if ihash sum32 key % c.n_reduce == r
                then all_values key (output_of c map_f text) 0 (length c.files)
                else [])))
  job_lem reduce_f visit tasks disk r lt writes a m every =
      Returns-map
        (λ disk' all.
          let found = λ (key : String).
            shuffle sum32 c.n_reduce (length c.files) r (output_of c map_f text) disk' key
              (λ i below. all i (inl (every i below)) r lt) in
          let (maps, e, all_found) = for_all (gather (length c.files) 0 r disk' []) found in
          (maps, reduce_text reduce_f visit r disk' e writes, all_found))
        (do_all (map_on sum32 io map_f) reduce_on tasks disk) (tasks-IsDone tasks disk a m)
