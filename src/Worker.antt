-- ===== src/Worker.antt =====
-- worker.go of the MapReduce assignment. What a map or reduce function, the hash of the library
-- `hash/fnv` and the file system do is a parameter; the file `mr-kv-i-j` is the pair of its numbers,
-- and holds the pairs that were encoded. `none` is a panic. The reports that a task makes to the
-- coordinator are a list, in their order.
pub mod MapTask
pub mod Shuffle
pub mod Loop
pub mod System
pub mod WholeJob
use Prim.Native.String.{◌++◌ as join}
use major_assignments.Common.{
  ◌==◌, if◌then◌else◌, ◌>>=◌, set?, get_elem?, replicate, map_get, map_put, String, ℕ, zero, suc,
  ◌%◌, ◌^◌, Bool, true, false, ◌&&◌, Option, none, some, List, [], ◌∷◌, ◌++◌, nat_eq, string_eq,
}

pub record KeyValue : Type 0 where
  pub key : String
  pub value : String

-- The fields of a task that a worker reads.
pub record Job : Type 0 where
  pub file_name : String
  pub seq : ℕ
  pub n_map : ℕ
  pub n_reduce : ℕ

-- How the calls of the file system and of the encoder end, for one task.
pub record Calls : Type 0 where
  pub read_file : String → Option String
  pub creates : ℕ → Bool
  pub encodes : KeyValue → Bool
  pub closes : ℕ → Bool
  pub writes : Bool

-- The files `mr-kv-i-j`.
abbrev pub Disk : Type 0
Disk = ℕ → ℕ → Option (List KeyValue)

abbrev pub write_disk : ℕ → ℕ → List KeyValue → Disk → Disk
write_disk i j kvs disk a b = if a == i && b == j then some kvs else disk a b

-- The sign bit of the sum is cleared.
unfoldable pub ihash : (String → ℕ) → String → ℕ
ihash sum32 key = sum32 key % 2 ^ 31

-- `partions[pid] = append(partions[pid], kv)`
unfoldable pub append_at : ℕ → KeyValue → List (List KeyValue) → Option (List (List KeyValue))
append_at pid kv parts = do part ← get_elem? parts pid; set? parts pid (part ++ kv ∷ [])

-- The loop over the pairs; `% 0` panics.
unfoldable pub partition :
    (String → ℕ) → ℕ → List KeyValue → List (List KeyValue) → Option (List (List KeyValue))
unfolding ihash append_at
partition sum32 n [] parts = some parts
partition sum32 n (kv ∷ kvs) parts =
    if n == 0
    then none
    else do parts' ← append_at (ihash sum32 kv.key % n) kv parts; partition sum32 n kvs parts'

-- The inner loop: the pairs that are encoded, and a report for each that is not.
unfoldable pub encode_all : Calls → List KeyValue → List KeyValue × List Bool
encode_all io [] = ([], [])
encode_all io (kv ∷ kvs) =
    let rest = encode_all io kvs in
    if io.encodes kv then (kv ∷ rest.0, rest.1) else (rest.0, false ∷ rest.1)

-- The loop over the partitions from `k` on. The flag says that it ran to its end.
unfoldable pub write_parts : Calls → ℕ → ℕ → List (List KeyValue) → Disk → Disk × List Bool × Bool
unfolding encode_all
write_parts io seq k [] disk = (disk, [], true)
write_parts io seq k (part ∷ parts) disk =
    let encoded = encode_all io part in
    let rest = write_parts io seq (suc k) parts (write_disk seq k encoded.0 disk) in
    if io.creates k
    then (rest.0, encoded.1 ++ (if io.closes k then [] else false ∷ []) ++ rest.1, rest.2)
    else (disk, false ∷ [], false)

unfoldable pub do_map_task :
    (String → ℕ)
    → Calls
    → (String → String → List KeyValue)
    → Job
    → Disk
    → Option (Disk × List Bool)
do_map_task sum32 io map_f task disk = elim (io.read_file task.file_name) [
  | none ↦ some (disk, false ∷ [])
  | some cont ↦ do
    parts ← partition sum32 task.n_reduce (map_f task.file_name cont) (replicate task.n_reduce [])
    let r = write_parts io task.seq 0 parts disk
    some (r.0, if r.2 then r.1 ++ true ∷ [] else r.1)
]

-- `maps[kv.Key] = append(maps[kv.Key], kv.Value)`
unfoldable pub group_one : KeyValue → List (String × List String) → List (String × List String)
group_one kv maps = elim (map_get kv.key maps) [
  | none ↦ map_put kv.key (kv.value ∷ []) maps
  | some vs ↦ map_put kv.key (vs ++ kv.value ∷ []) maps
]

unfoldable pub group_all : List KeyValue → List (String × List String) → List (String × List String)
unfolding group_one
group_all [] maps = maps
group_all (kv ∷ kvs) maps = group_all kvs (group_one kv maps)

-- The loop over the map tasks: `k` files are left, of which `i` is the next.
unfoldable pub gather :
    ℕ → ℕ → ℕ → Disk → List (String × List String) → Option (List (String × List String))
unfolding group_all
gather zero i seq disk maps = some maps
gather (suc k) i seq disk maps = elim (disk i seq) [
  | none ↦ none
  | some kvs ↦ gather k (suc i) seq disk (group_all kvs maps)
]

-- `fmt.Sprintf("%v %v\n", k, len)` for each key, in the order in which Go visits the map.
unfoldable pub reduce_lines : (String → List String → String) → List (String × List String) → String
reduce_lines reduce_f [] = ""
reduce_lines reduce_f ((k, vs) ∷ rest) =
    join (join (join (join k " ") (reduce_f k vs)) "\n") (reduce_lines reduce_f rest)

-- The text of `mr-out-seq`, if it is written, and the reports.
unfoldable pub do_reduce_task :
    Calls
    → (String → List String → String)
    → (List (String × List String) → List (String × List String))
    → Job
    → Disk
    → Option String × List Bool
do_reduce_task io reduce_f visit task disk = elim (gather task.n_map 0 task.seq disk []) [
  | none ↦ (none, false ∷ [])
  | some maps ↦
      if io.writes
      then (some (reduce_lines reduce_f (visit maps)), true ∷ [])
      else (none, false ∷ true ∷ [])
]
