-- ===== src/Worker/MapTask.antt =====
-- What a map task leaves on disk.
use mathlib.Core.List.{append-nil, append_assoc}
use native.Mathlib.Nat.{mod-lt}
use major_assignments.Common.{
  ◌==◌, if◌then◌else◌, ne→==, Bool-cases, set?, Returns, Returns-some, Returns-map, >>=-eq-some,
  set?-lt, length, get_elem?, replicate, length-replicate, get_elem?-lt, get_elem?-ge, String, ℕ,
  zero, suc, ◌+◌, ◌%◌, ◌<◌, ◌≡◌, refl, sym, ap, ◌∙◌, ◌≢◌, inl, inr, Bool, true, some, List, [], ◌∷◌,
  ◌++◌, arith,
}
use major_assignments.Worker.{
  KeyValue, Job, Calls, Disk, write_disk, ihash, append_at, partition, encode_all, write_parts,
  do_map_task,
}

-- The pairs of partition `k`, in their order.
abbrev pub only : (String → ℕ) → ℕ → ℕ → List KeyValue → List KeyValue
only sum32 n k [] = []
only sum32 n k (kv ∷ kvs) =
    if ihash sum32 kv.key % n == k then kv ∷ only sum32 n k kvs else only sum32 n k kvs

get_elem?-set? :
    {A : Type 0} (xs : List A) (i : ℕ) (v : A) {ys : List A}
    → set? xs i v ≡ some ys
    → (k : ℕ) → k < length xs
    → get_elem? ys k ≡ (if i == k then some v else get_elem? xs k)
get_elem?-set? [] i v h k lt = cc
get_elem?-set? (x ∷ xs) zero v h zero lt = ground arith
get_elem?-set? (x ∷ xs) zero v h (suc k) lt = ground arith
get_elem?-set? (x ∷ xs) (suc i) v h zero lt =
    let (zs, p, q) = >>=-eq-some (set? xs i v) (λ zs. some (x ∷ zs)) h in ground (arith, q)
get_elem?-set? (x ∷ xs) (suc i) v h (suc k) lt =
    let (zs, p, q) = >>=-eq-some (set? xs i v) (λ zs. some (x ∷ zs)) h in
    ground (arith, q, get_elem?-set? xs i v p k (omega arith))

append_at_lem :
    (pid : ℕ) (kv : KeyValue) (parts : List (List KeyValue))
    → pid < length parts
    → Returns (append_at pid kv parts) (λ r.
      (length r ≡ length parts)
      × ((k : ℕ) (p : List KeyValue)
          → get_elem? parts k ≡ some p
          → get_elem? r k ≡ some (if pid == k then p ++ kv ∷ [] else p)))
unfolding append_at
append_at_lem pid kv parts lt =
    let (part, p) = get_elem?-lt parts pid lt in
    let (ys, q, l) = set?-lt parts pid (part ++ kv ∷ []) lt in
    rw (p, q)
      (
        l,
        λ k old h.
            let inside : k < length parts = ground (arith, h, get_elem?-ge parts k) in
            elim (Bool-cases (pid == k)) [
              | inl e ↦ ground (arith, p, h, get_elem?-set? parts pid (part ++ kv ∷ []) q k)
              | inr e ↦ ground (arith, h, get_elem?-set? parts pid (part ++ kv ∷ []) q k inside)
            ],
      )

only_cons :
    (sum32 : String → ℕ) (n k : ℕ) (kv : KeyValue) (kvs old : List KeyValue)
    → (if ihash sum32 kv.key % n == k then old ++ kv ∷ [] else old) ++ only sum32 n k kvs
      ≡ old ++ only sum32 n k (kv ∷ kvs)
only_cons sum32 n k kv kvs old = elim (Bool-cases (ihash sum32 kv.key % n == k)) [
  | inl e ↦ rw e (append_assoc old (kv ∷ []) (only sum32 n k kvs))
  | inr e ↦ rw e refl
]

-- `doMapTask` puts each pair into the partition of its key's hash, behind those that are there.
partition_lem :
    (sum32 : String → ℕ) (n : ℕ) (kvs : List KeyValue) (parts : List (List KeyValue))
    → 0 < n
    → length parts ≡ n
    → Returns (partition sum32 n kvs parts) (λ r.
      (length r ≡ n)
      × ((k : ℕ) (p : List KeyValue)
          → get_elem? parts k ≡ some p
          → get_elem? r k ≡ some (p ++ only sum32 n k kvs)))
unfolding partition
partition_lem sum32 n [] parts pos size = (size, λ k p h. h ∙ ap some (sym (append-nil p)))
partition_lem sum32 n (kv ∷ kvs) parts pos size =
    let pid = ihash sum32 kv.key % n in
    let (parts', p, s) =
      Returns-some
        {P = λ r.
          (length r ≡ length parts)
          × ((k : ℕ) (p : List KeyValue)
              → get_elem? parts k ≡ some p
              → get_elem? r k ≡ some (if pid == k then p ++ kv ∷ [] else p))}
        (append_at pid kv parts)
        (append_at_lem pid kv parts (omega (arith, mod-lt (ihash sum32 kv.key) pos))) in
    rw (ne→== n 0 (λ z. omega arith), p)
      (Returns-map
        (λ r h. (
          h.0,
          λ k old o.
              h.1 k (if pid == k then old ++ kv ∷ [] else old) (s.1 k old o)
              ∙ ap some (only_cons sum32 n k kv kvs old),
        ))
        (partition sum32 n kvs parts') (partition_lem sum32 n kvs parts' pos (s.0 ∙ size)))

-- No call on the files of a map task fails.
pub record IsGood (io : Calls) : Type 0 where
  pub all_created : (k : ℕ) → io.creates k ≡ true
  pub all_encoded : (kv : KeyValue) → io.encodes kv ≡ true
  pub all_closed : (k : ℕ) → io.closes k ≡ true

encode_all_lem : (io : Calls) (kvs : List KeyValue) → IsGood io → encode_all io kvs ≡ (kvs, [])
unfolding encode_all
encode_all_lem io [] g = refl
encode_all_lem io (kv ∷ kvs) g = rw (g.all_encoded kv, encode_all_lem io kvs g) refl

record IsWritten (seq k : ℕ) (parts : List (List KeyValue)) (disk : Disk)
    (r : Disk × List Bool × Bool) : Type 0 where
  written : (j : ℕ) (p : List KeyValue) → get_elem? parts j ≡ some p → r.0 seq (k + j) ≡ some p
  below : (b : ℕ) → b < k → r.0 seq b ≡ disk seq b
  elsewhere : (a b : ℕ) → a ≢ seq → r.0 a b ≡ disk a b
  no_reports : r.1 ≡ []
  to_end : r.2 ≡ true

just_written :
    (seq k : ℕ) (part : List KeyValue) (disk : Disk) → write_disk seq k part disk seq k ≡ some part
just_written seq k part disk = ground arith

write_parts-IsWritten :
    (io : Calls) (seq k : ℕ) (parts : List (List KeyValue)) (disk : Disk)
    → IsGood io
    → IsWritten seq k parts disk (write_parts io seq k parts disk)
unfolding write_parts
write_parts-IsWritten io seq k [] disk g = record {
  written = λ j p h. cc h;
  below = λ b h. refl;
  elsewhere = λ a b h. refl;
  no_reports = refl;
  to_end = refl;
}
write_parts-IsWritten io seq k (part ∷ parts) disk g =
    let ih = write_parts-IsWritten io seq (suc k) parts (write_disk seq k part disk) g in
    let after = write_parts io seq (suc k) parts (write_disk seq k part disk) in
    rw (g.all_created k, g.all_closed k, encode_all_lem io part g)
      (record {
        written = λ j.
            elim j
              as (λ j.
                (p : List KeyValue)
                → get_elem? (part ∷ parts) j ≡ some p
                → after.0 seq (k + j) ≡ some p) [
                  | zero ↦ λ p h.
                      ap (after.0 seq) (omega arith)
                      ∙ ih.below k (omega arith)
                      ∙ just_written seq k part disk
                      ∙ h
                  | suc j ↦ λ p h. ap (after.0 seq) (omega arith) ∙ ih.written j p h
                ];
        below = λ b h'. ground (arith, ih.below b (omega arith));
        elsewhere = λ a b h'. ground (arith, ih.elsewhere a b h');
        no_reports = ih.no_reports;
        to_end = ih.to_end;
      })

get_elem?-replicate : {A : Type 0} (n k : ℕ) (a : A) → k < n → get_elem? (replicate n a) k ≡ some a
get_elem?-replicate zero k a h = elim h [ ]
get_elem?-replicate (suc n) zero a h = refl
get_elem?-replicate (suc n) (suc k) a h = get_elem?-replicate n k a (omega arith)

-- If there is a partition, the file can be read and no call on the output fails, `doMapTask`
-- reports success, once, and nothing else: partition `k` is on disk with exactly the pairs whose
-- key hashes to `k`, in the order in which the map function gave them, and the files of the other
-- tasks are as they were.
pub do_map_task_lem :
    (sum32 : String → ℕ) (io : Calls) (map_f : String → String → List KeyValue) (task : Job)
    (disk : Disk) (cont : String)
    → 0 < task.n_reduce
    → IsGood io
    → io.read_file task.file_name ≡ some cont
    → Returns (do_map_task sum32 io map_f task disk) (λ r.
      (r.1 ≡ true ∷ [])
      × ((k : ℕ)
          → k < task.n_reduce
          → r.0 task.seq k ≡ some (only sum32 task.n_reduce k (map_f task.file_name cont)))
      × ((i k : ℕ) → i ≢ task.seq → r.0 i k ≡ disk i k))
unfolding do_map_task
do_map_task_lem sum32 io map_f task disk cont pos g read =
    let n = task.n_reduce in
    let kvs = map_f task.file_name cont in
    let (parts, p, s) =
      Returns-some
        {P = λ r.
          (length r ≡ n)
          × ((k : ℕ) (p : List KeyValue)
              → get_elem? (replicate n []) k ≡ some p
              → get_elem? r k ≡ some (p ++ only sum32 n k kvs))}
        (partition sum32 n kvs (replicate n []))
        (partition_lem sum32 n kvs (replicate n []) pos (length-replicate n [])) in
    let w = write_parts-IsWritten io task.seq 0 parts disk g in
    rw (Returns, do_map_task, read, p, w.to_end, w.no_reports)
      (
        refl,
        λ k lt.
            ap ((write_parts io task.seq 0 parts disk).0 task.seq) (omega arith)
            ∙ w.written k (only sum32 n k kvs) (s.1 k [] (get_elem?-replicate n k [] lt)),
        w.elsewhere,
      )
