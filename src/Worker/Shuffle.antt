-- ===== src/Worker/Shuffle.antt =====
-- What a reduce task finds on disk.
use mathlib.Core.List.{append-nil, append_assoc}
use major_assignments.Common.{
  ◌==◌, if◌then◌else◌, Bool-cases, Option-cases, Returns, Returns-map, map_get, string_eq,
  map_get-put, String, ℕ, zero, suc, ◌+◌, ◌%◌, ◌≤◌, ◌<◌, ◌≡◌, sym, ap, ◌∙◌, inl, inr, none, some,
  List, [], ◌∷◌, ◌++◌, arith, nat_eq,
}
use major_assignments.Worker.{KeyValue, Disk, ihash, group_one, group_all, gather}
use major_assignments.Worker.MapTask.{only}

-- The values of a key, in their order.
abbrev pub values_of : String → List KeyValue → List String
values_of key [] = []
values_of key (kv ∷ kvs) =
    if string_eq.beq kv.key key then kv.value ∷ values_of key kvs else values_of key kvs

-- What a reduce task has under a key.
abbrev pub grouped : String → List (String × List String) → List String
grouped key maps = elim (map_get key maps) [ none ↦ [] | some vs ↦ vs ]

group_one_lem :
    (key : String) (kv : KeyValue) (maps : List (String × List String))
    → grouped key (group_one kv maps) ≡ grouped key maps ++ values_of key (kv ∷ [])
unfolding group_one
group_one_lem key kv maps = elim (Option-cases (map_get kv.key maps)) [
  | inl e ↦ ground (
    arith,
    e,
    map_get-put kv.key key (kv.value ∷ []) maps,
    string_eq.beq_iff kv.key key,
    append-nil (grouped key maps),
  )
  | inr (vs, e) ↦ ground (
    arith,
    e,
    map_get-put kv.key key (vs ++ kv.value ∷ []) maps,
    string_eq.beq_iff kv.key key,
    append-nil (grouped key maps),
  )
]

group_all_lem :
    (key : String) (kvs : List KeyValue) (maps : List (String × List String))
    → grouped key (group_all kvs maps) ≡ grouped key maps ++ values_of key kvs
unfolding group_all
group_all_lem key [] maps = sym (append-nil (grouped key maps))
group_all_lem key (kv ∷ kvs) maps =
    group_all_lem key kvs (group_one kv maps)
    ∙ ap (λ vs. vs ++ values_of key kvs) (group_one_lem key kv maps)
    ∙ append_assoc (grouped key maps) (values_of key (kv ∷ [])) (values_of key kvs)
    ∙ ap (λ vs. grouped key maps ++ vs) (ground arith)

-- All values of a key that `k` map tasks from `i` on have emitted.
abbrev pub all_values : String → (ℕ → List KeyValue) → ℕ → ℕ → List String
all_values key outputs i zero = []
all_values key outputs i (suc k) = values_of key (outputs i) ++ all_values key outputs (suc i) k

gather_lem :
    (key : String) (shards : ℕ → List KeyValue) (disk : Disk) (seq k i : ℕ)
    (maps : List (String × List String))
    → ((j : ℕ) → i ≤ j → j < i + k → disk j seq ≡ some (shards j))
    → Returns
        (gather k i seq disk maps)
        (λ r. grouped key r ≡ grouped key maps ++ all_values key shards i k)
unfolding gather
gather_lem key shards disk seq zero i maps h = sym (append-nil (grouped key maps))
gather_lem key shards disk seq (suc k) i maps h =
    rw (h i (omega arith) (omega arith), Returns)
      (Returns-map
        (λ r e.
          e
          ∙ ap (λ vs. vs ++ all_values key shards (suc i) k) (group_all_lem key (shards i) maps)
          ∙ append_assoc (grouped key maps) (values_of key (shards i))
              (all_values key shards (suc i) k))
        (gather k (suc i) seq disk (group_all (shards i) maps))
        (gather_lem key shards disk seq k (suc i) (group_all (shards i) maps)
          (λ j a b. h j (omega arith) (omega arith))))

-- The pairs of a key are all in the partition of its hash.
values_of-only :
    (sum32 : String → ℕ) (n k : ℕ) (key : String) (kvs : List KeyValue)
    → values_of key (only sum32 n k kvs)
      ≡ (if ihash sum32 key % n == k then values_of key kvs else [])
values_of-only sum32 n k key [] = ground arith
values_of-only sum32 n k key (kv ∷ kvs) =
    let ih = values_of-only sum32 n k key kvs in
    elim (Bool-cases (string_eq.beq kv.key key)) [
      | inl e ↦
          let same = ap (λ t. ihash sum32 t % n) ((string_eq.beq_iff kv.key key).0 e) in
          ground (arith, ih, same, e)
      | inr e ↦ ground (arith, ih, e)
    ]

all_values-only :
    (sum32 : String → ℕ) (n r : ℕ) (key : String) (outputs : ℕ → List KeyValue) (i k : ℕ)
    → all_values key (λ j. only sum32 n r (outputs j)) i k
      ≡ (if ihash sum32 key % n == r then all_values key outputs i k else [])
all_values-only sum32 n r key outputs i zero = ground arith
all_values-only sum32 n r key outputs i (suc k) =
    let shard = values_of-only sum32 n r key (outputs i) in
    let rest = all_values-only sum32 n r key outputs (suc i) k in
    elim (Bool-cases (ihash sum32 key % n == r)) [
      | inl e ↦ ground (arith, e, shard, rest)
      | inr e ↦ ground (arith, e, shard, rest)
    ]

-- The shuffle: if every map task has left its partition for reduce task `r`, with the pairs of
-- `outputs` that belong there, then the reduce task reads all files, and has under each key that
-- hashes to `r` all the values which the map tasks emitted for it, in the order of the tasks, and
-- under any other key none.
pub shuffle :
    (sum32 : String → ℕ) (n n_map r : ℕ) (outputs : ℕ → List KeyValue) (disk : Disk) (key : String)
    → ((i : ℕ) → i < n_map → disk i r ≡ some (only sum32 n r (outputs i)))
    → Returns (gather n_map 0 r disk []) (λ maps.
      grouped key maps ≡ (if ihash sum32 key % n == r then all_values key outputs 0 n_map else []))
unfolding map_get
shuffle sum32 n n_map r outputs disk key h =
    Returns-map (λ maps e. e ∙ all_values-only sum32 n r key outputs 0 n_map)
      (gather n_map 0 r disk [])
      (gather_lem key (λ j. only sum32 n r (outputs j)) disk r n_map 0 []
        (λ j a b. h j (omega arith)))
