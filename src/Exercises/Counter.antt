-- ===== src/Exercises/Counter.antt =====
-- 3/3.go: readers and writers of a counter behind a read-write lock. `c.count++` is a load and a store.
pub mod Writers
pub mod Exact
use major_assignments.Common.{
  ltb, ◌==◌, if◌then◌else◌, ◌>>=◌, set?, get_elem?, ℕ, ◌+◌, ◌-◌, Bool, true, false, not, ◌&&◌,
  Option, none, some, List, [], ◌∷◌, map,
}

-- Where a goroutine is in its critical section.
pub data Phase : Type 0 where
  outside : Phase
  inside : Phase
  loaded : ℕ → Phase
  finished : Phase

-- A goroutine, with the rounds that it has still to do.
pub record Worker : Type 0 where
  pub left : ℕ
  pub phase : Phase

-- `counter`, its lock, and the goroutines; `values` is what readers have got, the last first.
pub record Counter : Type 0 where
  pub count : ℕ
  pub write_locked : Bool
  pub read_locks : ℕ
  pub writers : List Worker
  pub readers : List Worker
  pub values : List ℕ

-- The number of the goroutine is that of its list.
pub data Action : Type 0 where
  lock load store unlock : ℕ → Action
  read_lock read_value read_unlock : ℕ → Action

abbrev pub is_outside : Phase → Bool
is_outside outside = true
is_outside inside = false
is_outside (loaded _) = false
is_outside finished = false

abbrev pub is_inside : Phase → Bool
is_inside outside = false
is_inside inside = true
is_inside (loaded _) = false
is_inside finished = false

abbrev pub is_finished : Phase → Bool
is_finished outside = false
is_finished inside = false
is_finished (loaded _) = false
is_finished finished = true

abbrev pub is_loaded : Phase → Bool
is_loaded outside = false
is_loaded inside = false
is_loaded (loaded _) = true
is_loaded finished = false

abbrev pub loaded_value : Phase → ℕ
loaded_value outside = 0
loaded_value inside = 0
loaded_value (loaded v) = v
loaded_value finished = 0

-- `c.Lock()`
unfoldable pub step_lock : ℕ → Counter → Option Counter
step_lock i s = do
  w ← get_elem? s.writers i
  if is_outside w.phase && ltb 0 w.left && not s.write_locked && s.read_locks == 0
      then (do
        ws ← set? s.writers i (record w { phase = inside })
        some (record s { write_locked = true; writers = ws }))
      else none

-- `c.count++`, its load
unfoldable pub step_load : ℕ → Counter → Option Counter
step_load i s = do
  w ← get_elem? s.writers i
  if is_inside w.phase
      then (do
        ws ← set? s.writers i (record w { phase = loaded s.count })
        some (record s { writers = ws }))
      else none

-- and its store
unfoldable pub step_store : ℕ → Counter → Option Counter
step_store i s = do
  w ← get_elem? s.writers i
  if is_loaded w.phase
      then (do
        ws ← set? s.writers i (record { left = w.left - 1; phase = finished })
        some (record s { count = loaded_value w.phase + 1; writers = ws }))
      else none

-- `c.Unlock()`
unfoldable pub step_unlock : ℕ → Counter → Option Counter
step_unlock i s = do
  w ← get_elem? s.writers i
  if is_finished w.phase
      then (do
        ws ← set? s.writers i (record w { phase = outside })
        some (record s { write_locked = false; writers = ws }))
      else none

-- `c.RLock()`
unfoldable pub step_read_lock : ℕ → Counter → Option Counter
step_read_lock i s = do
  r ← get_elem? s.readers i
  if is_outside r.phase && ltb 0 r.left && not s.write_locked
      then (do
        rs ← set? s.readers i (record r { phase = inside })
        some (record s { read_locks = s.read_locks + 1; readers = rs }))
      else none

-- `return c.count`
unfoldable pub step_read : ℕ → Counter → Option Counter
step_read i s = do
  r ← get_elem? s.readers i
  if is_inside r.phase
      then (do
        rs ← set? s.readers i (record { left = r.left - 1; phase = finished })
        some (record s { readers = rs; values = s.count ∷ s.values }))
      else none

-- `c.RUnlock()`
unfoldable pub step_read_unlock : ℕ → Counter → Option Counter
step_read_unlock i s = do
  r ← get_elem? s.readers i
  if is_finished r.phase
      then (do
        rs ← set? s.readers i (record r { phase = outside })
        some (record s { read_locks = s.read_locks - 1; readers = rs }))
      else none

unfoldable pub act : Action → Counter → Option Counter
act (lock i) s = step_lock i s
act (load i) s = step_load i s
act (store i) s = step_store i s
act (unlock i) s = step_unlock i s
act (read_lock i) s = step_read_lock i s
act (read_value i) s = step_read i s
act (read_unlock i) s = step_read_unlock i s

-- `main`, with the rounds of each reader and of each writer.
unfoldable pub start_counter : List ℕ → List ℕ → Counter
start_counter reads increments = record {
  count = 0;
  write_locked = false;
  read_locks = 0;
  writers = map (λ n. record { left = n; phase = outside }) increments;
  readers = map (λ n. record { left = n; phase = outside }) reads;
  values = [];
}
