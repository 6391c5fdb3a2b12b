-- ===== src/Exercises/Counter/Exact.antt =====
-- No increment is lost, and no goroutine is in its section together with a writer.
use major_assignments.Common.{
  ltb, Bool-cases, ℕ, ◌+◌, ◌-◌, ◌≤◌, ◌≡◌, refl, sym, ◌∙◌, ◌⊎◌, inl, inr, true, not, ◌&&◌, some,
  List, [], ◌∷◌, map, arith,
}
use major_assignments.Exercises.Counter.{
  finished, outside, inside, Worker, Counter, Action, lock, load, store, unlock, read_lock,
  read_value, read_unlock, is_outside, is_inside, is_finished, step_read_lock, step_read,
  step_read_unlock, act, start_counter,
}
use major_assignments.Exercises.Counter.Writers.{
  in_section, is_stale, is_idle, changed, IsExact, lock-IsExact, load-IsExact, store-IsExact,
  unlock-IsExact,
}
use major_assignments.Exercises.Runs.{runs, runs-keeps}
use major_assignments.Exercises.Totals.{total, total-set?}

reads-IsExact :
    (goal : ℕ) (s : Counter) {s' : Counter}
    → IsExact goal s
    → s'.count ≡ s.count
    → s'.write_locked ≡ s.write_locked
    → s'.writers ≡ s.writers
    → total in_section s'.readers ≡ s'.read_locks
    → (s.write_locked ≡ true → s'.read_locks ≡ 0)
    → IsExact goal s'
reads-IsExact goal s k n l ws same apart = record {
  all_counted = ground (arith, n, ws, k.all_counted);
  one_writer = ground (arith, l, ws, k.one_writer);
  no_mixture = same;
  apart = λ c. apart (sym l ∙ c);
  none_stale = ground (arith, n, ws, k.none_stale);
  none_idle = ground (arith, ws, k.none_idle);
}

read_lock-IsExact :
    (goal i : ℕ) (s : Counter) {s' : Counter}
    → IsExact goal s
    → step_read_lock i s ≡ some s'
    → IsExact goal s'
unfolding step_read_lock
read_lock-IsExact goal i s k h =
    let (w, ws, at, ok, put, e) =
      changed s.readers i (λ r. is_outside r.phase && ltb 0 r.left && not s.write_locked)
        (λ r. record r { phase = inside })
        (λ r rs. record s { read_locks = s.read_locks + 1; readers = rs }) h in
    let b = total-set? in_section s.readers i w (record w { phase = inside }) at put in
    reads-IsExact goal s k (ground (arith, e)) (ground (arith, e)) (ground (arith, e))
      (ground (arith, e, ok, k.no_mixture, b)) (λ c. absurd (ground (arith, ok, c)))

read-IsExact :
    (goal i : ℕ) (s : Counter) {s' : Counter}
    → IsExact goal s
    → step_read i s ≡ some s'
    → IsExact goal s'
unfolding step_read
read-IsExact goal i s k h =
    let (w, ws, at, ok, put, e) =
      changed s.readers i (λ r. is_inside r.phase)
        (λ r. record { left = r.left - 1; phase = finished })
        (λ r rs. record s { readers = rs; values = s.count ∷ s.values }) h in
    let w' : Worker = record { left = w.left - 1; phase = finished } in
    let b = total-set? in_section s.readers i w w' at put in
    reads-IsExact goal s k (ground (arith, e)) (ground (arith, e)) (ground (arith, e))
      (ground (arith, e, ok, k.no_mixture, b)) (λ c. ground (arith, e, k.apart c))

read_unlock-IsExact :
    (goal i : ℕ) (s : Counter) {s' : Counter}
    → IsExact goal s
    → step_read_unlock i s ≡ some s'
    → IsExact goal s'
unfolding step_read_unlock
read_unlock-IsExact goal i s k h =
    let (w, ws, at, ok, put, e) =
      changed s.readers i (λ r. is_finished r.phase) (λ r. record r { phase = outside })
        (λ r rs. record s { read_locks = s.read_locks - 1; readers = rs }) h in
    let b = total-set? in_section s.readers i w (record w { phase = outside }) at put in
    reads-IsExact goal s k (ground (arith, e)) (ground (arith, e)) (ground (arith, e))
      (ground (arith, e, ok, k.no_mixture, b)) (λ c. ground (arith, e, k.apart c))

act-IsExact :
    (goal : ℕ) (a : Action) (s : Counter) {s' : Counter}
    → IsExact goal s
    → act a s ≡ some s'
    → IsExact goal s'
unfolding act
act-IsExact goal (lock i) s k h = lock-IsExact goal i s k h
act-IsExact goal (load i) s k h = load-IsExact goal i s k h
act-IsExact goal (store i) s k h = store-IsExact goal i s k h
act-IsExact goal (unlock i) s k h = unlock-IsExact goal i s k h
act-IsExact goal (read_lock i) s k h = read_lock-IsExact goal i s k h
act-IsExact goal (read_value i) s k h = read-IsExact goal i s k h
act-IsExact goal (read_unlock i) s k h = read_unlock-IsExact goal i s k h

all_outside :
    (f : Worker → ℕ)
    → ((n : ℕ) → f (record { left = n; phase = outside }) ≡ 0)
    → (ns : List ℕ) → total f (map (λ n. record { left = n; phase = outside }) ns) ≡ 0
all_outside f h [] = refl
all_outside f h (n ∷ ns) = omega (arith, h n, all_outside f h ns)

all_left :
    (ns : List ℕ)
    → total (λ (w : Worker). w.left) (map (λ n. record { left = n; phase = outside }) ns)
      ≡ total (λ n. n) ns
all_left [] = refl
all_left (n ∷ ns) = omega (arith, all_left ns)

start-IsExact :
    (reads increments : List ℕ)
    → IsExact (total (λ n. n) increments) (start_counter reads increments)
unfolding start_counter
start-IsExact reads increments = record {
  all_counted = omega (arith, all_left increments);
  one_writer = all_outside in_section (λ n. refl) increments;
  no_mixture = all_outside in_section (λ n. refl) reads;
  apart = λ c. refl;
  none_stale = all_outside (is_stale 0) (λ n. refl) increments;
  none_idle = all_outside is_idle (λ n. refl) increments;
}

-- In every run of readers and writers the counter and the increments that are still to be made are
-- together the increments that there were to make, so that none is lost; at most one writer is between
-- `Lock` and `Unlock`, and there is none there or no reader between `RLock` and `RUnlock`.
pub counter_lem :
    (reads increments : List ℕ) (acts : List Action) {s : Counter}
    → runs act acts (start_counter reads increments) ≡ some s
    → (s.count + total (λ w. w.left) s.writers ≡ total (λ n. n) increments)
      × (total in_section s.writers ≤ 1)
      × ((total in_section s.writers ≡ 0) ⊎ (total in_section s.readers ≡ 0))
counter_lem reads increments acts {s} h =
    let goal = total (λ n. n) increments in
    let k =
      runs-keeps act (IsExact goal) (λ a s s' k h. act-IsExact goal a s k h) acts
        (start_counter reads increments) (start-IsExact reads increments) h in
    (
      k.all_counted,
      ground (arith, k.one_writer),
      elim (Bool-cases s.write_locked) [
        | inl e ↦ inr (k.no_mixture ∙ k.apart e)
        | inr e ↦ inl (ground (arith, k.one_writer))
      ],
    )
