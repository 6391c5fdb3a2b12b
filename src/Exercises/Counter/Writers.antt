-- ===== src/Exercises/Counter/Writers.antt =====
-- What the writers keep.
use major_assignments.Common.{
  ltb, ◌==◌, if◌then◌else◌, Option-cases, ◌>>=◌, set?, get_elem?, ℕ, zero, suc, ◌+◌, ◌-◌, ◌≤◌, ◌<◌,
  ◌≡◌, inl, inr, Bool, true, false, not, ◌&&◌, ◌||◌, none, some, List, [], ◌∷◌, arith,
}
use major_assignments.Exercises.Counter.{
  finished, outside, inside, loaded, Worker, Counter, is_outside, is_inside, is_finished, is_loaded,
  loaded_value, step_lock, step_load, step_store, step_unlock,
}
use major_assignments.Exercises.Totals.{total, total-set?}

-- In the critical section, between load and store, there with a value that is not the counter's, and
-- there with no round left.
abbrev pub in_section : Worker → ℕ
in_section w = if is_outside w.phase then 0 else 1

abbrev pub in_update : Worker → ℕ
in_update w = if is_loaded w.phase then 1 else 0

abbrev pub is_stale : ℕ → Worker → ℕ
is_stale n w = if is_loaded w.phase && not (loaded_value w.phase == n) then 1 else 0

abbrev pub is_idle : Worker → ℕ
is_idle w = if (is_inside w.phase || is_loaded w.phase) && w.left == 0 then 1 else 0

total_mono :
    (f g : Worker → ℕ) → ((w : Worker) → f w ≤ g w) → (ws : List Worker) → total f ws ≤ total g ws
total_mono f g h [] = omega arith
total_mono f g h (w ∷ ws) = omega (arith, h w, total_mono f g h ws)

part_of_total :
    (f : Worker → ℕ) (ws : List Worker) (i : ℕ) {w : Worker}
    → get_elem? ws i ≡ some w
    → f w ≤ total f ws
part_of_total f [] i h = cc h
part_of_total f (x ∷ ws) zero h = ground arith
part_of_total f (x ∷ ws) (suc i) h = omega (arith, part_of_total f ws i h)

update-section : (w : Worker) → in_update w ≤ in_section w
update-section w =
    elim w.phase as (λ p. (if is_loaded p then 1 else 0) ≤ (if is_outside p then 0 else 1)) [
      | outside ↦ omega arith
      | inside ↦ omega arith
      | loaded v ↦ omega arith
      | finished ↦ omega arith
    ]

stale-update : (n : ℕ) (w : Worker) → is_stale n w ≤ in_update w
stale-update n w = ground arith

-- A step of one goroutine.
pub changed :
    (ws : List Worker) (i : ℕ) (test : Worker → Bool) (f : Worker → Worker)
    (g : Worker → List Worker → Counter) {s : Counter}
    → (get_elem? ws i >>= λ w. if test w then (set? ws i (f w) >>= λ vs. some (g w vs)) else none)
      ≡ some s
    → (w : Worker) × (vs : List Worker) × (get_elem? ws i ≡ some w)
      × (test w ≡ true)
      × (set? ws i (f w) ≡ some vs)
      × (s ≡ g w vs)
changed ws i test f g h = elim (Option-cases (get_elem? ws i)) [
  | inl e ↦ absurd (ground (arith, e))
  | inr (w, e) ↦ elim (Option-cases (set? ws i (f w))) [
    | inl d ↦ absurd (ground (arith, e, d))
    | inr (vs, d) ↦ (w, vs, e, ground (arith, e, d), d, ground (arith, e, d))
  ]
]

pub record IsExact (goal : ℕ) (s : Counter) : Type 0 where
  pub all_counted : s.count + total (λ w. w.left) s.writers ≡ goal
  pub one_writer : total in_section s.writers ≡ (if s.write_locked then 1 else 0)
  pub no_mixture : total in_section s.readers ≡ s.read_locks
  pub apart : s.write_locked ≡ true → s.read_locks ≡ 0
  pub none_stale : total (is_stale s.count) s.writers ≡ 0
  pub none_idle : total is_idle s.writers ≡ 0

shifts :
    (n : ℕ) (ws : List Worker) (i : ℕ) (w w' : Worker) {vs : List Worker}
    → get_elem? ws i ≡ some w
    → set? ws i w' ≡ some vs
    → (total (λ w. w.left) vs + w.left ≡ total (λ w. w.left) ws + w'.left)
      × (total in_section vs + in_section w ≡ total in_section ws + in_section w')
      × (total (is_stale n) vs + is_stale n w ≡ total (is_stale n) ws + is_stale n w')
      × (total is_idle vs + is_idle w ≡ total is_idle ws + is_idle w')
      × (total in_update vs + in_update w ≡ total in_update ws + in_update w')
shifts n ws i w w' at put = (
  total-set? (λ w. w.left) ws i w w' at put,
  total-set? in_section ws i w w' at put,
  total-set? (is_stale n) ws i w w' at put,
  total-set? is_idle ws i w w' at put,
  total-set? in_update ws i w w' at put,
)

pub lock-IsExact :
    (goal i : ℕ) (s : Counter) {s' : Counter}
    → IsExact goal s
    → step_lock i s ≡ some s'
    → IsExact goal s'
unfolding step_lock
lock-IsExact goal i s k h =
    let (w, ws, at, ok, put, e) =
      changed s.writers i
        (λ w. is_outside w.phase && ltb 0 w.left && not s.write_locked && s.read_locks == 0)
        (λ w. record w { phase = inside }) (λ w ws. record s { write_locked = true; writers = ws })
        h in
    let (a, b, c, d, u) = shifts s.count s.writers i w (record w { phase = inside }) at put in
    record {
      all_counted = ground (arith, e, k.all_counted, a);
      one_writer = ground (arith, e, ok, k.one_writer, b);
      no_mixture = ground (arith, e, k.no_mixture);
      apart = λ _. ground (arith, e, ok);
      none_stale = ground (arith, e, ok, k.none_stale, c);
      none_idle = ground (arith, e, ok, k.none_idle, d);
    }

pub load-IsExact :
    (goal i : ℕ) (s : Counter) {s' : Counter}
    → IsExact goal s
    → step_load i s ≡ some s'
    → IsExact goal s'
unfolding step_load
load-IsExact goal i s k h =
    let (w, ws, at, ok, put, e) =
      changed s.writers i (λ w. is_inside w.phase) (λ w. record w { phase = loaded s.count })
        (λ w ws. record s { writers = ws }) h in
    let (a, b, c, d, u) =
      shifts s.count s.writers i w (record w { phase = loaded s.count }) at put in
    record {
      all_counted = ground (arith, e, k.all_counted, a);
      one_writer = ground (arith, e, ok, k.one_writer, b);
      no_mixture = ground (arith, e, k.no_mixture);
      apart = λ l. ground (arith, e, k.apart);
      none_stale = ground (arith, e, ok, k.none_stale, c);
      none_idle = ground (arith, e, ok, k.none_idle, d);
    }

pub store-IsExact :
    (goal i : ℕ) (s : Counter) {s' : Counter}
    → IsExact goal s
    → step_store i s ≡ some s'
    → IsExact goal s'
unfolding step_store
store-IsExact goal i s {s'} k h =
    let (w, ws, at, ok, put, e) =
      changed s.writers i (λ w. is_loaded w.phase)
        (λ w. record { left = w.left - 1; phase = finished })
        (λ w ws. record s { count = loaded_value w.phase + 1; writers = ws }) h in
    let w' : Worker = record { left = w.left - 1; phase = finished } in
    let (a, b, c, d, u) = shifts s.count s.writers i w w' at put in
    let fresh : loaded_value w.phase ≡ s.count =
      ground (arith, ok, k.none_stale, part_of_total (is_stale s.count) s.writers i at) in
    let more : 0 < w.left = ground (arith, ok, k.none_idle, part_of_total is_idle s.writers i at) in
    let others : total in_update ws ≡ 0 =
      ground
        (arith, ok, u, total_mono in_update in_section update-section s.writers, k.one_writer) in
    record {
      all_counted = ground (arith, e, fresh, more, k.all_counted, a);
      one_writer = ground (arith, e, ok, k.one_writer, b);
      no_mixture = ground (arith, e, k.no_mixture);
      apart = λ l. ground (arith, e, k.apart);
      none_stale =
          ground
            (arith, e, others, total_mono (is_stale s'.count) in_update (stale-update s'.count) ws);
      none_idle = ground (arith, e, ok, k.none_idle, d);
    }

pub unlock-IsExact :
    (goal i : ℕ) (s : Counter) {s' : Counter}
    → IsExact goal s
    → step_unlock i s ≡ some s'
    → IsExact goal s'
unfolding step_unlock
unlock-IsExact goal i s k h =
    let (w, ws, at, ok, put, e) =
      changed s.writers i (λ w. is_finished w.phase) (λ w. record w { phase = outside })
        (λ w ws. record s { write_locked = false; writers = ws }) h in
    let (a, b, c, d, u) = shifts s.count s.writers i w (record w { phase = outside }) at put in
    record {
      all_counted = ground (arith, e, k.all_counted, a);
      one_writer = ground (arith, e, ok, k.one_writer, b);
      no_mixture = ground (arith, e, k.no_mixture);
      apart = λ l. ground (arith, e);
      none_stale = ground (arith, e, ok, k.none_stale, c);
      none_idle = ground (arith, e, ok, k.none_idle, d);
    }
