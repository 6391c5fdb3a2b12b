-- ===== src/Exercises/ProducerConsumer/Conserved.antt =====
-- What no move changes, and the room of the channel.
use major_assignments.Common.{
  if◌then◌else◌, Option-cases, set?, >>=-eq-some, set?-lt, length, get_elem?, length-append,
  get_elem?-ge, ℕ, zero, suc, ◌+◌, ◌*◌, ◌≤◌, ◌<◌, ◌≡◌, ap, inl, inr, true, false, some, List, [],
  ◌∷◌, ◌++◌, arith,
}
use major_assignments.Exercises.ProducerConsumer.{
  Move, buffer, Consumer, Program, produce, consume, close_channel, leave, step_produce,
  step_consume, step_close, step_leave, go_on,
}
use major_assignments.Exercises.Totals.{total, total-set?, count, count-append, list_cases}

abbrev pub unsent : Program → ℕ
unsent s = total length s.producers

-- The consumers that have left their loop.
abbrev pub gone : Program → ℕ
gone s = total (λ c. if c.ended then 1 else 0) s.consumers

-- What is closed, and what is over.
pub record IsOrderly (s : Program) : Type 0 where
  pub runs_on : s.crashed ≡ false
  pub closed_sent : s.closed ≡ true → unsent s ≡ 0
  pub gone_over : 0 < gone s → (s.closed ≡ true) × (length s.channel ≡ 0)

-- How often a number is still to be sent, in the channel or taken.
abbrev pub copies : ℕ → Program → ℕ
copies a s =
    total (count a) s.producers + count a s.channel + total (λ c. count a c.taken) s.consumers

-- How much the program has still to do.
abbrev pub work : Program → ℕ
work s =
    2 * total length s.producers
    + length s.channel
    + (if s.closed then 0 else 1)
    + total (λ c. if c.ended then 0 else 1) s.consumers

pub record IsKept (s s' : Program) : Type 0 where
  pub copies_kept : (a : ℕ) → copies a s' ≡ copies a s
  pub work_falls : work s' < work s
  pub channel_fits : length s.channel ≤ buffer → length s'.channel ≤ buffer
  pub same_consumers : length s'.consumers ≡ length s.consumers

pub set?-at :
    {A : Type 0} (xs : List A) (i : ℕ) (a b : A)
    → get_elem? xs i ≡ some a
    → (ys : List A) × (set? xs i b ≡ some ys) × (length ys ≡ length xs)
set?-at xs i a b h = set?-lt xs i b (ground (arith, h, get_elem?-ge xs i))

set?-length :
    {A : Type 0} (xs : List A) (i : ℕ) (v : A) {ys : List A}
    → set? xs i v ≡ some ys
    → length ys ≡ length xs
set?-length [] i v h = cc h
set?-length (x ∷ xs) zero v h = ground arith
set?-length (x ∷ xs) (suc i) v h =
    let (zs, p, q) = >>=-eq-some (set? xs i v) (λ zs. some (x ∷ zs)) h in
    ground (arith, q, set?-length xs i v p)

pub produced :
    (i : ℕ) (s : Program) {s' : Program}
    → IsOrderly s
    → step_produce i s ≡ some s'
    → (num : ℕ) × (rest : List ℕ) × (ps : List (List ℕ)) × (get_elem? s.producers i
        ≡ some (num ∷ rest))
      × (length s.channel < buffer)
      × (s.closed ≡ false)
      × (set? s.producers i rest ≡ some ps)
      × (s' ≡ record s { producers = ps; channel = s.channel ++ num ∷ [] })
unfolding step_produce
produced i s o h = elim (Option-cases (get_elem? s.producers i)) [
  | inl e ↦ absurd (ground arith)
  | inr ([], e) ↦ absurd (ground arith)
  | inr (num ∷ rest, e) ↦
      let (ps, f, _) = set?-at s.producers i (num ∷ rest) rest e in
      let fewer = total-set? length s.producers i (num ∷ rest) rest e f in
      let stays : s.closed ≡ false = ground (arith, fewer, o.closed_sent) in
      (num, rest, ps, e, ground (arith, stays), stays, f, ground (arith, stays, f))
]

pub consumed :
    (i : ℕ) (s : Program) {s' : Program}
    → step_consume i s ≡ some s'
    → (num : ℕ) × (rest : List ℕ) × (c : Consumer) × (cs : List Consumer) × (get_elem? s.consumers i
        ≡ some c)
      × (s.channel ≡ num ∷ rest)
      × (set? s.consumers i (record c { taken = num ∷ c.taken }) ≡ some cs)
      × (s' ≡ record s { channel = rest; consumers = cs })
unfolding step_consume
consumed i s h = elim (Option-cases (get_elem? s.consumers i)) [
  | inl e ↦ absurd (ground arith)
  | inr (c, e) ↦ elim (list_cases s.channel) [
    | inl f ↦ absurd (ground arith)
    | inr (num, rest, f) ↦
        elim (Option-cases (set? s.consumers i (record c { taken = num ∷ c.taken }))) [
          | inl g ↦ absurd (ground arith)
          | inr (cs, g) ↦ (num, rest, c, cs, e, f, g, ground arith)
        ]
  ]
]

pub left_loop :
    (i : ℕ) (s : Program) {s' : Program}
    → step_leave i s ≡ some s'
    → (c : Consumer) × (cs : List Consumer) × (get_elem? s.consumers i ≡ some c)
      × (c.ended ≡ false)
      × (s.closed ≡ true)
      × (length s.channel ≡ 0)
      × (set? s.consumers i (record c { ended = true }) ≡ some cs)
      × (s' ≡ record s { consumers = cs })
unfolding step_leave
left_loop i s h = elim (Option-cases (get_elem? s.consumers i)) [
  | inl e ↦ absurd (ground arith)
  | inr (c, e) ↦ elim (Option-cases (set? s.consumers i (record c { ended = true }))) [
    | inl g ↦ absurd (ground arith)
    | inr (cs, g) ↦ (c, cs, e, ground arith, ground arith, ground arith, g, ground arith)
  ]
]

produce-IsKept :
    (i : ℕ) (s : Program) {s' : Program} → IsOrderly s → step_produce i s ≡ some s' → IsKept s s'
produce-IsKept i s {s'} o h =
    let (num, rest, ps, at, room, _, put, eq) = produced i s o h in
    let fewer = total-set? length s.producers i (num ∷ rest) rest at put in
    let longer = length-append s.channel (num ∷ []) in
    record {
      copies_kept = λ a. ground (
        arith,
        eq,
        total-set? (count a) s.producers i (num ∷ rest) rest at put,
        count-append a s.channel (num ∷ []),
      );
      work_falls = ground (arith, eq, fewer, longer);
      channel_fits = λ f. ground (arith, eq, longer, room);
      same_consumers = ground (arith, eq);
    }

consume-IsKept : (i : ℕ) (s : Program) {s' : Program} → step_consume i s ≡ some s' → IsKept s s'
consume-IsKept i s {s'} h =
    let (num, rest, c, cs, at, ch, put, eq) = consumed i s h in
    let c' : Consumer = record c { taken = num ∷ c.taken } in
    record {
      copies_kept = λ a.
          ground (
            arith,
            eq,
            ap (count a) ch,
            total-set? (λ c. count a c.taken) s.consumers i c c' at put,
          );
      work_falls = ground (
        arith,
        eq,
        ap length ch,
        total-set? (λ c. if c.ended then 0 else 1) s.consumers i c c' at put,
      );
      channel_fits = λ f. ground (arith, eq, ap length ch);
      same_consumers = ground (arith, eq, set?-length s.consumers i c' put);
    }

close-IsKept : (s : Program) {s' : Program} → step_close s ≡ some s' → IsKept s s'
unfolding step_close
close-IsKept s h = record {
  copies_kept = λ a. ground arith;
  work_falls = ground arith;
  channel_fits = λ f. ground arith;
  same_consumers = ground arith;
}

leave-IsKept : (i : ℕ) (s : Program) {s' : Program} → step_leave i s ≡ some s' → IsKept s s'
leave-IsKept i s {s'} h =
    let (c, cs, at, stays, _, _, put, eq) = left_loop i s h in
    let c' : Consumer = record c { ended = true } in
    record {
      copies_kept =
          λ a. ground (arith, eq, total-set? (λ c. count a c.taken) s.consumers i c c' at put);
      work_falls =
          ground (
            arith,
            eq,
            stays,
            total-set? (λ c. if c.ended then 0 else 1) s.consumers i c c' at put,
          );
      channel_fits = λ f. ground (arith, eq);
      same_consumers = ground (arith, eq, set?-length s.consumers i c' put);
    }

pub step-IsKept :
    (m : Move) (s : Program) {s' : Program} → IsOrderly s → go_on m s ≡ some s' → IsKept s s'
unfolding go_on
step-IsKept (produce i) s o h = produce-IsKept i s o h
step-IsKept (consume i) s o h = consume-IsKept i s h
step-IsKept close_channel s o h = close-IsKept s h
step-IsKept (leave i) s o h = leave-IsKept i s h
