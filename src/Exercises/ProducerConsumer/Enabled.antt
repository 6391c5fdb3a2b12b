-- ===== src/Exercises/ProducerConsumer/Enabled.antt =====
-- When the moves can be made.
use major_assignments.Common.{
  if◌then◌else◌, set?, length, get_elem?, ℕ, ◌<◌, ◌≡◌, true, false, some, List, [], ◌∷◌, ◌++◌,
  arith,
}
use major_assignments.Exercises.ProducerConsumer.{
  buffer, Consumer, Program, all_sent, step_produce, step_consume, step_close, step_leave,
}

pub consume_enabled :
    (s : Program) (i : ℕ) (c : Consumer) {num : ℕ} {rest : List ℕ} {cs : List Consumer}
    → get_elem? s.consumers i ≡ some c
    → 0 < (if c.ended then 0 else 1)
    → s.channel ≡ num ∷ rest
    → set? s.consumers i (record c { taken = num ∷ c.taken }) ≡ some cs
    → step_consume i s ≡ some (record s { channel = rest; consumers = cs })
unfolding step_consume
consume_enabled s i c at stays ch put = rw (at, ch) (ground (arith, stays, put))

pub produce_enabled :
    (s : Program) (i : ℕ) {num : ℕ} {rest : List ℕ} {ps : List (List ℕ)}
    → get_elem? s.producers i ≡ some (num ∷ rest)
    → length s.channel < buffer
    → s.closed ≡ false
    → set? s.producers i rest ≡ some ps
    → step_produce i s ≡ some (record s { producers = ps; channel = s.channel ++ num ∷ [] })
unfolding step_produce
produce_enabled s i at room open_yet put = rw at (ground (arith, room, open_yet, put))

pub close_enabled :
    (s : Program)
    → s.closed ≡ false
    → all_sent s.producers ≡ true
    → step_close s ≡ some (record s { closed = true })
unfolding step_close
close_enabled s e a = ground (arith, e, a)

pub leave_enabled :
    (s : Program) (i : ℕ) (c : Consumer) {cs : List Consumer}
    → get_elem? s.consumers i ≡ some c
    → 0 < (if c.ended then 0 else 1)
    → s.closed ≡ true
    → length s.channel ≡ 0
    → set? s.consumers i (record c { ended = true }) ≡ some cs
    → step_leave i s ≡ some (record s { consumers = cs })
unfolding step_leave
leave_enabled s i c at stays f e put = rw at (ground (arith, stays, f, e, put))
