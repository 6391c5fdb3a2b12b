-- ===== src/Exercises/WordCount/Sum.antt =====
-- The sum that comes out, whatever the order of the two goroutines.
use Prim.Native.String.{len}
use major_assignments.Common.{
  Bool-cases, length, length-append, String, ℕ, ◌+◌, ◌≤◌, ◌≡◌, ap, ◌⊎◌, inl, inr, true, false, some,
  List, [], ◌∷◌, ◌++◌, arith,
}
use major_assignments.Exercises.Runs.{runs, runs-keeps}
use major_assignments.Exercises.Totals.{total, total-nil, list_cases}
use major_assignments.Exercises.WordCount.{
  map_phase, reduce_phase, MapReduce, Turn, send_length, add_length, close_results, return_total,
  turn, map_reduce,
}

abbrev pub total_len : List String → ℕ
total_len = total len

record IsSumming (goal : ℕ) (s : MapReduce) : Type 0 where
  all_counted : s.total_length + total (λ n. n) s.results + total_len s.words ≡ goal
  room : length s.results + length s.words ≤ s.capacity
  closed_sent : s.closed ≡ true → length s.words ≡ 0
  finished_empty : s.finished ≡ true → (s.closed ≡ true) × (length s.results ≡ 0)

total-append : (f : ℕ → ℕ) (xs ys : List ℕ) → total f (xs ++ ys) ≡ total f xs + total f ys
total-append f [] ys = omega arith
total-append f (x ∷ xs) ys = omega (arith, total-append f xs ys)

sent_length :
    (s : MapReduce) {s' : MapReduce}
    → map_phase s ≡ some s'
    → (word : String) × (rest : List String) × (s.words ≡ word ∷ rest)
      × (s' ≡ record s { words = rest; results = s.results ++ len word ∷ [] })
unfolding map_phase
sent_length s h = elim (list_cases s.words) [
  | inl e ↦ absurd (ground (arith, h, e))
  | inr (word, rest, e) ↦ (word, rest, e, ground (arith, h, e))
]

added :
    (s : MapReduce) {s' : MapReduce}
    → reduce_phase s ≡ some s'
    → (n : ℕ) × (rest : List ℕ) × (s.results ≡ n ∷ rest)
      × (s' ≡ record s { results = rest; total_length = s.total_length + n })
unfolding reduce_phase
added s h = elim (list_cases s.results) [
  | inl e ↦ absurd (ground (arith, h, e))
  | inr (n, rest, e) ↦ (n, rest, e, ground (arith, h, e))
]

turn-IsSumming :
    (goal : ℕ) (t : Turn) (s : MapReduce) {s' : MapReduce}
    → IsSumming goal s
    → turn t s ≡ some s'
    → IsSumming goal s'
unfolding turn
turn-IsSumming goal send_length s k h =
    let (word, rest, e, q) = sent_length s h in
    record {
      all_counted = ground (
        arith,
        q,
        k.all_counted,
        ap total_len e,
        total-append (λ n. n) s.results (len word ∷ []),
      );
      room = ground (arith, q, k.room, ap length e, length-append s.results (len word ∷ []));
      closed_sent = λ c. absurd (ground (arith, q, ap length e, k.closed_sent));
      finished_empty =
          λ f. absurd (ground (arith, q, ap length e, k.closed_sent, k.finished_empty));
    }
turn-IsSumming goal add_length s k h =
    let (n, rest, e, q) = added s h in
    record {
      all_counted = ground (arith, q, k.all_counted, ap (total (λ n. n)) e);
      room = ground (arith, q, k.room, ap length e);
      closed_sent = λ c. ground (arith, q, k.closed_sent);
      finished_empty = λ f. absurd (ground (arith, q, ap length e, k.finished_empty));
    }
turn-IsSumming goal close_results s k h =
    ground (arith, k.all_counted, k.room, k.closed_sent, k.finished_empty)
turn-IsSumming goal return_total s k h =
    ground (arith, k.all_counted, k.room, k.closed_sent, k.finished_empty)

start-IsSumming : (words : List String) → IsSumming (total_len words) (map_reduce words)
unfolding map_reduce
start-IsSumming words = record {
  all_counted = omega arith;
  room = omega arith;
  closed_sent = λ c. cc c;
  finished_empty = λ f. cc f;
}

-- In every run of the two goroutines and of `main` the sender has no words left or can send the next
-- one without waiting for room, and the receiver has not returned yet or its total is the sum of the
-- lengths of the words, in bytes.
pub map_reduce_lem :
    (words : List String) (ts : List Turn) {s : MapReduce}
    → runs turn ts (map_reduce words) ≡ some s
    → ((s.finished ≡ false) ⊎ (s.total_length ≡ total_len words))
      × ((s.words ≡ []) ⊎ ((s' : MapReduce) × (turn send_length s ≡ some s')))
unfolding turn map_phase
map_reduce_lem words ts {s} h =
    let goal = total_len words in
    let k =
      runs-keeps turn (IsSumming goal) (λ t s s' k h. turn-IsSumming goal t s k h) ts
        (map_reduce words) (start-IsSumming words) h in
    (
      elim (Bool-cases s.finished) [
        | inl f ↦
            let over = k.finished_empty f in
            inr (
              omega (
                arith,
                k.all_counted,
                total-nil (λ n. n) s.results over.1,
                total-nil len s.words (k.closed_sent over.0),
              ))
        | inr f ↦ inl f
      ],
      elim (list_cases s.words) [
        | inl e ↦ inl e
        | inr (word, rest, e) ↦ inr (
          record s { words = rest; results = s.results ++ len word ∷ [] },
          rw e (ground (arith, k.room, ap length e)),
        )
      ],
    )
