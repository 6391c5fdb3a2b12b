-- ===== src/Exercises/WordCount.antt =====
-- 4/4.go: the lengths of words are summed over a channel. `main` waits for the sender, closes the
-- channel and waits for the receiver.
pub mod Sum
use Prim.Native.String.{len}
use major_assignments.Common.{
  ltb, ◌==◌, if◌then◌else◌, length, String, ℕ, ◌+◌, Bool, true, false, not, ◌&&◌, Option, none,
  some, List, [], ◌∷◌, ◌++◌,
}

-- `words` are those that `mapPhase` has still to send; `finished` says that `reducePhase` has returned.
pub record MapReduce : Type 0 where
  pub words : List String
  pub results : List ℕ
  pub capacity : ℕ
  pub closed : Bool
  pub total_length : ℕ
  pub finished : Bool

pub data Turn : Type 0 where
  send_length : Turn
  add_length : Turn
  close_results : Turn
  return_total : Turn

-- `results <- len(word)`
unfoldable pub map_phase : MapReduce → Option MapReduce
map_phase s = elim s.words [
  | [] ↦ none
  | word ∷ rest ↦
      if ltb (length s.results) s.capacity
      then some (record s { words = rest; results = s.results ++ len word ∷ [] })
      else none
]

-- `total += length`, and the end of the loop.
unfoldable pub reduce_phase : MapReduce → Option MapReduce
reduce_phase s = elim s.results [
  | [] ↦ none
  | n ∷ rest ↦ some (record s { results = rest; total_length = s.total_length + n })
]

unfoldable pub turn : Turn → MapReduce → Option MapReduce
turn send_length s = map_phase s
turn add_length s = reduce_phase s
turn close_results s =
    if length s.words == 0 && not s.closed then some (record s { closed = true }) else none
turn return_total s =
    if s.closed && length s.results == 0 && not s.finished
    then some (record s { finished = true })
    else none

-- The state when `mapReduce` starts its goroutines. The assignment of the result of `reducePhase` after
-- `wg.Done`, and what `mapReduce` returns, are not represented: `total_length` is the receiver's sum.
unfoldable pub map_reduce : List String → MapReduce
map_reduce words = record {
  words = words;
  results = [];
  capacity = length words;
  closed = false;
  total_length = 0;
  finished = false;
}
