-- ===== src/Exercises/Aggregate.antt =====
-- 2/2.go: one goroutine collects what several sources send, each over its own channel. A source sends
-- its numbers and closes its channel, so that a receive of it gives the next number, or that the
-- channel is closed.
pub mod Columns
use major_assignments.Common.{
  ◌==◌, if◌then◌else◌, ◌>>=◌, length, ℕ, zero, suc, Option, none, some, List, [], ◌∷◌, ◌++◌,
}

-- The inner loop: one receive of every channel. What was received, and what each source has left.
unfoldable pub collect_round : List (List ℕ) → List ℕ × List (List ℕ)
collect_round [] = ([], [])
collect_round (source ∷ sources) =
    let rest = collect_round sources in
    elim source [ [] ↦ (rest.0, [] ∷ rest.1) | number ∷ more ↦ (number ∷ rest.0, more ∷ rest.1) ]

-- The outer loop, which ends after a round in which every channel was closed; `none` is a loop that is
-- not over after the given number of rounds.
unfoldable pub aggregate : ℕ → List (List ℕ) → Option (List ℕ)
unfolding collect_round
aggregate zero sources = none
aggregate (suc rounds) sources =
    let (received, left) = collect_round sources in
    let rest = aggregate rounds left in
    if length received == 0 then some [] else (rest >>= λ later. some (received ++ later))
