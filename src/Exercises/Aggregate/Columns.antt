-- ===== src/Exercises/Aggregate/Columns.antt =====
-- What the collector puts together.
use Prim.Native.Nat.{max}
use major_assignments.Common.{
  ◌==◌, length, get_elem?, ℕ, zero, suc, ◌-◌, ◌≡◌, refl, ap, none, some, List, [], ◌∷◌, ◌++◌, arith,
}
use major_assignments.Exercises.Aggregate.{collect_round, aggregate}

-- The number in place `r` of each source that has one.
abbrev pub column : ℕ → List (List ℕ) → List ℕ
column r [] = []
column r (source ∷ sources) = elim (get_elem? source r) [
  | none ↦ column r sources
  | some number ↦ number ∷ column r sources
]

-- The columns from `r` on, `k` of them.
abbrev pub columns : ℕ → ℕ → List (List ℕ) → List ℕ
columns r zero sources = []
columns r (suc k) sources = column r sources ++ columns (suc r) k sources

abbrev pub longest : List (List ℕ) → ℕ
longest [] = 0
longest (source ∷ sources) = max (length source) (longest sources)

round_column : (sources : List (List ℕ)) → (collect_round sources).0 ≡ column 0 sources
unfolding collect_round
round_column [] = refl
round_column ([] ∷ sources) = round_column sources
round_column ((number ∷ more) ∷ sources) = ap (λ xs. number ∷ xs) (round_column sources)

rest_column :
    (r : ℕ) (sources : List (List ℕ)) → column r (collect_round sources).1 ≡ column (suc r) sources
unfolding collect_round
rest_column r [] = refl
rest_column r ([] ∷ sources) = rest_column r sources
rest_column r ((number ∷ more) ∷ sources) = ground (arith, rest_column r sources)

rest_columns :
    (k r : ℕ) (sources : List (List ℕ))
    → columns r k (collect_round sources).1 ≡ columns (suc r) k sources
rest_columns zero r sources = refl
rest_columns (suc k) r sources = cc (rest_column r sources, rest_columns k (suc r) sources)

rest_longest : (sources : List (List ℕ)) → longest (collect_round sources).1 ≡ longest sources - 1
unfolding collect_round
rest_longest [] = omega arith
rest_longest ([] ∷ sources) = omega (arith, rest_longest sources)
rest_longest ((number ∷ more) ∷ sources) = omega (arith, rest_longest sources)

received_none :
    (sources : List (List ℕ)) → (length (collect_round sources).0 == 0) ≡ (longest sources == 0)
unfolding collect_round
received_none [] = refl
received_none ([] ∷ sources) = ground (arith, received_none sources)
received_none ((number ∷ more) ∷ sources) = ground arith

-- The collector ends after one round more than the longest source has numbers, and has put together
-- the first numbers of all sources, then the second ones, and so on, in the order of the sources.
pub aggregate_lem :
    (k : ℕ) (sources : List (List ℕ))
    → longest sources ≡ k
    → aggregate (suc k) sources ≡ some (columns 0 k sources)
unfolding aggregate
aggregate_lem zero sources h = ground (arith, received_none sources)
aggregate_lem (suc k) sources h =
    let ih = aggregate_lem k (collect_round sources).1 (omega (arith, rest_longest sources)) in
    ground (arith, received_none sources, ih, round_column sources, rest_columns k 0 sources)
