-- ===== src/Exercises/Runs.antt =====
-- Runs of a program: its moves in the order in which they happen.
use mathlib.Core.Path.{subst}
use major_assignments.Common.{◌>>=◌, >>=-eq-some, ◌≡◌, Option, some, List, [], ◌∷◌, arith}

module _ {M S : Type 0} (advance : M → S → Option S) where
  unfoldable pub runs : List M → S → Option S
  runs [] s = some s
  runs (m ∷ ms) s = advance m s >>= λ s'. runs ms s'

  -- What every move keeps, every run keeps.
  pub runs-keeps :
      (P : S → Type 0)
      → ((m : M) (s s' : S) → P s → advance m s ≡ some s' → P s')
      → (ms : List M) (s : S) {s' : S} → P s
      → runs ms s ≡ some s'
      → P s'
  unfolding runs
  runs-keeps P keep [] s {s'} p h = subst P (ground arith) p
  runs-keeps P keep (m ∷ ms) s p h =
      let (t, q, r) = >>=-eq-some (advance m s) (λ t. runs ms t) h in
      runs-keeps P keep ms t (keep m s t p q) r
