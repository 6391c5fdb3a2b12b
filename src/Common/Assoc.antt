-- ===== src/Common/Assoc.antt =====
-- Go's maps, as association lists over keys with a Boolean equality. The order of the
-- entries says nothing: a loop over a map takes the order in which Go visits it as a parameter.
use Prim.Native.Nat.{ℕ}
use Prim.Native.String.{String}
use mathlib.Core.Path.{◌≡◌, refl}
use mathlib.Core.Logic.{◌↔◌}
use mathlib.Core.Bool.{Bool, true}
use mathlib.Core.Option.{Option, none, some}
use mathlib.Core.List.{List, [], ◌∷◌}
use native.Mathlib.Omega.{arith}
use text.Mathlib.Text.{◌==◌ as str_eq}
use text.Mathlib.TextEquality.{eq_iff}
use major_assignments.Common.Tests.{◌==◌, if◌then◌else◌}

pub record Eq {ℓ} (A : Type ℓ) : Type ℓ where
  pub beq : A → A → Bool
  pub beq_iff : (x y : A) → (beq x y ≡ true) ↔ (x ≡ y)

pub nat_beq_iff : (a b : ℕ) → ((a == b) ≡ true) ↔ (a ≡ b)
nat_beq_iff a b = ground arith

instance abbrev pub nat_eq : Eq ℕ
nat_eq = record { beq = ◌==◌; beq_iff = nat_beq_iff }

instance abbrev pub string_eq : Eq String
string_eq = record { beq = str_eq; beq_iff = eq_iff }

module _ {ℓ κ} {K : Type ℓ} {V : Type κ} ⦃e : Eq K⦄ where
  -- `v, ok := m[k]`
  unfoldable pub map_get : K → List (K × V) → Option V
  map_get k [] = none
  map_get k ((j, v) ∷ m) = let rest = map_get k m in if e.beq j k then some v else rest

  -- `m[k] = v`
  unfoldable pub map_put : K → V → List (K × V) → List (K × V)
  map_put k v [] = (k, v) ∷ []
  map_put k v ((j, w) ∷ m) =
      let rest = map_put k v m in if e.beq j k then (k, v) ∷ m else (j, w) ∷ rest

  -- `delete(m, k)`
  unfoldable pub map_delete : K → List (K × V) → List (K × V)
  map_delete k [] = []
  map_delete k ((j, w) ∷ m) = let rest = map_delete k m in if e.beq j k then rest else (j, w) ∷ rest

  pub map_get-put :
      (k j : K) (v : V) (m : List (K × V))
      → map_get j (map_put k v m) ≡ (if e.beq k j then some v else map_get j m)
  unfolding map_get map_put
  map_get-put k j v [] = refl
  map_get-put k j v ((i, w) ∷ m) =
      ground (arith, e.beq_iff k j, e.beq_iff i k, e.beq_iff i j, map_get-put k j v m)

  pub map_get-delete :
      (k j : K) (m : List (K × V))
      → map_get j (map_delete k m) ≡ (if e.beq k j then none else map_get j m)
  unfolding map_get map_delete
  map_get-delete k j [] = ground arith
  map_get-delete k j ((i, w) ∷ m) =
      ground (arith, e.beq_iff k j, e.beq_iff i k, e.beq_iff i j, map_get-delete k j m)
