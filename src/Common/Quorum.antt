-- ===== src/Common/Quorum.antt =====
-- Sets of servers as lists of different numbers, and the fact that two majorities meet.
use Prim.Native.Nat.{ℕ, zero, suc, ◌+◌, ◌≤◌, ◌<◌}
use mathlib.Core.Path.{◌≡◌, refl, ap}
use mathlib.Core.Logic.{inl, inr}
use mathlib.Core.Bool.{Bool, true, false}
use mathlib.Core.List.{List, [], ◌∷◌}
use native.Mathlib.Omega.{arith}
use major_assignments.Common.Tests.{leb, ◌==◌, if◌then◌else◌, Bool-cases}
use major_assignments.Common.Lists.{length}

abbrev pub contains : ℕ → List ℕ → Bool
contains a [] = false
contains a (x ∷ xs) = let rest = contains a xs in if a == x then true else rest

abbrev pub IsDistinct : List ℕ → Type 0
IsDistinct [] = Unit
IsDistinct (x ∷ xs) = (contains x xs ≡ false) × IsDistinct xs

abbrev pub AllBelow : ℕ → List ℕ → Type 0
AllBelow n [] = Unit
AllBelow n (x ∷ xs) = (x < n) × AllBelow n xs

without : ℕ → List ℕ → List ℕ
without a [] = []
without a (x ∷ xs) = let rest = without a xs in if a == x then rest else x ∷ rest

contains-without : (a b : ℕ) (xs : List ℕ) → contains b (without a xs) ≡ true → contains b xs ≡ true
unfolding without
contains-without a b [] h = cc
contains-without a b (x ∷ xs) h = ground (arith, contains-without a b xs)

without_absent : (a : ℕ) (xs : List ℕ) → contains a xs ≡ false → without a xs ≡ xs
unfolding without
without_absent a [] h = refl
without_absent a (x ∷ xs) h = ground (arith, without_absent a xs)

contains-without-false :
    (a b : ℕ) (xs : List ℕ) → contains b xs ≡ false → contains b (without a xs) ≡ false
unfolding without
contains-without-false a b [] h = refl
contains-without-false a b (x ∷ xs) h = ground (arith, contains-without-false a b xs)

without-IsDistinct : (a : ℕ) (xs : List ℕ) → IsDistinct xs → IsDistinct (without a xs)
unfolding without
without-IsDistinct a [] h = tt
without-IsDistinct a (x ∷ xs) h = elim (Bool-cases (a == x)) [
  | inl e ↦ rw e (without-IsDistinct a xs h.1)
  | inr e ↦ rw e (contains-without-false a x xs h.0, without-IsDistinct a xs h.1)
]

-- With no duplicates, at most one element goes.
length-without : (a : ℕ) (xs : List ℕ) → IsDistinct xs → length xs ≤ suc (length (without a xs))
unfolding without
length-without a [] h = omega arith
length-without a (x ∷ xs) h = elim (Bool-cases (a == x)) [
  | inl e ↦ ground (arith, without_absent a xs, h.0)
  | inr e ↦ rw e (omega (arith, length-without a xs h.1))
]

without-AllBelow : (n : ℕ) (xs : List ℕ) → AllBelow (suc n) xs → AllBelow n (without n xs)
unfolding without
without-AllBelow n [] h = tt
without-AllBelow n (x ∷ xs) h = elim (Bool-cases (n == x)) [
  | inl e ↦ rw e (without-AllBelow n xs h.1)
  | inr e ↦ rw e (ground arith, without-AllBelow n xs h.1)
]

-- Two sets of numbers below `n` with more than `n` members together have one in common.
pub common_member :
    (n : ℕ) (xs ys : List ℕ)
    → AllBelow n xs
    → AllBelow n ys
    → IsDistinct xs
    → IsDistinct ys
    → n < length xs + length ys
    → (v : ℕ) × (contains v xs ≡ true) × (contains v ys ≡ true)
common_member zero [] [] bx by dx dy h = absurd (omega arith)
common_member zero [] (y ∷ ys) bx by dx dy h = absurd (omega (arith, by.0))
common_member zero (x ∷ xs) ys bx by dx dy h = absurd (omega (arith, bx.0))
common_member (suc n) xs ys bx by dx dy h = elim (Bool-cases (contains n xs)) [
  | inl p ↦ elim (Bool-cases (contains n ys)) [
    | inl q ↦ (n, p, q)
    | inr q ↦ lift (
        common_member n (without n xs) (without n ys) (without-AllBelow n xs bx)
          (without-AllBelow n ys by) (without-IsDistinct n xs dx) (without-IsDistinct n ys dy)
          (omega (arith, length-without n xs dx, ap length (without_absent n ys q))))
  ]
  | inr p ↦ lift (
      common_member n (without n xs) (without n ys) (without-AllBelow n xs bx)
        (without-AllBelow n ys by) (without-IsDistinct n xs dx) (without-IsDistinct n ys dy)
        (omega (arith, length-without n ys dy, ap length (without_absent n xs p))))
]
  where
    lift :
        (v : ℕ) × (contains v (without n xs) ≡ true) × (contains v (without n ys) ≡ true)
        → (v : ℕ) × (contains v xs ≡ true) × (contains v ys ≡ true)
    lift (v, p, q) = (v, contains-without n v xs p, contains-without n v ys q)

pub AllBelow-contains : (n v : ℕ) (xs : List ℕ) → AllBelow n xs → contains v xs ≡ true → v < n
AllBelow-contains n v [] b h = cc
AllBelow-contains n v (x ∷ xs) b h = ground (arith, AllBelow-contains n v xs)

-- How many positions are at least `i`.
abbrev pub count_ge : ℕ → List ℕ → ℕ
count_ge i [] = 0
count_ge i (m ∷ ms) = (if leb i m then 1 else 0) + count_ge i ms

pub count_ge_antitone : (i j : ℕ) (ms : List ℕ) → i ≤ j → count_ge j ms ≤ count_ge i ms
count_ge_antitone i j [] h = omega arith
count_ge_antitone i j (m ∷ ms) h = ground (arith, count_ge_antitone i j ms h)
