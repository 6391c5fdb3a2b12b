-- ===== src/Common/Panic.antt =====
-- Code that can stop the process: `none` is a run-time panic or `log.Fatal`, and the accesses to a
-- slice are written with the bounds check that Go makes.
use mathlib.Core.Path.{subst}
use Prim.Native.Nat.{ℕ, zero, suc, ◌<◌}
use mathlib.Core.Path.{◌≡◌, refl, ap}
use mathlib.Core.List.{List, [], ◌∷◌}
use mathlib.Core.Option.{Option, none, some}
use native.Mathlib.Omega.{arith}
use major_assignments.Common.Tests.{if◌then◌else◌, leb}
use major_assignments.Common.Lists.{length, get_elem?, take, drop}

infixl 5 ◌>>=◌
abbrev pub ◌>>=◌ {ℓ κ} : {A : Type ℓ} {B : Type κ} → Option A → (A → Option B) → Option B
none >>= f = none
some a >>= f = f a

-- `xs[i] = v`
abbrev pub set? {ℓ} : {A : Type ℓ} → List A → ℕ → A → Option (List A)
set? [] i v = none
set? (x ∷ xs) zero v = some (v ∷ xs)
set? (x ∷ xs) (suc i) v = set? xs i v >>= λ ys. some (x ∷ ys)

-- `xs[n:]`
abbrev pub slice_from {ℓ} : {A : Type ℓ} → ℕ → List A → Option (List A)
slice_from n xs = if leb n (length xs) then some (drop n xs) else none

-- `xs[:n]`, for a slice with no spare capacity that matters
abbrev pub slice_to {ℓ} : {A : Type ℓ} → ℕ → List A → Option (List A)
slice_to n xs = if leb n (length xs) then some (take n xs) else none

-- The code does not panic, and its result satisfies `P`.
abbrev pub Returns {ℓ} : {A : Type ℓ} → Option A → (A → Type 0) → Type 0
Returns none P = ⊥
Returns (some a) P = P a

pub Returns-some {ℓ} :
    {A : Type ℓ} {P : A → Type 0} (o : Option A) → Returns o P → (a : A) × (o ≡ some a) × P a
Returns-some none h = absurd h
Returns-some (some a) h = (a, refl, h)

pub Returns-map {ℓ} :
    {A : Type ℓ} {P Q : A → Type 0}
    → ((a : A) → P a → Q a)
    → (o : Option A) → Returns o P
    → Returns o Q
Returns-map f none h = absurd h
Returns-map f (some a) h = f a h

pub returned {ℓ} :
    {A : Type ℓ} (P : A → Type 0) {o : Option A} {a : A} → Returns o P → o ≡ some a → P a
returned P h e = subst (λ o. Returns o P) e h

pub >>=-eq-some {ℓ κ} :
    {A : Type ℓ} {B : Type κ} (m : Option A) (f : A → Option B) {b : B}
    → (m >>= f) ≡ some b
    → (a : A) × (m ≡ some a) × (f a ≡ some b)
>>=-eq-some none f h = cc
>>=-eq-some (some a) f h = (a, refl, h)

module _ {ℓ} {A : Type ℓ} where
  pub set?-lt :
      (xs : List A) (i : ℕ) (v : A)
      → i < length xs
      → (ys : List A) × (set? xs i v ≡ some ys) × (length ys ≡ length xs)
  set?-lt [] i v h = elim h [ ]
  set?-lt (x ∷ xs) zero v h = (v ∷ xs, refl, refl)
  set?-lt (x ∷ xs) (suc i) v h =
      let (ys, e, l) = set?-lt xs i v (omega arith) in
      (x ∷ ys, ap (λ (o : Option (List A)). o >>= λ zs. some (x ∷ zs)) e, ap suc l)

  -- A slice that has a place can be written there, and then holds what was written.
  pub set?-get_elem? :
      (xs : List A) (i : ℕ) (v : A) {a : A}
      → get_elem? xs i ≡ some a
      → (ys : List A) × (set? xs i v ≡ some ys) × (get_elem? ys i ≡ some v)
  set?-get_elem? [] i v h = cc
  set?-get_elem? (x ∷ xs) zero v h = (v ∷ xs, refl, refl)
  set?-get_elem? (x ∷ xs) (suc i) v h =
      let (ys, p, q) = set?-get_elem? xs i v h in (x ∷ ys, ap (λ o. o >>= λ zs. some (x ∷ zs)) p, q)
