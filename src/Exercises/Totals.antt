-- ===== src/Exercises/Totals.antt =====
-- Sums over the goroutines of a program.
use major_assignments.Common.{
  ltb, ◌==◌, if◌then◌else◌, Bool-cases, set?, >>=-eq-some, length, get_elem?, ℕ, zero, suc, ◌+◌,
  ◌<◌, ◌≡◌, refl, ◌⊎◌, inl, inr, some, List, [], ◌∷◌, ◌++◌, arith,
}

module _ {ℓ} {A : Type ℓ} where
  abbrev pub total : (A → ℕ) → List A → ℕ
  total f [] = 0
  total f (x ∷ xs) = f x + total f xs

  pub total-nil : (f : A → ℕ) (xs : List A) → length xs ≡ 0 → total f xs ≡ 0
  total-nil f [] h = refl
  total-nil f (x ∷ xs) h = absurd (omega arith)

  -- One of them changes.
  pub total-set? :
      (f : A → ℕ) (xs : List A) (i : ℕ) (a b : A) {ys : List A}
      → get_elem? xs i ≡ some a
      → set? xs i b ≡ some ys
      → total f ys + f a ≡ total f xs + f b
  total-set? f [] i a b g h = cc g
  total-set? f (x ∷ xs) zero a b g h = ground arith
  total-set? f (x ∷ xs) (suc i) a b g h =
      let (zs, p, q) = >>=-eq-some (set? xs i b) (λ zs. some (x ∷ zs)) h in
      ground (arith, q, total-set? f xs i a b g p)

  -- Some goroutine has something left.
  pub positive_total :
      (f : A → ℕ) (xs : List A)
      → 0 < total f xs
      → (i : ℕ) × (a : A) × (get_elem? xs i ≡ some a) × (0 < f a)
  positive_total f [] h = absurd (omega arith)
  positive_total f (x ∷ xs) h = elim (Bool-cases (ltb 0 (f x))) [
    | inl e ↦ (0, x, refl, ground arith)
    | inr e ↦ let (i, a, p, q) = positive_total f xs (ground arith) in (suc i, a, p, q)
  ]

-- How often a number is in a list.
abbrev pub count : ℕ → List ℕ → ℕ
count n [] = 0
count n (m ∷ rest) = let others = count n rest in if n == m then suc others else others

pub count-append :
    (n : ℕ) (front back : List ℕ) → count n (front ++ back) ≡ count n back + count n front
count-append n [] back = omega arith
count-append n (m ∷ front) back = ground (arith, count-append n front back)

pub list_cases {ℓ} :
    {A : Type ℓ} (xs : List A) → (xs ≡ []) ⊎ ((x : A) × (rest : List A) × (xs ≡ x ∷ rest))
list_cases [] = inl refl
list_cases (x ∷ rest) = inr (x, rest, refl)
