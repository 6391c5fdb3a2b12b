-- ===== src/Labgob/Stream.antt =====
-- The calls of `Encode` and `Decode` one by one: what an encoder has written, a decoder reads back in
-- the same order, whatever follows. The bytes of one value of the type `A`.
use major_assignments.Common.{length, ℕ, ◌<◌, ◌≡◌, Option, some, List, ◌++◌}

pub record Stream (A : Type 0) : Type 0 where
  pub write : A → List ℕ
  pub read : List ℕ → Option (A × List ℕ)
  pub read-write : (a : A) (rest : List ℕ) → read (write a ++ rest) ≡ some (a, rest)
  pub write_nonempty : (a : A) → 0 < length (write a)
