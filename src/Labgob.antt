-- ===== src/Labgob.antt =====
-- The encoder `6.824/labgob`, which is not part of the repository: what the code relies on is that
-- decoding what was encoded gives it back, and that no encoding is empty.
pub mod Stream
use major_assignments.Common.{length, ℕ, ◌<◌, ◌≡◌, Option, some, List}

pub record Labgob (S : Type 0) : Type 0 where
  pub encode : S → List ℕ
  pub decode : List ℕ → Option S
  pub decode-encode : (s : S) → decode (encode s) ≡ some s
  pub encode_nonempty : (s : S) → 0 < length (encode s)
