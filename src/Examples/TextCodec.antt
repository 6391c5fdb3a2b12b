-- ===== src/Examples/TextCodec.antt =====
-- An encoder for the data of a server: texts are the numbers of their characters.
use Prim.Native.Nat.{Ordering, compare as compare_ℕ}
use Prim.Native.Char.{Char, char, code, IsLt}
use Prim.Native.String.{[] as nil_text, ◌∷◌ as cons_text}
use major_assignments.Common.{
  ◌>>=◌, length, String, ℕ, zero, suc, ◌<◌, ◌≡◌, refl, ap, ◌∙◌, Bool, Option, none, some, List, [],
  ◌∷◌, ◌++◌, arith,
}
use major_assignments.Kv.Server.{RaftPort, KvSaved}
use major_assignments.Kv.Server.Sequence.{kv_gob}
use major_assignments.Kv.Types.{Op}
use major_assignments.Labgob.{Labgob}
use major_assignments.Labgob.Stream.{Stream}

abbrev Both : Ordering → Ordering → Type 0
Both Ordering.lt o = IsLt o
Both Ordering.eq _ = ⊥
Both Ordering.gt _ = ⊥

abbrev Scalar : Ordering → Ordering → Ordering → Type 0
Scalar Ordering.lt _ _ = Unit
Scalar Ordering.eq o p = Both o p
Scalar Ordering.gt o p = Both o p

abbrev is_lt : (o : Ordering) → Option (IsLt o)
is_lt Ordering.lt = some tt
is_lt Ordering.eq = none
is_lt Ordering.gt = none

abbrev is_both : (o p : Ordering) → Option (Both o p)
is_both Ordering.lt p = is_lt p
is_both Ordering.eq _ = none
is_both Ordering.gt _ = none

abbrev is_scalar : (o p q : Ordering) → Option (Scalar o p q)
is_scalar Ordering.lt _ _ = some tt
is_scalar Ordering.eq p q = is_both p q
is_scalar Ordering.gt p q = is_both p q

is_lt-some : (o : Ordering) (h : IsLt o) → is_lt o ≡ some h
is_lt-some Ordering.lt h = refl
is_lt-some Ordering.eq h = absurd h
is_lt-some Ordering.gt h = absurd h

is_both-some : (o p : Ordering) (h : Both o p) → is_both o p ≡ some h
is_both-some Ordering.lt p h = is_lt-some p h
is_both-some Ordering.eq p h = absurd h
is_both-some Ordering.gt p h = absurd h

is_scalar-some : (o p q : Ordering) (h : Scalar o p q) → is_scalar o p q ≡ some h
is_scalar-some Ordering.lt p q h = refl
is_scalar-some Ordering.eq p q h = is_both-some p q h
is_scalar-some Ordering.gt p q h = is_both-some p q h

abbrev to_char : ℕ → Option Char
to_char n =
    is_scalar (compare_ℕ n 55296) (compare_ℕ 57343 n) (compare_ℕ n 1114112) >>= λ p. some (char n p)

to_char-code : (c : Char) → to_char (code c) ≡ some c
to_char-code (char n p) =
    ap (λ o. o >>= λ q. some (char n q))
      (is_scalar-some (compare_ℕ n 55296) (compare_ℕ 57343 n) (compare_ℕ n 1114112) p)

abbrev pub encode_text : String → List ℕ → List ℕ
encode_text nil_text rest = 0 ∷ rest
encode_text (cons_text c s) rest = suc (code c) ∷ encode_text s rest

abbrev pub decode_text : List ℕ → Option (String × List ℕ)
decode_text [] = none
decode_text (zero ∷ rest) = some ("", rest)
decode_text (suc n ∷ rest) = do c ← to_char n; (s, r) ← decode_text rest; some (cons_text c s, r)

pub decode_text-encode_text :
    (s : String) (rest : List ℕ) → decode_text (encode_text s rest) ≡ some (s, rest)
decode_text-encode_text nil_text rest = refl
decode_text-encode_text (cons_text c s) rest =
    rw (to_char-code c, decode_text-encode_text s rest) refl

abbrev encode_pairs : List (String × String) → List ℕ → List ℕ
encode_pairs [] rest = rest
encode_pairs (p ∷ ps) rest = encode_text p.0 (encode_text p.1 (encode_pairs ps rest))

abbrev decode_pairs : ℕ → List ℕ → Option (List (String × String) × List ℕ)
decode_pairs zero ns = some ([], ns)
decode_pairs (suc n) ns = do
  (k, ns1) ← decode_text ns
  (v, ns2) ← decode_text ns1
  (ps, ns3) ← decode_pairs n ns2
  some ((k, v) ∷ ps, ns3)

decode_pairs-encode_pairs :
    (ps : List (String × String)) (rest : List ℕ)
    → decode_pairs (length ps) (encode_pairs ps rest) ≡ some (ps, rest)
decode_pairs-encode_pairs [] rest = refl
decode_pairs-encode_pairs (p ∷ ps) rest =
    rw
      (
        decode_text-encode_text p.0 (encode_text p.1 (encode_pairs ps rest)),
        decode_text-encode_text p.1 (encode_pairs ps rest),
        decode_pairs-encode_pairs ps rest,
      )
      refl

encode_text-append :
    (s : String) (ns rest : List ℕ) → encode_text s ns ++ rest ≡ encode_text s (ns ++ rest)
encode_text-append nil_text ns rest = refl
encode_text-append (cons_text c s) ns rest =
    ap (λ xs. suc (code c) ∷ xs) (encode_text-append s ns rest)

encode_pairs-append :
    (ps : List (String × String)) (rest : List ℕ)
    → encode_pairs ps [] ++ rest ≡ encode_pairs ps rest
encode_pairs-append [] rest = refl
encode_pairs-append (p ∷ ps) rest =
    encode_text-append p.0 (encode_text p.1 (encode_pairs ps [])) rest
    ∙ ap (encode_text p.0) (
        encode_text-append p.1 (encode_pairs ps []) rest
        ∙ ap (encode_text p.1) (encode_pairs-append ps rest))

abbrev read_table : List ℕ → Option (List (String × String) × List ℕ)
read_table [] = none
read_table (n ∷ ns) = decode_pairs n ns

pub read_table-write :
    (ps : List (String × String)) (rest : List ℕ)
    → read_table (length ps ∷ encode_pairs ps [] ++ rest) ≡ some (ps, rest)
read_table-write ps rest =
    ap (decode_pairs (length ps)) (encode_pairs-append ps rest) ∙ decode_pairs-encode_pairs ps rest

abbrev pub table_stream : Stream (List (String × String))
table_stream = record {
  write = λ ps. length ps ∷ encode_pairs ps [];
  read = read_table;
  read-write = read_table-write;
  write_nonempty = λ ps. omega arith;
}

abbrev write_marks : List (ℕ × ℕ) → List ℕ
write_marks [] = 0 ∷ []
write_marks (p ∷ ps) = 1 ∷ p.0 ∷ p.1 ∷ write_marks ps

abbrev read_marks : List ℕ → Option (List (ℕ × ℕ) × List ℕ)
read_marks (suc _ ∷ a ∷ b ∷ ns) = do (ps, rest) ← read_marks ns; some ((a, b) ∷ ps, rest)
read_marks (zero ∷ ns) = some ([], ns)
read_marks _ = none

pub read_marks-write_marks :
    (ps : List (ℕ × ℕ)) (rest : List ℕ) → read_marks (write_marks ps ++ rest) ≡ some (ps, rest)
read_marks-write_marks [] rest = refl
read_marks-write_marks (p ∷ ps) rest = rw (read_marks-write_marks ps rest) refl

pub write_marks_nonempty : (ps : List (ℕ × ℕ)) → 0 < length (write_marks ps)
write_marks_nonempty [] = omega arith
write_marks_nonempty (p ∷ ps) = omega arith

abbrev pub mark_stream : Stream (List (ℕ × ℕ))
mark_stream = record {
  write = write_marks;
  read = read_marks;
  read-write = read_marks-write_marks;
  write_nonempty = write_marks_nonempty;
}

abbrev pub data_gob : Labgob KvSaved
data_gob = kv_gob table_stream mark_stream

-- A Raft module that remembers whether it leads, the commands given to it, and its snapshot.
abbrev pub port : RaftPort
port = record {
  Peer = Bool × List Op × List ℕ;
  is_leader = λ p. p.0;
  start = λ op p. (p.0, p.1 ++ op ∷ [], p.2);
  save_persist_and_snapshot = λ _ bytes p. (p.0, p.1, bytes);
  state_size = λ p. length p.1;
  read_snapshot = λ p. p.2;
}
