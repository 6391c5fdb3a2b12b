-- ===== src/Examples/Codec.antt =====
-- An encoder for the persistent state of a peer whose commands are numbers.
use major_assignments.Common.{
  ◌>>=◌, length, ℕ, zero, suc, ◌<◌, ◌≡◌, refl, ap, Option, none, some, List, [], ◌∷◌, ◌++◌, arith,
}
use major_assignments.Labgob.{Labgob}
use major_assignments.Labgob.Stream.{Stream}
use major_assignments.Raft.Persist.{Saved}
use major_assignments.Raft.Persist.Sequence.{saved_gob}
use major_assignments.Raft.Types.{LogEntry}

abbrev of_option : Option ℕ → ℕ
of_option none = 0
of_option (some n) = suc n

abbrev to_option : ℕ → Option ℕ
to_option zero = none
to_option (suc n) = some n

pub to_option-of_option : (o : Option ℕ) → to_option (of_option o) ≡ o
to_option-of_option none = refl
to_option-of_option (some n) = refl

abbrev read_int : List ℕ → Option (ℕ × List ℕ)
read_int [] = none
read_int (n ∷ ns) = some (n, ns)

abbrev pub int_stream : Stream ℕ
int_stream = record {
  write = λ n. n ∷ [];
  read = read_int;
  read-write = λ n rest. refl;
  write_nonempty = λ n. omega arith;
}

abbrev read_option : List ℕ → Option (Option ℕ × List ℕ)
read_option [] = none
read_option (n ∷ ns) = some (to_option n, ns)

abbrev pub option_stream : Stream (Option ℕ)
option_stream = record {
  write = λ o. of_option o ∷ [];
  read = read_option;
  read-write = λ o rest. ap (λ p. some (p, rest)) (to_option-of_option o);
  write_nonempty = λ o. omega arith;
}

abbrev write_entries : List (LogEntry ℕ) → List ℕ
write_entries [] = 0 ∷ []
write_entries (e ∷ es) = 1 ∷ e.term ∷ of_option e.command ∷ write_entries es

abbrev read_entries : List ℕ → Option (List (LogEntry ℕ) × List ℕ)
read_entries (suc _ ∷ t ∷ c ∷ ns) = do
  (es, rest) ← read_entries ns
  some (record { term = t; command = to_option c } ∷ es, rest)
read_entries (zero ∷ ns) = some ([], ns)
read_entries _ = none

pub read_entries-write_entries :
    (es : List (LogEntry ℕ)) (rest : List ℕ)
    → read_entries (write_entries es ++ rest) ≡ some (es, rest)
read_entries-write_entries [] rest = refl
read_entries-write_entries (e ∷ es) rest =
    rw (read_entries-write_entries es rest, to_option-of_option e.command) refl

pub write_entries_nonempty : (es : List (LogEntry ℕ)) → 0 < length (write_entries es)
write_entries_nonempty [] = omega arith
write_entries_nonempty (e ∷ es) = omega arith

abbrev pub entries_stream : Stream (List (LogEntry ℕ))
entries_stream = record {
  write = write_entries;
  read = read_entries;
  read-write = read_entries-write_entries;
  write_nonempty = write_entries_nonempty;
}

abbrev pub raft_gob : Labgob (Saved ℕ)
raft_gob = saved_gob int_stream option_stream entries_stream
