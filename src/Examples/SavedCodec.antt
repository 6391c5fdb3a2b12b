-- ===== src/Examples/SavedCodec.antt =====
-- An encoder for what a peer of Lab-3A saves, for commands with an encoder of their own.
use major_assignments.Common.{
  ◌>>=◌, length, String, ℕ, zero, suc, ◌≡◌, refl, Option, none, some, List, [], ◌∷◌, arith,
}
use major_assignments.Examples.TextCodec.{encode_text, decode_text, decode_text-encode_text}
use major_assignments.Kv.Types.{Operation, put, append, get, other, Op}
use major_assignments.Lab3a.Persist.{Saved}
use major_assignments.Lab3a.Types.{LogEntry, VoteFor}
use major_assignments.Labgob.{Labgob}

-- An encoder of a part, in front of the rest.
pub record Part (A : Type 0) : Type 0 where
  pub put : A → List ℕ → List ℕ
  pub take_off : List ℕ → Option (A × List ℕ)
  pub take_off-put : (a : A) (rest : List ℕ) → take_off (put a rest) ≡ some (a, rest)

abbrev take_nat : List ℕ → Option (ℕ × List ℕ)
take_nat [] = none
take_nat (n ∷ ns) = some (n, ns)

abbrev pub nat_part : Part ℕ
nat_part = record { put = λ n ns. n ∷ ns; take_off = take_nat; take_off-put = λ n ns. refl }

module _ {A : Type 0} (p : Part A) where
  abbrev put_option : Option A → List ℕ → List ℕ
  put_option none rest = 0 ∷ rest
  put_option (some a) rest = 1 ∷ p.put a rest

  abbrev take_option : List ℕ → Option (Option A × List ℕ)
  take_option [] = none
  take_option (zero ∷ ns) = some (none, ns)
  take_option (suc _ ∷ ns) = p.take_off ns >>= λ r. some (some r.0, r.1)

  pub take_option-put :
      (o : Option A) (rest : List ℕ) → take_option (put_option o rest) ≡ some (o, rest)
  take_option-put none rest = refl
  take_option-put (some a) rest = rw (p.take_off-put a rest) refl

  abbrev put_all : List A → List ℕ → List ℕ
  put_all [] rest = rest
  put_all (a ∷ xs) rest = p.put a (put_all xs rest)

  abbrev take_all_off : ℕ → List ℕ → Option (List A × List ℕ)
  take_all_off zero ns = some ([], ns)
  take_all_off (suc n) ns = do
    (a, ns1) ← p.take_off ns
    (xs, ns2) ← take_all_off n ns1
    some (a ∷ xs, ns2)

  take_all_off-put :
      (xs : List A) (rest : List ℕ) → take_all_off (length xs) (put_all xs rest) ≡ some (xs, rest)
  take_all_off-put [] rest = refl
  take_all_off-put (a ∷ xs) rest =
      rw (p.take_off-put a (put_all xs rest), take_all_off-put xs rest) refl

abbrev of_operation : Operation → ℕ
of_operation put = 0
of_operation append = 1
of_operation get = 2
of_operation other = 3

abbrev to_operation : ℕ → Operation
to_operation zero = put
to_operation (suc zero) = append
to_operation (suc (suc zero)) = get
to_operation (suc (suc (suc _))) = other

to_operation-of : (o : Operation) → to_operation (of_operation o) ≡ o
to_operation-of put = refl
to_operation-of append = refl
to_operation-of get = refl
to_operation-of other = refl

abbrev put_op : Op → List ℕ → List ℕ
put_op op rest =
    encode_text op.key (
      encode_text op.value
        (of_operation op.operation ∷ op.msg_id ∷ op.req_id ∷ op.client_id ∷ rest))

abbrev numbers_of_op : String → String → List ℕ → Option (Op × List ℕ)
numbers_of_op key value (o ∷ m ∷ r ∷ c ∷ rest) = some (
  record {
    key = key;
    value = value;
    operation = to_operation o;
    msg_id = m;
    req_id = r;
    client_id = c;
  },
  rest,
)
numbers_of_op key value _ = none

abbrev take_op : List ℕ → Option (Op × List ℕ)
take_op ns = do
  (key, ns1) ← decode_text ns
  (value, ns2) ← decode_text ns1
  numbers_of_op key value ns2

pub take_op-put : (op : Op) (rest : List ℕ) → take_op (put_op op rest) ≡ some (op, rest)
take_op-put op rest =
    let numbers = of_operation op.operation ∷ op.msg_id ∷ op.req_id ∷ op.client_id ∷ rest in
    rw
      (
        decode_text-encode_text op.key (encode_text op.value numbers),
        decode_text-encode_text op.value numbers,
        to_operation-of op.operation,
      )
      refl

abbrev pub op_part : Part Op
op_part = record { put = put_op; take_off = take_op; take_off-put = take_op-put }

module _ {C : Type 0} (p : Part C) where
  abbrev put_entry : LogEntry C → List ℕ → List ℕ
  put_entry e rest = e.term ∷ e.idx ∷ put_option p e.command rest

  abbrev take_entry : List ℕ → Option (LogEntry C × List ℕ)
  take_entry (t ∷ i ∷ ns) =
      take_option p ns >>= λ r. some (record { term = t; idx = i; command = r.0 }, r.1)
  take_entry _ = none

  pub take_entry-put :
      (e : LogEntry C) (rest : List ℕ) → take_entry (put_entry e rest) ≡ some (e, rest)
  take_entry-put e rest = rw (take_option-put p e.command rest) refl

  abbrev entry_part : Part (LogEntry C)
  entry_part = record { put = put_entry; take_off = take_entry; take_off-put = take_entry-put }

  abbrev put_vote : VoteFor → List ℕ → List ℕ
  put_vote v rest = v.term ∷ v.id ∷ rest

  abbrev take_vote : List ℕ → Option (VoteFor × List ℕ)
  take_vote (t ∷ i ∷ ns) = some (record { term = t; id = i }, ns)
  take_vote _ = none

  abbrev vote_part : Part VoteFor
  vote_part = record { put = put_vote; take_off = take_vote; take_off-put = λ v ns. refl }

  abbrev encode_state : Saved C → List ℕ
  encode_state s =
      s.term
      ∷ s.commit_index
      ∷ s.last_applied
      ∷ length s.log_entries
      ∷ put_option vote_part s.vote_for (put_all entry_part s.log_entries [])

  abbrev decode_state : List ℕ → Option (Saved C)
  decode_state (t ∷ c ∷ a ∷ n ∷ ns) = do
    (v, ns1) ← take_option vote_part ns
    (es, _) ← take_all_off entry_part n ns1
    some (record { term = t; vote_for = v; commit_index = c; last_applied = a; log_entries = es })
  decode_state _ = none

  pub decode_state-encode : (s : Saved C) → decode_state (encode_state s) ≡ some s
  decode_state-encode s =
      rw
        (
          take_option-put vote_part s.vote_for (put_all entry_part s.log_entries []),
          take_all_off-put entry_part s.log_entries [],
        )
        refl

  abbrev pub saved_gob : Labgob (Saved C)
  saved_gob = record {
    encode = encode_state;
    decode = decode_state;
    decode-encode = decode_state-encode;
    encode_nonempty = λ s. omega arith;
  }
