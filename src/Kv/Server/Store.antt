-- ===== src/Kv/Server/Store.antt =====
-- What applying commands does to the data.
use Prim.Native.String.{◌++◌ as join}
use major_assignments.Common.{
  ◌==◌, if◌then◌else◌, map_get, nat_beq_iff, string_eq, map_get-put, String, ℕ, ◌≡◌, ◌≢◌, Bool,
  true, false, ◌&&◌, Option, none, some, List, [], ◌∷◌, arith, nat_eq,
}
use major_assignments.Kv.Server.{KvSaved, text_or, data_get, is_repeated, apply_op}
use major_assignments.Kv.Types.{Operation, put, append, get, other, Op}

-- The value that `op` leaves at its key, where it writes.
abbrev pub written : Op → List (String × String) → Option String
written op m = elim op.operation [
  | put ↦ some op.value
  | append ↦ some (join (text_or (map_get op.key m)) op.value)
  | get ↦ none
  | other ↦ none
]

abbrev pub is_write : Operation → Bool
is_write put = true
is_write append = true
is_write _ = false

data_get-text : (k : String) (m : List (String × String)) → (data_get k m).1 ≡ text_or (map_get k m)
unfolding data_get
data_get-text k m = ground arith

-- One command against the abstract store, a function from keys to values: a repeated one changes
-- nothing; `Put` sets its key, `Append` extends it, from the empty text if it is not there, and every
-- other key stays; a `Get`, and an unknown operation, change nothing.
apply_op-refines :
    (op : Op) (s : KvSaved) (k : String)
    → map_get k (apply_op op s).contents ≡ (
        if is_repeated op.client_id op.msg_id s.last_applies
        then map_get k s.contents
        else if is_write op.operation && string_eq.beq op.key k
        then written op s.contents
        else map_get k s.contents)
unfolding apply_op
apply_op-refines op s k = ground (
  arith,
  data_get-text op.key s.contents,
  map_get-put op.key k op.value s.contents,
  map_get-put op.key k (join (data_get op.key s.contents).1 op.value) s.contents,
)

-- The last message of each client after a command.
last_applied_of :
    (op : Op) (s : KvSaved) (c : ℕ)
    → map_get c (apply_op op s).last_applies ≡ (
        if is_write op.operation && op.client_id == c
        then some op.msg_id
        else map_get c s.last_applies)
unfolding apply_op is_repeated
last_applied_of op s c =
    ground (arith, map_get-put op.client_id c op.msg_id s.last_applies, nat_beq_iff op.client_id c)

unfoldable pub apply_all : List Op → KvSaved → KvSaved
apply_all [] s = s
apply_all (op ∷ ops) s = apply_all ops (apply_op op s)

-- Commands that are no write of the client, or are copies of the message.
abbrev pub LeaveAlone : ℕ → ℕ → List Op → Type 0
LeaveAlone client msg [] = Unit
LeaveAlone client msg (op ∷ ops) =
    (is_write op.operation ≡ true → op.client_id ≡ client → op.msg_id ≡ msg)
    × LeaveAlone client msg ops

still_last :
    (client msg : ℕ) (ops : List Op) (s : KvSaved)
    → LeaveAlone client msg ops
    → map_get client s.last_applies ≡ some msg
    → map_get client (apply_all ops s).last_applies ≡ some msg
unfolding apply_all
still_last client msg [] s alone h = h
still_last client msg (op ∷ ops) s alone h =
    still_last client msg ops (apply_op op s) alone.1 (ground (arith, last_applied_of op s client))

repeated_same :
    (op : Op) (s : KvSaved)
    → map_get op.client_id s.last_applies ≡ some op.msg_id
    → apply_op op s ≡ s
unfolding apply_op is_repeated
repeated_same op s h = ground arith

-- A write that the log holds again, after any commands among which its client wrote nothing else, is
-- executed once: the second copy changes neither the data nor the record of applied messages.
pub exactly_once :
    (op : Op) (ops : List Op) (s : KvSaved)
    → is_write op.operation ≡ true
    → LeaveAlone op.client_id op.msg_id ops
    → apply_op op (apply_all ops (apply_op op s)) ≡ apply_all ops (apply_op op s)
exactly_once op ops s w alone = repeated_same op (apply_all ops (apply_op op s)) (
    still_last op.client_id op.msg_id ops (apply_op op s) alone
      (ground (arith, last_applied_of op s op.client_id)))

-- Only the last message of a client is remembered. An `Append` to a key that is there, which was
-- not the last message of its client, and whose copy comes after another `Append` of that client
-- to the same key, is executed twice.
pub stale_duplicate :
    (a b : Op) (s : KvSaved) (v : String)
    → a.operation ≡ append
    → b.operation ≡ append
    → a.client_id ≡ b.client_id
    → a.key ≡ b.key
    → a.msg_id ≢ b.msg_id
    → is_repeated a.client_id a.msg_id s.last_applies ≡ false
    → map_get a.key s.contents ≡ some v
    → map_get a.key (apply_all (a ∷ b ∷ a ∷ []) s).contents
      ≡ some (join (join (join v a.value) b.value) a.value)
unfolding apply_all is_repeated
stale_duplicate a b s v pa pb c k m r h =
    let s1 = apply_op a s in
    let s2 = apply_op b s1 in
    let first : map_get a.key s1.contents ≡ some (join v a.value) =
      ground (arith, apply_op-refines a s a.key, string_eq.beq_iff a.key a.key) in
    let second : map_get a.key s2.contents ≡ some (join (join v a.value) b.value) = ground (
      arith,
      first,
      apply_op-refines b s1 a.key,
      last_applied_of a s b.client_id,
      string_eq.beq_iff b.key a.key,
    ) in
    ground (
      arith,
      second,
      apply_op-refines a s2 a.key,
      last_applied_of b s1 a.client_id,
      string_eq.beq_iff a.key a.key,
    )
