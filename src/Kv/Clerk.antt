-- ===== src/Kv/Clerk.antt =====
-- client.go. What the servers answer is a list of results, one for each call in turn: `none` is a
-- call that fails on the network.
pub mod Answers
use major_assignments.Common.{String, ℕ, ◌+◌, ◌%◌, Option, none, some, List, [], ◌∷◌, map}
use major_assignments.Kv.Types.{
  Err, ok, err_no_key, err_wrong_leader, err_time_out, Operation, put, append, PutAppendArgs,
  GetReply,
}

pub record Clerk : Type 0 where
  pub servers : ℕ
  pub leader_id : ℕ
  pub client_id : ℕ

abbrev pub next_leader : Clerk → Clerk
next_leader ck = record ck { leader_id = (ck.leader_id + 1) % ck.servers }

-- What a round of a loop of the clerk does with the result of its call.
pub data Verdict : Type 0 where
  answer : String → Verdict
  rotate : Verdict
  retry : Verdict

unfoldable pub judge_get : Option GetReply → Verdict
judge_get none = rotate
judge_get (some reply) = elim reply.err [
  | ok ↦ answer reply.value
  | err_no_key ↦ answer ""
  | err_wrong_leader ↦ rotate
  | err_time_out ↦ retry
]

-- Any error but `ErrWrongLeader` makes the clerk go on to the next server too.
unfoldable pub judge_put_append : Option Err → Verdict
judge_put_append none = rotate
judge_put_append (some err) = elim err [ ok ↦ answer "" | _ ↦ rotate ]

-- The loops. `none` beside the clerk: the results are used up and the loop still runs.
unfoldable pub clerk_loop : List Verdict → Clerk → Clerk × Option String
clerk_loop [] ck = (ck, none)
clerk_loop (v ∷ vs) ck =
    let rotated = clerk_loop vs (next_leader ck) in
    let again = clerk_loop vs ck in
    elim v [ answer text ↦ (ck, some text) | rotate ↦ rotated | retry ↦ again ]

unfoldable pub clerk_get : List (Option GetReply) → Clerk → Clerk × Option String
unfolding clerk_loop judge_get
clerk_get results ck = clerk_loop (map judge_get results) ck

unfoldable pub clerk_put_append : List (Option Err) → Clerk → Clerk × Option String
unfolding clerk_loop judge_put_append
clerk_put_append results ck = clerk_loop (map judge_put_append results) ck

-- The random number is the client's name.
unfoldable pub make_clerk : ℕ → ℕ → Clerk
make_clerk servers random = record { servers = servers; leader_id = 0; client_id = random }

-- The arguments that all the calls of one `PutAppend` carry.
unfoldable pub put_append_args : String → String → Operation → ℕ → Clerk → PutAppendArgs
put_append_args key value op random ck = record {
  key = key;
  value = value;
  op = op;
  msg_id = random;
  client_id = ck.client_id;
}

unfoldable pub clerk_put : String → String → ℕ → Clerk → PutAppendArgs
unfolding put_append_args
clerk_put key value random ck = put_append_args key value put random ck

unfoldable pub clerk_append : String → String → ℕ → Clerk → PutAppendArgs
unfolding put_append_args
clerk_append key value random ck = put_append_args key value append random ck
