-- ===== src/Examples/Store.antt =====
-- A server of the key-value store, and its clerk.
use Prim.Native.String.{◌++◌ as join}
use major_assignments.Kv.Server.{save_snapshot}
use major_assignments.Common.{
  map_get, map_put, String, ℕ, ◌+◌, ◌%◌, ◌≡◌, refl, inl, inr, true, false, Option, none, some, List,
  [], ◌∷◌, ◌++◌, arith, nat_eq, string_eq,
}
use major_assignments.Examples.Peers.{left}
use major_assignments.Examples.TextCodec.{data_gob, port}
use major_assignments.Kv.Clerk.{Clerk, clerk_get, clerk_put_append}
use major_assignments.Kv.Clerk.Answers.{clerk_calls_lem}
use major_assignments.Kv.Server.{
  KvSaved, KvServer, is_repeated, apply_op, kv_saved, notify, apply_msg, submit, register_call,
  finish_get, finish_put_append,
}
use major_assignments.Kv.Server.Store.{apply_all, exactly_once, stale_duplicate}
use major_assignments.Kv.Server.Waiting.{apply_msgs, early_apply_times_out}
use major_assignments.Kv.Types.{Err, ok, err_wrong_leader, err_time_out, put, append, GetReply, Op}

abbrev append_op : String → ℕ → Op
append_op value msg_id = record {
  key = "k";
  value = value;
  operation = append;
  msg_id = msg_id;
  req_id = msg_id + 100;
  client_id = 5;
}

abbrev data0 : KvSaved
data0 = record { contents = ("k", "x") ∷ []; last_applies = [] }

abbrev other_op : Op
other_op = record (append_op "b" 1) { client_id = 6 }

exactly_once_example :
    apply_op (append_op "a" 1) (apply_all (other_op ∷ []) (apply_op (append_op "a" 1) data0))
    ≡ apply_all (other_op ∷ []) (apply_op (append_op "a" 1) data0)
exactly_once_example = exactly_once (append_op "a" 1) (other_op ∷ []) data0 refl (λ w c. refl, tt)

stale_duplicate_example :
    map_get "k"
      (apply_all (append_op "a" 1 ∷ append_op "b" 2 ∷ append_op "a" 1 ∷ []) data0).contents
    ≡ some (join (join (join "x" "a") "b") "a")
unfolding is_repeated map_get
stale_duplicate_example =
    stale_duplicate (append_op "a" 1) (append_op "b" 2) data0 "x" refl refl refl refl
      (λ e. ground arith) refl refl

abbrev kv0 : KvServer port
kv0 = record {
  rf = (true, append_op "a" 1 ∷ [], []);
  dead = false;
  max_raft_state = some 1;
  msg_notify = [];
  contents = ("k", "x") ∷ [];
  last_applies = (5, 1) ∷ [];
}

abbrev put_op : Op
put_op = record { key = "k"; value = "y"; operation = put; msg_id = 2; req_id = 102; client_id = 5 }

-- The command of another client, applied before and after.
abbrev others : List (Op × ℕ)
others = (other_op, 6) ∷ []

abbrev late_others : List (Op × ℕ)
late_others = (record other_op { msg_id = 2 }, 8) ∷ []

abbrev kv_before : KvServer port
kv_before = left kv0 (apply_msgs port data_gob others (register_call port data_gob put_op kv0))

abbrev kv_after : KvServer port
kv_after = left kv0 (apply_msgs port data_gob ((put_op, 7) ∷ late_others) kv_before)

abbrev kv_early : KvServer port
kv_early = left kv0 (apply_msgs port data_gob others (submit port data_gob put_op kv0).0)

abbrev kv_applied : KvServer port
kv_applied = left kv0 (apply_msg port data_gob (some put_op) 7 kv_early)

abbrev kv_late : KvServer port
kv_late =
    left kv0 (apply_msgs port data_gob late_others (register_call port data_gob put_op kv_applied))

early_apply_times_out_example :
    ((submit port data_gob put_op kv0).1 ≡ none)
    × (kv_saved port data_gob kv_applied ≡ apply_op put_op (kv_saved port data_gob kv_early))
    × ((finish_put_append port data_gob put_op kv_late).1.err ≡ err_time_out)
    × ((finish_get port data_gob put_op kv_late).1.err ≡ err_time_out)
unfolding submit apply_msgs apply_msg register_call notify map_get map_put apply_op is_repeated
    save_snapshot
early_apply_times_out_example =
    early_apply_times_out port data_gob put_op 7 others late_others kv0 {kv1 = kv_early}
      {kv2 = kv_applied} {kv3 = kv_late} refl refl (λ e. ground (arith, e), tt)
      (λ e. ground (arith, e), tt) refl refl refl

abbrev clerk0 : Clerk
clerk0 = record { servers = 3; leader_id = 2; client_id = 5 }

abbrev refused : List (Option GetReply)
refused =
    none
    ∷ some (record { err = err_time_out; value = "" })
    ∷ some (record { err = err_wrong_leader; value = "" })
    ∷ []

abbrev failed : List (Option Err)
failed = none ∷ some err_time_out ∷ []

abbrev found : GetReply
found = record { err = ok; value = "v" }

clerk_calls_lem_example :
    ((clerk_get (refused ++ some found ∷ []) clerk0).1 ≡ some "v")
    × ((clerk_get (refused ++ some found ∷ []) clerk0).0.leader_id ≡ (2 + 2) % 3)
    × ((clerk_put_append (failed ++ some ok ∷ []) clerk0).1 ≡ some "")
    × ((clerk_put_append (failed ++ some ok ∷ []) clerk0).0.leader_id ≡ (2 + 2) % 3)
clerk_calls_lem_example =
    clerk_calls_lem refused found "v" failed [] [] clerk0 (inr refl, (inl refl, tt))
      (inl (refl, refl)) (λ e. ground (arith, e), tt) (omega arith)
