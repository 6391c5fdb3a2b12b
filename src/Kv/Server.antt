-- ===== src/Kv/Server.antt =====
-- server.go. The Raft module under the server, `6.824/raft-ok`, is not part of the repository: it is
-- a parameter, with the calls that the server makes of it.
pub mod Sequence
pub mod Store
pub mod Waiting
use Prim.Native.String.{◌++◌ as join}
use major_assignments.Common.{
  ltb, ◌==◌, if◌then◌else◌, ◌>>=◌, length, map_get, map_put, map_delete, String, ℕ, Bool, true,
  false, Option, none, some, List, [], nat_eq, string_eq,
}
use major_assignments.Kv.Types.{
  Err, ok, err_no_key, err_wrong_leader, err_time_out, put, append, get, other, PutAppendArgs,
  GetArgs, Op, NotifyMsg,
}
use major_assignments.Labgob.{Labgob}

pub record RaftPort : Type 1 where
  pub Peer : Type 0
  pub is_leader : Peer → Bool
  pub start : Op → Peer → Peer
  pub save_persist_and_snapshot : ℕ → List ℕ → Peer → Peer
  pub state_size : Peer → ℕ
  pub read_snapshot : Peer → List ℕ

-- What `saveSnapshot` encodes.
pub record KvSaved : Type 0 where
  pub contents : List (String × String)
  pub last_applies : List (ℕ × ℕ)

-- A channel of `msgNotify` has room for one message. `max_raft_state` is `none` for -1.
pub record KvServer (port : RaftPort) : Type 0 where
  pub rf : port.Peer
  pub dead : Bool
  pub max_raft_state : Option ℕ
  pub msg_notify : List (ℕ × Option NotifyMsg)
  pub contents : List (String × String)
  pub last_applies : List (ℕ × ℕ)

abbrev pub text_or : Option String → String
text_or none = ""
text_or (some v) = v

-- Without the key the value is the empty text.
unfoldable pub data_get : String → List (String × String) → Err × String
data_get key m = elim (map_get key m) [ none ↦ (err_no_key, "") | some v ↦ (ok, v) ]

unfoldable pub is_repeated : ℕ → ℕ → List (ℕ × ℕ) → Bool
is_repeated client_id id m = elim (map_get client_id m) [ none ↦ false | some v ↦ v == id ]

-- The switch of `waitApplyCh`, on the data and the last applied messages.
unfoldable pub apply_op : Op → KvSaved → KvSaved
unfolding is_repeated data_get
apply_op op s = if is_repeated op.client_id op.msg_id s.last_applies then s else elim op.operation [
  | put ↦ record {
    contents = map_put op.key op.value s.contents;
    last_applies = map_put op.client_id op.msg_id s.last_applies;
  }
  | append ↦ record {
    contents = map_put op.key (join (data_get op.key s.contents).1 op.value) s.contents;
    last_applies = map_put op.client_id op.msg_id s.last_applies;
  }
  | get ↦ s
  | other ↦ s
]

module _ (port : RaftPort) (gob : Labgob KvSaved) where
  -- The two values that are encoded; `Kv.Server.Sequence` has the calls one by one, in their order.
  abbrev pub kv_saved : KvServer port → KvSaved
  kv_saved kv = record { contents = kv.contents; last_applies = kv.last_applies }

  unfoldable pub save_snapshot : ℕ → KvServer port → KvServer port
  save_snapshot log_index kv = elim kv.max_raft_state [
    | none ↦ kv
    | some limit ↦ if ltb (port.state_size kv.rf) limit then kv else record kv {
      rf = port.save_persist_and_snapshot log_index (gob.encode (kv_saved kv)) kv.rf;
    }
  ]

  -- A decoding that fails is `log.Fatal`.
  unfoldable pub read_persist : List ℕ → KvServer port → Option (KvServer port)
  read_persist bytes kv = if ltb (length bytes) 1 then some kv else do
    s ← gob.decode bytes
    some (record kv { contents = s.contents; last_applies = s.last_applies })

  -- `ch <- msg`; `none` is a send that blocks, with the lock held, since the channel is full.
  unfoldable pub notify : ℕ → NotifyMsg → KvServer port → Option (KvServer port)
  notify req_id msg kv = elim (map_get req_id kv.msg_notify) [
    | none ↦ some kv
    | some (some _) ↦ none
    | some none ↦ some (record kv { msg_notify = map_put req_id (some msg) kv.msg_notify })
  ]

  -- One round of `waitApplyCh`: a committed command, or `none` for a message that is no command.
  unfoldable pub apply_msg : Option Op → ℕ → KvServer port → Option (KvServer port)
  apply_msg none index kv = read_persist (port.read_snapshot kv.rf) kv
  apply_msg (some op) index kv =
      let s = apply_op op (kv_saved kv) in
      let kv1 =
        save_snapshot index (record kv { contents = s.contents; last_applies = s.last_applies }) in
      notify op.req_id (record { err = ok; value = (data_get op.key kv1.contents).1 }) kv1

  -- A call of `Get` or `PutAppend` up to `Start`: the answer at once, or nothing yet.
  unfoldable pub submit : Op → KvServer port → KvServer port × Option NotifyMsg
  submit op kv =
      if port.is_leader kv.rf
      then (record kv { rf = port.start op kv.rf }, none)
      else (kv, some (record { err = err_wrong_leader; value = "" }))

  -- The call's channel, made under the lock after `Start` has returned.
  unfoldable pub register_call : Op → KvServer port → KvServer port
  register_call op kv = record kv { msg_notify = map_put op.req_id none kv.msg_notify }

  abbrev pub op_of_get : GetArgs → ℕ → Op
  op_of_get args req_id = record {
    key = args.key;
    value = "";
    operation = get;
    msg_id = args.msg_id;
    req_id = req_id;
    client_id = args.client_id;
  }

  abbrev pub op_of_put_append : PutAppendArgs → ℕ → Op
  op_of_put_append args req_id = record {
    key = args.key;
    value = args.value;
    operation = args.op;
    msg_id = args.msg_id;
    req_id = req_id;
    client_id = args.client_id;
  }

  -- What is in the channel at the end of the wait; nothing is a time-out.
  abbrev pub received : Option (Option NotifyMsg) → NotifyMsg
  received (some (some msg)) = msg
  received _ = record { err = err_time_out; value = "" }

  -- The end of `Get`, which deletes by the message id.
  unfoldable pub finish_get : Op → KvServer port → KvServer port × NotifyMsg
  finish_get op kv = (
    record kv { msg_notify = map_delete op.msg_id kv.msg_notify },
    received (map_get op.req_id kv.msg_notify),
  )

  -- The end of `PutAppend`, which deletes by the request id.
  unfoldable pub finish_put_append : Op → KvServer port → KvServer port × NotifyMsg
  finish_put_append op kv = (
    record kv { msg_notify = map_delete op.req_id kv.msg_notify },
    received (map_get op.req_id kv.msg_notify),
  )

  -- `Kill`, but for the Raft module.
  unfoldable pub kill_server : KvServer port → KvServer port
  kill_server kv = record kv { dead = true }

  unfoldable pub start_kv_server : port.Peer → Option ℕ → Option (KvServer port)
  unfolding read_persist
  start_kv_server peer max_raft_state = read_persist (port.read_snapshot peer) (record {
    rf = peer;
    dead = false;
    max_raft_state = max_raft_state;
    msg_notify = [];
    contents = [];
    last_applies = [];
  })
