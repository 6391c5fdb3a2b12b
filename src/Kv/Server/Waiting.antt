-- ===== src/Kv/Server/Waiting.antt =====
-- The channels of the calls that wait for their command.
use major_assignments.Common.{
  ◌>>=◌, >>=-eq-some, map_get, nat_beq_iff, map_get-put, map_get-delete, ℕ, ◌≡◌, refl, ap, ◌∙◌, ◌≢◌,
  true, Option, none, some, List, [], ◌∷◌, arith, nat_eq, string_eq,
}
use major_assignments.Kv.Server.{
  RaftPort, KvSaved, KvServer, data_get, apply_op, kv_saved, save_snapshot, notify, apply_msg,
  submit, register_call, received, finish_get, finish_put_append,
}
use major_assignments.Kv.Types.{ok, err_time_out, Op, NotifyMsg}
use major_assignments.Labgob.{Labgob}

-- None of the commands belongs to the request.
abbrev pub AreOthers : ℕ → List (Op × ℕ) → Type 0
AreOthers req_id [] = Unit
AreOthers req_id ((op, _) ∷ ms) = (op.req_id ≢ req_id) × AreOthers req_id ms

module _ (port : RaftPort) (gob : Labgob KvSaved) where
  -- The rounds of `waitApplyCh` for these commands; `none` is a send that blocks.
  unfoldable pub apply_msgs : List (Op × ℕ) → KvServer port → Option (KvServer port)
  apply_msgs [] kv = some kv
  apply_msgs ((op, index) ∷ ms) kv =
      apply_msg port gob (some op) index kv >>= λ kv'. apply_msgs ms kv'

  -- The server when a command has been applied and its call is to be notified.
  abbrev after_apply : Op → ℕ → KvServer port → KvServer port
  after_apply op index kv =
      let s = apply_op op (kv_saved port gob kv) in
      save_snapshot port gob index
        (record kv { contents = s.contents; last_applies = s.last_applies })

  channels_kept :
      (op : Op) (index : ℕ) (kv : KvServer port)
      → (after_apply op index kv).msg_notify ≡ kv.msg_notify
  unfolding save_snapshot
  channels_kept op index kv = ground arith

  notify_other :
      (req_id r : ℕ) (msg : NotifyMsg) (kv : KvServer port) {kv' : KvServer port}
      → req_id ≢ r
      → notify port gob req_id msg kv ≡ some kv'
      → map_get r kv'.msg_notify ≡ map_get r kv.msg_notify
  unfolding notify
  notify_other req_id r msg kv ne h = ground (
    arith,
    map_get-put {V = Option NotifyMsg} req_id r (some msg) kv.msg_notify,
    nat_beq_iff req_id r,
  )

  unnotified :
      (req_id : ℕ) (msg : NotifyMsg) (kv : KvServer port)
      → map_get req_id kv.msg_notify ≡ none
      → notify port gob req_id msg kv ≡ some kv
  unfolding notify
  unnotified req_id msg kv h = ground arith

  others_keep :
      (r : ℕ) (ms : List (Op × ℕ)) (kv : KvServer port) {kv' : KvServer port}
      → AreOthers r ms
      → apply_msgs ms kv ≡ some kv'
      → map_get r kv'.msg_notify ≡ map_get r kv.msg_notify
  unfolding apply_msgs apply_msg
  others_keep r [] kv others h = ground arith
  others_keep r ((op, index) ∷ ms) kv others h =
      let kv1 = after_apply op index kv in
      let (kv2, p, q) =
        >>=-eq-some (apply_msg port gob (some op) index kv) (λ kv'. apply_msgs ms kv') h in
      others_keep r ms kv2 others.1 q
      ∙ notify_other op.req_id r _ kv1 others.0 p
      ∙ ap (map_get r) (channels_kept op index kv)

  -- The answer that the server has for a command when it applies it.
  abbrev pub answer_to : Op → KvServer port → NotifyMsg
  answer_to op kv = record {
    err = ok;
    value = (data_get op.key (apply_op op (kv_saved port gob kv)).contents).1;
  }

  registered_channel :
      (op : Op) (kv : KvServer port)
      → map_get op.req_id (register_call port gob op kv).msg_notify ≡ some none
  unfolding register_call
  registered_channel op kv = ground (
    arith,
    map_get-put {V = Option NotifyMsg} op.req_id op.req_id none kv.msg_notify,
    nat_beq_iff op.req_id op.req_id,
  )

  finished :
      (op : Op) (m : Option NotifyMsg) (kv : KvServer port)
      → map_get op.req_id kv.msg_notify ≡ some m
      → ((finish_put_append port gob op kv).1 ≡ received port gob (some m))
        × ((finish_get port gob op kv).1 ≡ received port gob (some m))
        × (map_get op.req_id (finish_put_append port gob op kv).0.msg_notify ≡ none)
  unfolding finish_put_append finish_get
  finished op m kv h = (
    rw h refl,
    rw h refl,
    ground
        (arith, map_get-delete op.req_id op.req_id kv.msg_notify, nat_beq_iff op.req_id op.req_id),
  )

  submitted :
      (op : Op) (kv : KvServer port)
      → port.is_leader kv.rf ≡ true
      → ((submit port gob op kv).1 ≡ none) × ((submit port gob op kv).0.msg_notify ≡ kv.msg_notify)
  unfolding submit
  submitted op kv l = ground arith

  applied_unheard :
      (op : Op) (index : ℕ) (kv : KvServer port) {kv' : KvServer port}
      → map_get op.req_id kv.msg_notify ≡ none
      → apply_msg port gob (some op) index kv ≡ some kv'
      → kv_saved port gob kv' ≡ apply_op op (kv_saved port gob kv)
  unfolding apply_msg save_snapshot
  applied_unheard op index kv h k =
      let kv1 = after_apply op index kv in
      let e =
        unnotified op.req_id (record { err = ok; value = (data_get op.key kv1.contents).1 }) kv1
          (ap (map_get op.req_id) (channels_kept op index kv) ∙ h) in
      ground (arith, e)

  -- A call of the leader whose command is applied between `Start` and the making of its channel is
  -- never notified of it: the server applies the command without blocking, and through whatever other
  -- commands are applied before and after its channel is made, `PutAppend` and `Get` end with
  -- `ErrTimeOut`.
  pub early_apply_times_out :
      (op : Op) (index : ℕ) (early late : List (Op × ℕ)) (kv : KvServer port)
      {kv1 kv2 kv3 : KvServer port}
      → port.is_leader kv.rf ≡ true
      → map_get op.req_id kv.msg_notify ≡ none
      → AreOthers op.req_id early
      → AreOthers op.req_id late
      → apply_msgs early (submit port gob op kv).0 ≡ some kv1
      → apply_msg port gob (some op) index kv1 ≡ some kv2
      → apply_msgs late (register_call port gob op kv2) ≡ some kv3
      → ((submit port gob op kv).1 ≡ none)
        × (kv_saved port gob kv2 ≡ apply_op op (kv_saved port gob kv1))
        × ((finish_put_append port gob op kv3).1.err ≡ err_time_out)
        × ((finish_get port gob op kv3).1.err ≡ err_time_out)
  early_apply_times_out op index early late kv {kv1} {kv2} {kv3} leads fresh o1 o2 h k l =
      let (now, same) = submitted op kv leads in
      let unheard =
        others_keep op.req_id early (submit port gob op kv).0 o1 h
        ∙ ap (map_get op.req_id) same
        ∙ fresh in
      let (p, g, _) = finished op none kv3 (
        others_keep op.req_id late (register_call port gob op kv2) o2 l
        ∙ registered_channel op kv2) in
      (now, applied_unheard op index kv1 unheard k, ap (λ m. m.err) p, ap (λ m. m.err) g)
