-- ===== src/Lab3a/Service.antt =====
-- kvraft/server.go of Lab-3A, on the Raft peer of Lab-3A. `dataGet`, `isRepeated` and the switch of
-- `waitApplyCh` are those of Kv.Server: their text is the same. The server and its peer share one
-- `Persister`, which stands in the peer.
pub mod Restart
pub mod LostCommand
pub mod Refusals
use major_assignments.Common.{
  ltb, if◌then◌else◌, ◌>>=◌, length, map_get, map_put, map_delete, String, ℕ, Bool, true, false,
  Option, none, some, List, [], ◌∷◌, nat_eq, string_eq,
}
use major_assignments.Kv.Server.{KvSaved, data_get, apply_op}
use major_assignments.Kv.Types.{ok, err_wrong_leader, err_time_out, Op, NotifyMsg}
use major_assignments.Lab3a.Apply.{start, make}
use major_assignments.Lab3a.Persist.{Saved}
use major_assignments.Lab3a.Persister.{Persister, save_kvdata, read_kvdata}
use major_assignments.Lab3a.Timers.{get_state, kill}
use major_assignments.Lab3a.Types.{ApplyMsg, Raft}
use major_assignments.Labgob.{Labgob}

-- A channel of `msg_notify` has room for one message. `max_raft_state` is `none` for -1.
pub record Service : Type 0 where
  pub rf : Raft Op
  pub dead : Bool
  pub max_raft_state : Option ℕ
  pub msg_notify : List (ℕ × Option NotifyMsg)
  pub contents : List (String × String)
  pub last_applies : List (ℕ × ℕ)

module _ (raft_gob : Labgob (Saved Op)) (gob : Labgob KvSaved) where
  -- The data and the marks are saved together.
  abbrev pub stored_data : Service → KvSaved
  stored_data kv = record { contents = kv.contents; last_applies = kv.last_applies }

  unfoldable pub persist_kvdata : Service → Service
  persist_kvdata kv = record kv {
    rf = record kv.rf { persister = save_kvdata (gob.encode (stored_data kv)) kv.rf.persister };
  }

  -- A decoding that fails is `log.Fatal`.
  unfoldable pub read_kv_persist : List ℕ → Service → Option Service
  read_kv_persist bytes kv = if ltb (length bytes) 1 then some kv else do
    s ← gob.decode bytes
    some (record kv { contents = s.contents; last_applies = s.last_applies })

  -- `ch <- NotifyMsg`; `none` is a send that blocks, with the lock held, since the channel is full.
  unfoldable pub notify_call : ℕ → NotifyMsg → Service → Option Service
  notify_call req_id msg kv = elim (map_get req_id kv.msg_notify) [
    | none ↦ some kv
    | some (some _) ↦ none
    | some none ↦ some (record kv { msg_notify = map_put req_id (some msg) kv.msg_notify })
  ]

  -- One message of `waitApplyCh`. What is not a command fails the type assertion.
  unfoldable pub apply_committed : ApplyMsg Op → Service → Option Service
  unfolding persist_kvdata notify_call
  apply_committed msg kv = do
    op ← msg.command
    let s = apply_op op (stored_data kv)
    let kv1 = persist_kvdata (record kv { contents = s.contents; last_applies = s.last_applies })
    notify_call op.req_id (record { err = ok; value = (data_get op.key kv1.contents).1 }) kv1

  -- The loop of `waitApplyCh`, over the messages of the channel.
  unfoldable pub wait_apply_ch : List (ApplyMsg Op) → Service → Option Service
  unfolding apply_committed
  wait_apply_ch [] kv = some kv
  wait_apply_ch (msg ∷ msgs) kv =
      if kv.dead then some kv else (apply_committed msg kv >>= λ kv1. wait_apply_ch msgs kv1)

  -- A call of `Get` or `PutAppend` up to `Start`: the answer at once, or nothing yet. Nothing happens
  -- to the peer between `GetState` and `Start`.
  unfoldable pub call_start : Op → Service → Option (Service × Option NotifyMsg)
  unfolding get_state start
  call_start op kv =
      if (get_state kv.rf).1
      then (do (rf, _, _, _) ← start op kv.rf; some (record kv { rf = rf }, none))
      else some (kv, some (record { err = err_wrong_leader; value = "" }))

  -- The call's channel, made under the lock after `Start` has returned.
  unfoldable pub open_channel : Op → Service → Service
  open_channel op kv = record kv { msg_notify = map_put op.req_id none kv.msg_notify }

  -- What is in the channel at the end of the wait; nothing is a time-out.
  abbrev pub from_channel : Option (Option NotifyMsg) → NotifyMsg
  from_channel (some (some msg)) = msg
  from_channel _ = record { err = err_time_out; value = "" }

  -- The end of `Get`, which deletes by the message id.
  unfoldable pub end_get : Op → Service → Service × NotifyMsg
  end_get op kv = (
    record kv { msg_notify = map_delete op.msg_id kv.msg_notify },
    from_channel (map_get op.req_id kv.msg_notify),
  )

  -- The end of `PutAppend`, which deletes by the request id.
  unfoldable pub end_put_append : Op → Service → Service × NotifyMsg
  end_put_append op kv = (
    record kv { msg_notify = map_delete op.req_id kv.msg_notify },
    from_channel (map_get op.req_id kv.msg_notify),
  )

  unfoldable pub kill_service : Service → Service
  unfolding kill
  kill_service kv = record kv { dead = true; rf = kill kv.rf }

  unfoldable pub start_service : ℕ → ℕ → Persister → Option ℕ → (ℕ → ℕ) → Option Service
  unfolding make read_kv_persist
  start_service servers me persister max_raft_state entropy = do
    rf ← make raft_gob servers me persister entropy
    read_kv_persist (read_kvdata rf.persister) (record {
      rf = rf;
      dead = false;
      max_raft_state = max_raft_state;
      msg_notify = [];
      contents = [];
      last_applies = [];
    })
