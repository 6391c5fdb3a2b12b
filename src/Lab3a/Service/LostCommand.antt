-- ===== src/Lab3a/Service/LostCommand.antt =====
-- A command that is lost: the peer notes and persists that it has handed it over before the server has
-- applied it.
use major_assignments.Common.{ge→ltb, Returns, ℕ, ◌≡◌, refl, Option, some, arith}
use major_assignments.Kv.Types.{Op}
use major_assignments.Kv.Server.{KvSaved}
use major_assignments.Kv.Types.{Op}
use major_assignments.Lab3a.Apply.{deliver, start_apply_logs, make}
use major_assignments.Lab3a.Persist.{Saved, saved}
use major_assignments.Lab3a.Persister.{copy}
use major_assignments.Lab3a.Service.{Service, stored_data, read_kv_persist, start_service}
use major_assignments.Lab3a.Types.{ApplyMsg}
use major_assignments.Labgob.{Labgob}

module _ (raft_gob : Labgob (Saved Op)) (gob : Labgob KvSaved) where
  -- If a server whose data are in storage crashes after its peer has sent and noted the last committed
  -- message, and before the server has applied it, then right after a restart the server has the data
  -- from before the message, its peer has the message's index as the last applied one, and a
  -- `startApplyLogs` of the peer at that state, with the commit index as it was at the crash, sends
  -- nothing. Nothing is said of a later commit index.
  pub lost_command :
      (servers me : ℕ) (limit : Option ℕ) (entropy : ℕ → ℕ) (msg : ApplyMsg Op) (kv : Service)
      → kv.rf.persister.kv_data ≡ gob.encode (stored_data raft_gob gob kv)
      → msg.command_index ≡ kv.rf.commit_index
      → Returns
          (start_service raft_gob gob servers me
            (copy (deliver raft_gob msg kv.rf).persister)
            limit
            entropy)
          (λ kv'.
            (stored_data raft_gob gob kv' ≡ stored_data raft_gob gob kv)
            × (kv'.rf.last_applied ≡ msg.command_index)
            × (start_apply_logs raft_gob kv'.rf ≡ some kv'.rf))
  unfolding start_service make deliver start_apply_logs read_kv_persist
  lost_command servers me limit entropy msg kv h e =
      let noted = saved (record kv.rf { last_applied = msg.command_index }) in
      rw
        (
          ge→ltb _ _ (raft_gob.encode_nonempty noted),
          raft_gob.decode-encode noted,
          h,
          ge→ltb _ _ (gob.encode_nonempty (stored_data raft_gob gob kv)),
          gob.decode-encode (stored_data raft_gob gob kv),
        )
        (refl, refl, ground (arith, e))
