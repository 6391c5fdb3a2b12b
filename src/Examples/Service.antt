-- ===== src/Examples/Service.antt =====
-- A server of Lab-3A on its peer.
use major_assignments.Lab3a.Service.Restart.{moves}
use major_assignments.Lab3a.Persist.{read_persist}
use major_assignments.Common.{
  Returns, map_get, map_put, ℕ, ◌+◌, ◌≡◌, refl, true, false, Option, none, some, [], ◌∷◌, nat_eq,
  string_eq,
}
use major_assignments.Examples.Peers.{left}
use major_assignments.Examples.SavedCodec.{op_part, saved_gob}
use major_assignments.Examples.TextCodec.{data_gob}
use major_assignments.Kv.Server.{is_repeated, apply_op}
use major_assignments.Kv.Types.{put, Op, NotifyMsg}
use major_assignments.Lab3a.Apply.{deliver, start_apply_logs, make}
use major_assignments.Lab3a.Persist.{Saved}
use major_assignments.Lab3a.Persister.{make_persister, copy}
use major_assignments.Lab3a.Service.{
  Service, stored_data, persist_kvdata, read_kv_persist, notify_call, apply_committed, call_start,
  open_channel, start_service,
}
use major_assignments.Lab3a.Service.LostCommand.{lost_command}
use major_assignments.Lab3a.Service.Restart.{applies, Served, opens, restart_lem}
use major_assignments.Lab3a.Types.{follower, leader, ApplyMsg}
use major_assignments.Labgob.{Labgob}

abbrev peer_gob : Labgob (Saved Op)
peer_gob = saved_gob op_part

abbrev put_op_at : ℕ → Op
put_op_at msg_id = record {
  key = "k";
  value = "v";
  operation = put;
  msg_id = msg_id;
  req_id = msg_id + 100;
  client_id = 5;
}

abbrev no_draws : ℕ → ℕ
no_draws _ = 7

abbrev empty_service : Service
empty_service = record {
  rf = record {
    peers = 3;
    persister = make_persister;
    me = 0;
    dead = false;
    election_timer = 300_000_007;
    append_entries_timers = 150_000_000 ∷ 150_000_000 ∷ 150_000_000 ∷ [];
    state = follower;
    term = 0;
    vote_for = none;
    log_entries = record { term = 0; idx = 0; command = none } ∷ [];
    match_index = [];
    next_index = [];
    apply_ch = [];
    notify_apply_ch = 0;
    commit_index = 0;
    okbutnocommit = 0;
    last_applied = 0;
    entropy = no_draws;
    draws = 1;
  };
  dead = false;
  max_raft_state = none;
  msg_notify = [];
  contents = [];
  last_applies = [];
}

abbrev committed_put : ApplyMsg Op
committed_put = record { command_valid = true; command = some (put_op_at 1); command_index = 1 }

abbrev served : Service
served = left empty_service (apply_committed peer_gob data_gob committed_put empty_service)

-- A server that starts on an empty storage, sees its peer hand over a command and applies it.
served-Served : Served peer_gob data_gob served
unfolding start_service make read_persist read_kv_persist apply_committed apply_op map_put map_get
    persist_kvdata notify_call is_repeated
served-Served =
    moves (opens 3 0 none no_draws {kv = empty_service} refl)
      (applies committed_put {kv = empty_service} {kv' = served} refl)

restart_lem_example :
    Returns (start_service peer_gob data_gob 3 0 (copy served.rf.persister) none no_draws) (λ kv'.
      (stored_data peer_gob data_gob kv' ≡ stored_data peer_gob data_gob served)
      × (kv'.rf.persister ≡ served.rf.persister))
restart_lem_example = restart_lem peer_gob data_gob 3 0 none no_draws served-Served

-- A server with data in storage, whose peer has committed the command of index 1.
abbrev behind : Service
behind = record served {
  rf = record served.rf {
    log_entries =
        record { term = 0; idx = 0; command = none }
        ∷ record { term = 1; idx = 1; command = some (put_op_at 2) }
        ∷ [];
    commit_index = 1;
  };
}

abbrev handed : ApplyMsg Op
handed = record { command_valid = true; command = some (put_op_at 2); command_index = 1 }

lost_command_example :
    Returns
      (start_service peer_gob data_gob 3 0
        (copy (deliver peer_gob handed behind.rf).persister)
        none
        no_draws)
      (λ kv'.
        (stored_data peer_gob data_gob kv' ≡ stored_data peer_gob data_gob behind)
        × (kv'.rf.last_applied ≡ handed.command_index)
        × (start_apply_logs peer_gob kv'.rf ≡ some kv'.rf))
unfolding apply_committed apply_op map_put map_get persist_kvdata notify_call is_repeated
lost_command_example = lost_command peer_gob data_gob 3 0 none no_draws handed behind refl refl

-- A leading server, and the call that waits.
abbrev leads : Service
leads = record empty_service {
  rf = record empty_service.rf { state = leader; match_index = 0 ∷ 0 ∷ 0 ∷ [] };
}

abbrev begun : Service
begun = (left (leads, none) (call_start peer_gob data_gob (put_op_at 1) leads)).0

abbrev waits : Service
waits = open_channel peer_gob data_gob (put_op_at 1) begun

abbrev no_said : Option NotifyMsg
no_said = none
