-- ===== src/Raft/Persist.antt =====
-- What a peer writes to stable storage and reads after a restart.
pub mod Sequence
use major_assignments.Common.{ltb, if◌then◌else◌, ◌>>=◌, length, ℕ, Option, some, List}
use major_assignments.Labgob.{Labgob}
use major_assignments.Raft.Persister.{save_raft_state}
use major_assignments.Raft.Types.{LogEntry, Raft}

-- The six values that `getPersistData` encodes, in its order.
pub record Saved (C : Type 0) : Type 0 where
  pub current_term : ℕ
  pub voted_for : Option ℕ
  pub commit_index : ℕ
  pub last_snapshot_term : ℕ
  pub last_snapshot_index : ℕ
  pub logs : List (LogEntry C)

module _ {C : Type 0} where
  abbrev pub saved : Raft C → Saved C
  saved rf = record {
    current_term = rf.current_term;
    voted_for = rf.voted_for;
    commit_index = rf.commit_index;
    last_snapshot_term = rf.last_snapshot_term;
    last_snapshot_index = rf.last_snapshot_index;
    logs = rf.logs;
  }

  abbrev pub restore : Saved C → Raft C → Raft C
  restore s rf = record rf {
    current_term = s.current_term;
    voted_for = s.voted_for;
    commit_index = s.commit_index;
    last_snapshot_index = s.last_snapshot_index;
    last_snapshot_term = s.last_snapshot_term;
    logs = s.logs;
  }

module _ {C : Type 0} (gob : Labgob (Saved C)) where
  -- One encoding of the six values; `Raft.Persist.Sequence` has the calls one by one, in their order.
  unfoldable pub get_persist_data : Raft C → List ℕ
  get_persist_data rf = gob.encode (saved rf)

  unfoldable pub persist : Raft C → Raft C
  unfolding get_persist_data
  persist rf = record rf { persister = save_raft_state (get_persist_data rf) rf.persister }

  -- A decoding that fails is `log.Fatal`.
  unfoldable pub read_persist : List ℕ → Raft C → Option (Raft C)
  read_persist bytes rf =
      if ltb (length bytes) 1 then some rf else (gob.decode bytes >>= λ s. some (restore s rf))
