-- ===== src/Lab3a/Persist.antt =====
-- `persist` and `readPersist`.
use major_assignments.Common.{ltb, if◌then◌else◌, ◌>>=◌, length, ℕ, Option, some, List}
use major_assignments.Lab3a.Persister.{save_raft_state}
use major_assignments.Lab3a.Types.{LogEntry, Raft, VoteFor}
use major_assignments.Labgob.{Labgob}

pub record Saved (C : Type 0) : Type 0 where
  pub term : ℕ
  pub vote_for : Option VoteFor
  pub commit_index : ℕ
  pub last_applied : ℕ
  pub log_entries : List (LogEntry C)

module _ {C : Type 0} where
  abbrev pub saved : Raft C → Saved C
  saved rf = record {
    term = rf.term;
    vote_for = rf.vote_for;
    commit_index = rf.commit_index;
    last_applied = rf.last_applied;
    log_entries = rf.log_entries;
  }

module _ {C : Type 0} (gob : Labgob (Saved C)) where
  unfoldable pub persist : Raft C → Raft C
  persist rf = record rf { persister = save_raft_state (gob.encode (saved rf)) rf.persister }

  unfoldable pub read_persist : List ℕ → Raft C → Option (Raft C)
  read_persist bytes rf = if ltb (length bytes) 1 then some rf else do
    s ← gob.decode bytes
    some (record rf {
      term = s.term;
      vote_for = s.vote_for;
      commit_index = s.commit_index;
      last_applied = s.last_applied;
      log_entries = s.log_entries;
    })
