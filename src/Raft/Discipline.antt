-- ===== src/Raft/Discipline.antt =====
-- What every handler does to the term, the vote and the stable storage of a peer.
pub mod Handlers
pub mod Durable
use major_assignments.Common.{
  ltb, if◌then◌else◌, ◌>>=◌, length, ℕ, ◌≤◌, ◌≡◌, ◌⊎◌, Option, none, some,
}
use major_assignments.Labgob.{Labgob}
use major_assignments.Raft.Persist.{Saved, saved}
use major_assignments.Raft.Persister.{Persister}
use major_assignments.Raft.Types.{leader, Raft}

-- How the state after a handler stands to the state before it.
pub record Discipline {C : Type 0} (gob : Labgob (Saved C)) (rf rf' : Raft C) : Type 0 where
  pub term_le : rf.current_term ≤ rf'.current_term
  pub vote_kept :
      (v : ℕ) → rf'.current_term ≡ rf.current_term → rf.voted_for ≡ some v → rf'.voted_for ≡ some v
  pub saved_or_same :
      (rf'.persister.raftstate ≡ gob.encode (saved rf'))
      ⊎ ((rf'.persister.raftstate ≡ rf.persister.raftstate)
          × (rf'.current_term ≡ rf.current_term)
          × (rf'.voted_for ≡ rf.voted_for))
  pub same_me : rf'.me ≡ rf.me
  pub same_peers : rf'.peers ≡ rf.peers

-- The same of a step that makes no leader.
pub record IsCalm {C : Type 0} (gob : Labgob (Saved C)) (rf rf' : Raft C) : Type 0 where
  pub discipline : Discipline gob rf rf'
  pub no_new_leader : rf'.role ≡ leader → (rf.role ≡ leader) × (rf'.current_term ≡ rf.current_term)

-- The term and the vote that a restart finds in stable storage.
unfoldable pub stored : {C : Type 0} → Labgob (Saved C) → Persister → Option (ℕ × Option ℕ)
stored gob ps =
    if ltb (length ps.raftstate) 1
    then some (0, none)
    else (gob.decode ps.raftstate >>= λ s. some (s.current_term, s.voted_for))

-- A crash loses neither the term nor the vote.
abbrev pub IsDurable : {C : Type 0} → Labgob (Saved C) → Raft C → Type 0
IsDurable gob rf = stored gob rf.persister ≡ some (rf.current_term, rf.voted_for)
