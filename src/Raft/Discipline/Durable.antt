-- ===== src/Raft/Discipline/Durable.antt =====
-- The discipline keeps the term and the vote safe from a crash, and a restart finds them.
use major_assignments.Common.{ge→ltb, ℕ, ◌≡◌, inl, inr, some, arith}
use major_assignments.Labgob.{Labgob}
use major_assignments.Raft.Apply.{make}
use major_assignments.Raft.Discipline.{Discipline, IsCalm, stored, IsDurable}
use major_assignments.Raft.Persist.{Saved, saved}
use major_assignments.Raft.Persister.{Persister, copy}
use major_assignments.Raft.Types.{Raft}

module _ {C : Type 0} (gob : Labgob (Saved C)) where
  stored-encode :
      (ps : Persister) (s : Saved C)
      → ps.raftstate ≡ gob.encode s
      → stored gob ps ≡ some (s.current_term, s.voted_for)
  unfolding stored
  stored-encode ps s e = rw (e, ge→ltb _ _ (gob.encode_nonempty s), gob.decode-encode s)

  stored-same : (ps ps' : Persister) → ps'.raftstate ≡ ps.raftstate → stored gob ps' ≡ stored gob ps
  unfolding stored
  stored-same ps ps' e = rw e

  pub Discipline-IsDurable :
      {rf rf' : Raft C} → Discipline gob rf rf' → IsDurable gob rf → IsDurable gob rf'
  Discipline-IsDurable {rf} {rf'} d h = elim d.saved_or_same [
    | inl e ↦ stored-encode rf'.persister (saved rf') e
    | inr (e, t, v) ↦ rw (stored-same rf.persister rf'.persister e) (cc (h, t, v))
  ]

  -- A restart with the stable storage of a peer is the same peer to the others.
  pub make-IsCalm :
      (rf : Raft C) (entropy : ℕ → ℕ) {rf' : Raft C}
      → IsDurable gob rf
      → make gob rf.peers rf.me (copy rf.persister) entropy ≡ some rf'
      → IsCalm gob rf rf'
  unfolding make stored
  make-IsCalm rf entropy d h = ground arith

  pub make-IsDurable :
      (peers me : ℕ) (persister : Persister) (entropy : ℕ → ℕ) {rf' : Raft C}
      → make gob peers me persister entropy ≡ some rf'
      → IsDurable gob rf'
  unfolding make stored
  make-IsDurable peers me persister entropy h = ground arith
