-- ===== src/Cluster/Logs/Invariant.antt =====
-- What holds of the logs and the messages of every reachable cluster.
use major_assignments.Common.{
  ltb, if◌then◌else◌, ge→ltb, ◌>>=◌, length, ℕ, ◌+◌, ◌≡◌, sym, ◌∙◌, ◌⊎◌, inl, inr, Option, none,
  some, List, [], ◌∷◌, Memᴰ, arith,
}
use major_assignments.Cluster.Logs.{LogCluster}
use major_assignments.Cluster.Logs.Segment.{
  IsSegment, IsPrefix, IsSegment-more, IsCoherent, IsCarried,
}
use major_assignments.Labgob.{Labgob}
use major_assignments.Raft.Append.{AppendEntriesArgs}
use major_assignments.Raft.Apply.{make}
use major_assignments.Raft.Discipline.{Discipline}
use major_assignments.Raft.Persist.{Saved, saved}
use major_assignments.Raft.Persister.{Persister, copy}
use major_assignments.Raft.Types.{follower, leader, LogEntry, Raft}

-- The log that a restart finds: its first index, the term there, and the entries.
unfoldable pub stored_log :
    {C : Type 0} → Labgob (Saved C) → Persister → Option (ℕ × ℕ × List (LogEntry C))
stored_log gob ps =
    if ltb (length ps.raftstate) 1
    then some (0, 0, record { term = 0; command = none } ∷ [])
    else (gob.decode ps.raftstate >>= λ s.
        some (s.last_snapshot_index, s.last_snapshot_term, s.logs))

-- A log is a segment of what some leader has had.
pub record Traced {C : Type 0} (led : ℕ → List (LogEntry C)) (index term : ℕ)
    (es : List (LogEntry C)) : Type 0 where
  pub from_term : ℕ
  pub segment : IsSegment index term es (led from_term)

abbrev pub IsTraced : {C : Type 0} → (ℕ → List (LogEntry C)) → Raft C → Type 0
IsTraced led rf = Traced led rf.last_snapshot_index rf.last_snapshot_term rf.logs

pub record IsKept {C : Type 0} (gob : Labgob (Saved C)) (led : ℕ → List (LogEntry C))
    (ps : Persister) : Type 0 where
  pub kept_index : ℕ
  pub kept_term : ℕ
  pub kept_logs : List (LogEntry C)
  pub kept_read : stored_log gob ps ≡ some (kept_index, kept_term, kept_logs)
  pub kept_traced : Traced led kept_index kept_term kept_logs

-- A leader has all that its term has.
abbrev pub IsWhole : {C : Type 0} → (ℕ → List (LogEntry C)) → Raft C → Type 0
IsWhole led rf =
    rf.role ≡ leader
    → IsSegment rf.last_snapshot_index rf.last_snapshot_term rf.logs (led rf.current_term)
      × (rf.last_snapshot_index + length rf.logs ≡ length (led rf.current_term))

pub record LogInv {C : Type 0} (gob : Labgob (Saved C)) (led : ℕ → List (LogEntry C))
    (s : LogCluster C) : Type 0 where
  pub coherent : (t : ℕ) → IsCoherent led (led t)
  pub traced : (i : ℕ) → IsTraced led (s.cluster.servers i)
  pub kept : (i : ℕ) → IsKept gob led (s.cluster.servers i).persister
  pub whole : (i : ℕ) → IsWhole led (s.cluster.servers i)
  pub sent_ok :
      (m : AppendEntriesArgs C)
      → Memᴰ m s.messages
      → Memᴰ (record { lead_term = m.term; lead_id = m.leader_id }) s.cluster.leads
        × IsCarried m (led m.term)
  pub led_ok :
      (t : ℕ)
      → (t ≡ 0)
        ⊎ (led t ≡ [])
        ⊎ ((j : ℕ) × Memᴰ (record { lead_term = t; lead_id = j }) s.cluster.leads)

module _ {C : Type 0} (gob : Labgob (Saved C)) where
  stored_log-encode :
      (ps : Persister) (s : Saved C)
      → ps.raftstate ≡ gob.encode s
      → stored_log gob ps ≡ some (s.last_snapshot_index, s.last_snapshot_term, s.logs)
  unfolding stored_log
  stored_log-encode ps s e = rw (e, ge→ltb _ _ (gob.encode_nonempty s), gob.decode-encode s)

  stored_log-same :
      (ps ps' : Persister) → ps'.raftstate ≡ ps.raftstate → stored_log gob ps' ≡ stored_log gob ps
  unfolding stored_log
  stored_log-same ps ps' e = rw e

  -- A restart has the log that it finds.
  pub make_log :
      (peers me : ℕ) (ps : Persister) (entropy : ℕ → ℕ) {rf' : Raft C}
      → make gob peers me (copy ps) entropy ≡ some rf'
      → (stored_log gob ps ≡ some (rf'.last_snapshot_index, rf'.last_snapshot_term, rf'.logs))
        × (rf'.persister.raftstate ≡ ps.raftstate)
        × (rf'.role ≡ follower)
  unfolding make stored_log
  make_log peers me ps entropy h = ground arith

  module _ (led : ℕ → List (LogEntry C)) where
    pub IsKept-saved :
        (rf : Raft C)
        → rf.persister.raftstate ≡ gob.encode (saved rf)
        → IsTraced led rf
        → IsKept gob led rf.persister
    IsKept-saved rf e t = record {
      kept_index = rf.last_snapshot_index;
      kept_term = rf.last_snapshot_term;
      kept_logs = rf.logs;
      kept_read = stored_log-encode rf.persister (saved rf) e;
      kept_traced = t;
    }

    pub IsKept-same :
        (ps ps' : Persister) → ps'.raftstate ≡ ps.raftstate → IsKept gob led ps → IsKept gob led ps'
    IsKept-same ps ps' e h = record {
      kept_index = h.kept_index;
      kept_term = h.kept_term;
      kept_logs = h.kept_logs;
      kept_read = stored_log-same ps ps' e ∙ h.kept_read;
      kept_traced = h.kept_traced;
    }

    -- What a step by the discipline leaves in storage.
    pub IsKept-step :
        {rf rf' : Raft C}
        → Discipline gob rf rf'
        → IsTraced led rf'
        → IsKept gob led rf.persister
        → IsKept gob led rf'.persister
    IsKept-step {rf} {rf'} d t h = elim d.saved_or_same [
      | inl e ↦ IsKept-saved rf' e t
      | inr (e, _, _) ↦ IsKept-same rf.persister rf'.persister e h
    ]

    pub make-IsTraced :
        (peers me : ℕ) (ps : Persister) (entropy : ℕ → ℕ) {rf' : Raft C}
        → make gob peers me (copy ps) entropy ≡ some rf'
        → IsKept gob led ps
        → IsTraced led rf'
    make-IsTraced peers me ps entropy {rf'} e h =
        let found = sym h.kept_read ∙ (make_log peers me ps entropy e).0 in
        let a : h.kept_index ≡ rf'.last_snapshot_index = cc found in
        let b : h.kept_term ≡ rf'.last_snapshot_term = cc found in
        let c : h.kept_logs ≡ rf'.logs = cc found in rw (a, b, c) at (h.kept_traced)

  pub Traced-more :
      (led led' : ℕ → List (LogEntry C)) (index term : ℕ) (es : List (LogEntry C))
      → ((t : ℕ) → IsPrefix (led t) (led' t))
      → Traced led index term es
      → Traced led' index term es
  Traced-more led led' index term es grow h = record {
    from_term = h.from_term;
    segment =
        IsSegment-more index term es (led h.from_term) (led' h.from_term) (grow h.from_term)
          h.segment;
  }

  pub IsKept-more :
      (led led' : ℕ → List (LogEntry C)) (ps : Persister)
      → ((t : ℕ) → IsPrefix (led t) (led' t))
      → IsKept gob led ps
      → IsKept gob led' ps
  IsKept-more led led' ps grow h = record {
    kept_index = h.kept_index;
    kept_term = h.kept_term;
    kept_logs = h.kept_logs;
    kept_read = h.kept_read;
    kept_traced = Traced-more led led' h.kept_index h.kept_term h.kept_logs grow h.kept_traced;
  }
