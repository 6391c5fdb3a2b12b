-- ===== src/Lab3a/Log.antt =====
-- `lastLogInfo` and `truncateLog`.
use major_assignments.Common.{
  ltb, if◌then◌else◌, ◌>>=◌, length, get_elem?, take, ℕ, suc, ◌-◌, ◌<◌, ◌≡◌, Option, some, List, [],
  ◌∷◌,
}
use major_assignments.Lab3a.Types.{LogEntry, Raft}

module _ {C : Type 0} where
  unfoldable pub last_log_info : Raft C → Option (ℕ × ℕ)
  last_log_info rf = do
    entry ← get_elem? rf.log_entries (length rf.log_entries - 1)
    some (entry.term, entry.idx)

  unfoldable pub truncate_log : ℕ → Raft C → Raft C
  truncate_log index rf =
      if ltb index (length rf.log_entries)
      then record rf { log_entries = take index rf.log_entries }
      else rf

  -- Every entry stands at its own index.
  abbrev pub IsIndexedFrom : ℕ → List (LogEntry C) → Type 0
  IsIndexedFrom i [] = Unit
  IsIndexedFrom i (e ∷ es) = (e.idx ≡ i) × IsIndexedFrom (suc i) es

  pub record IsIndexed (rf : Raft C) : Type 0 where
    pub at_place : IsIndexedFrom 0 rf.log_entries
    pub has_marker : 0 < length rf.log_entries
