-- ===== src/Raft/Snapshot/Trim.antt =====
-- What a snapshot does to the log.
use mathlib.Core.Option
use major_assignments.Common.{
  leb, ge→ltb, gt→leb, Returns, length, get_elem?, drop, length-drop, get_elem?-lt, get_elem?-drop,
  ℕ, zero, suc, ◌+◌, ◌-◌, ◌≤◌, ◌<◌, ◌≡◌, refl, ap, ◌∙◌, true, none, some, List, [], ◌∷◌, arith,
}
use major_assignments.Labgob.{Labgob}
use major_assignments.Raft.Log.{last_log_index, entry_at}
use major_assignments.Raft.Persist.{Saved}
use major_assignments.Raft.Persister.{read_snapshot}
use major_assignments.Raft.Snapshot.{save_snapshot, snapshot_to}
use major_assignments.Raft.Types.{LogEntry, Raft}

pub drop-get_elem? :
    {A : Type 0} (xs : List A) (k : ℕ) {a : A}
    → get_elem? xs k ≡ some a
    → (leb k (length xs) ≡ true) × (drop k xs ≡ a ∷ drop (suc k) xs)
drop-get_elem? [] k h = cc
drop-get_elem? (x ∷ xs) zero h = ground arith
drop-get_elem? (x ∷ xs) (suc k) h = ground (arith, drop-get_elem? xs k h)

pub entry_at-get_elem? :
    {C : Type 0} (i j : ℕ) (rf : Raft C)
    → i ≡ rf.last_snapshot_index + j
    → entry_at i rf ≡ get_elem? rf.logs j
unfolding entry_at
entry_at-get_elem? i j rf e =
    let at : i - rf.last_snapshot_index ≡ j = omega arith in
    rw (ge→ltb i rf.last_snapshot_index (omega arith)) (ap (get_elem? rf.logs) at)

-- Behind the head of a trimmed log the entries stand where they stood.
trimmed :
    {C : Type 0} (i k : ℕ) (rf rf' : Raft C) (marker : LogEntry C)
    → rf'.logs ≡ marker ∷ drop (suc k) rf.logs
    → rf'.last_snapshot_index ≡ rf.last_snapshot_index + k
    → rf'.last_snapshot_index < i
    → entry_at i rf' ≡ entry_at i rf
trimmed i k rf rf' marker l s lt =
    let m = i - rf'.last_snapshot_index - 1 in
    let at : k + suc m ≡ suc k + m = omega arith in
    cc (
      entry_at-get_elem? i (suc m) rf' (omega arith),
      entry_at-get_elem? i (k + suc m) rf (omega arith),
      ap (λ xs. get_elem? xs (suc m)) l,
      get_elem?-drop (suc k) rf.logs m,
      ap (get_elem? rf.logs) at,
    )

module _ {C : Type 0} (gob : Labgob (Saved C)) where
  -- `Snapshot` up to an index of the log, behind the last snapshot, returns. The log then begins
  -- there: every later entry is at its index still, the entry of the index keeps its term and loses
  -- its command, the last index is what it was, and the service's bytes are in stable storage.
  pub snapshot_to_lem :
      (index : ℕ) (bytes : List ℕ) (rf : Raft C)
      → rf.last_snapshot_index < index
      → index ≤ last_log_index rf
      → Returns (snapshot_to gob index bytes rf) (λ rf'.
        (rf'.last_snapshot_index ≡ index)
        × (last_log_index rf' ≡ last_log_index rf)
        × ((i : ℕ) → index < i → entry_at i rf' ≡ entry_at i rf)
        × (Option.map (λ e. e.term) (entry_at index rf) ≡ some rf'.last_snapshot_term)
        × (entry_at index rf' ≡ some (record { term = rf'.last_snapshot_term; command = none }))
        × (read_snapshot rf'.persister ≡ bytes))
  unfolding snapshot_to
  snapshot_to_lem index bytes rf low high =
      let k = index - rf.last_snapshot_index in
      let (e, p) = get_elem?-lt rf.logs k (omega arith) in
      let (fits, q) = drop-get_elem? rf.logs k p in
      let at = entry_at-get_elem? index k rf (omega arith) ∙ p in
      let marker : LogEntry C = record { term = e.term; command = none } in
      let rf' = save_snapshot gob bytes (record rf {
        logs = marker ∷ drop (suc k) rf.logs;
        last_snapshot_term = e.term;
        last_snapshot_index = index;
      }) in
      rw (gt→leb _ _ low, at, fits, q)
        (
          refl,
          omega (arith, length-drop (suc k) rf.logs),
          λ i lt. trimmed i k rf rf' marker refl (omega arith) lt,
          refl,
          entry_at-get_elem? index 0 rf' (omega arith),
          refl,
        )
