-- ===== src/Raft/Apply/InOrder.antt =====
-- `startApplyLogs` sends the committed entries that were not sent yet, each once, in order.
use mathlib.Core.Option
use mathlib.Core.List.{append-nil, append_assoc}
use native.Mathlib.Numerals.{add-one}
use Prim.Native.Nat.{max}
use major_assignments.Common.{
  leb, ge→ltb, leb→gt, Bool-cases, length, get_elem?-lt, ℕ, zero, suc, ◌+◌, ◌-◌, ◌≤◌, ◌<◌, ◌≡◌,
  refl, sym, ap, ◌∙◌, inl, inr, true, some, List, [], ◌∷◌, ◌++◌, arith,
}
use major_assignments.Labgob.{Labgob}
use major_assignments.Raft.Apply.{message_for, collect, deliver, deliver_all, start_apply_logs}
use major_assignments.Raft.Log.{last_log_index, entry_at}
use major_assignments.Raft.Persist.{Saved}
use major_assignments.Raft.Timers.{apply_interval}
use major_assignments.Raft.Types.{LogEntry, ApplyMsg, Raft}

module _ {C : Type 0} where
  entry_in_log :
      (i : ℕ) (rf : Raft C)
      → rf.last_snapshot_index ≤ i
      → i ≤ last_log_index rf
      → 0 < length rf.logs
      → (e : LogEntry C) × (entry_at i rf ≡ some e)
  unfolding entry_at
  entry_in_log i rf low high ne =
      let (e, p) = get_elem?-lt rf.logs (i - rf.last_snapshot_index) (omega arith) in
      (e, rw (ge→ltb _ _ low) p)

-- `msgs` are the messages for the indices from `i` on, each with the command of its entry.
abbrev pub AreMessages : {C : Type 0} → Raft C → ℕ → List (ApplyMsg C) → Type 0
AreMessages rf i [] = Unit
AreMessages rf i (m ∷ ms) =
    (m.command_valid ≡ true)
    × (m.command_index ≡ i)
    × (Option.map (λ e. e.command) (entry_at i rf) ≡ some m.command)
    × AreMessages rf (suc i) ms

module _ {C : Type 0} where
  collect_lem :
      (k i : ℕ) (rf : Raft C)
      → rf.last_snapshot_index ≤ i
      → i + k ≤ last_log_index rf + 1
      → 0 < length rf.logs
      → (ms : List (ApplyMsg C)) × (collect k i rf ≡ some ms)
        × (length ms ≡ k)
        × AreMessages rf i ms
  unfolding collect
  collect_lem zero i rf low high ne = ([], refl, refl, tt)
  collect_lem (suc k) i rf low high ne =
      let (e, p) = entry_in_log i rf low (omega arith) ne in
      let (ms, q, l, are) = collect_lem k (suc i) rf (omega arith) (omega arith) ne in
      let q' : collect k (i + 1) rf ≡ some ms = rw add-one q in
      (message_for i e ∷ ms, rw (p, q'), ap suc l, (refl, refl, rw p, are))

  delivered :
      (ms : List (ApplyMsg C)) (rf rf0 : Raft C) (i : ℕ)
      → AreMessages rf0 (suc i) ms
      → rf.last_applied ≡ i
      → ((deliver_all ms rf).apply_ch ≡ rf.apply_ch ++ ms)
        × ((deliver_all ms rf).last_applied ≡ i + length ms)
        × ((deliver_all ms rf).logs ≡ rf.logs)
        × ((deliver_all ms rf).commit_index ≡ rf.commit_index)
  unfolding deliver_all deliver
  delivered [] rf rf0 i are e = (sym (append-nil rf.apply_ch), omega arith, refl, refl)
  delivered (m ∷ ms) rf rf0 i are e =
      let (a, b, c, d) = delivered ms (deliver m rf) rf0 (suc i) are.3 are.1 in
      (a ∙ append_assoc rf.apply_ch (m ∷ []) ms, omega (arith, b), c, d)

module _ {C : Type 0} (gob : Labgob (Saved C)) where
  -- With no snapshot to install and the commit index inside the log, the run returns; it sends the
  -- messages for the indices behind `lastApplied` up to `commitIndex`, in order and with the
  -- commands of the log, after those sent before, and `lastApplied` is the greater of the two.
  pub start_apply_logs_lem :
      (rf : Raft C)
      → 0 < length rf.logs
      → rf.last_snapshot_index ≤ rf.last_applied
      → rf.commit_index ≤ last_log_index rf
      → (rf' : Raft C) × (ms : List (ApplyMsg C)) × (start_apply_logs gob rf ≡ some rf')
        × (rf'.apply_ch ≡ rf.apply_ch ++ ms)
        × (length ms ≡ rf.commit_index - rf.last_applied)
        × AreMessages rf (suc rf.last_applied) ms
        × (rf'.last_applied ≡ max rf.last_applied rf.commit_index)
        × (rf'.logs ≡ rf.logs)
  unfolding start_apply_logs
  start_apply_logs_lem rf ne low high = elim (Bool-cases (leb rf.commit_index rf.last_applied)) [
    | inl e ↦ (
      record rf { apply_timer = apply_interval },
      [],
      rw (ge→ltb _ _ low, e),
      sym (append-nil rf.apply_ch),
      ground arith,
      tt,
      ground arith,
      refl,
    )
    | inr e ↦
        let gt = leb→gt _ _ e in
        let (ms, q, l, are) =
          collect_lem (rf.commit_index - rf.last_applied) (suc rf.last_applied) rf (omega arith)
            (omega arith) ne in
        let q' : collect (rf.commit_index - rf.last_applied) (rf.last_applied + 1) rf ≡ some ms =
          rw add-one q in
        let (a, b, c, d) = delivered ms rf rf rf.last_applied are refl in
        (
          record (deliver_all ms rf) { apply_timer = apply_interval },
          ms,
          rw (ge→ltb _ _ low, e, q'),
          a,
          l,
          are,
          omega (arith, b, l),
          c,
        )
  ]
