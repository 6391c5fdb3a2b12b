-- ===== src/Raft/Persist/Sequence.antt =====
-- The order of the `Encode` calls of `getPersistData` and of the `Decode` calls of `readPersist`.
use mathlib.Core.List.{append-nil}
use major_assignments.Common.{
  ◌>>=◌, length, length-append, ℕ, ◌<◌, ◌≡◌, refl, sym, ap, ◌∙◌, Option, some, List, [], ◌++◌,
  arith,
}
use major_assignments.Labgob.{Labgob}
use major_assignments.Labgob.Stream.{Stream}
use major_assignments.Raft.Persist.{Saved}
use major_assignments.Raft.Types.{LogEntry}

module _ {C : Type 0} (ints : Stream ℕ) (vote_ints : Stream (Option ℕ))
    (entries : Stream (List (LogEntry C))) where
  abbrev pub encode_saved : Saved C → List ℕ
  encode_saved s =
      let e5 = entries.write s.logs in
      let e4 = ints.write s.last_snapshot_index ++ e5 in
      let e3 = ints.write s.last_snapshot_term ++ e4 in
      let e2 = ints.write s.commit_index ++ e3 in
      let e1 = vote_ints.write s.voted_for ++ e2 in ints.write s.current_term ++ e1

  abbrev pub decode_saved : List ℕ → Option (Saved C)
  decode_saved bytes = do
    (current_term, b1) ← ints.read bytes
    (voted_for, b2) ← vote_ints.read b1
    (commit_index, b3) ← ints.read b2
    (last_snapshot_term, b4) ← ints.read b3
    (last_snapshot_index, b5) ← ints.read b4
    (logs, _) ← entries.read b5
    some (record {
      current_term = current_term;
      voted_for = voted_for;
      commit_index = commit_index;
      last_snapshot_term = last_snapshot_term;
      last_snapshot_index = last_snapshot_index;
      logs = logs;
    })

  read_last : (es : List (LogEntry C)) → entries.read (entries.write es) ≡ some (es, [])
  read_last es = ap entries.read (sym (append-nil (entries.write es))) ∙ entries.read-write es []

  pub decode_saved-encode_saved : (s : Saved C) → decode_saved (encode_saved s) ≡ some s
  decode_saved-encode_saved s =
      let e5 = entries.write s.logs in
      let e4 = ints.write s.last_snapshot_index ++ e5 in
      let e3 = ints.write s.last_snapshot_term ++ e4 in
      let e2 = ints.write s.commit_index ++ e3 in
      let e1 = vote_ints.write s.voted_for ++ e2 in
      rw
        (
          ints.read-write s.current_term e1,
          vote_ints.read-write s.voted_for e2,
          ints.read-write s.commit_index e3,
          ints.read-write s.last_snapshot_term e4,
          ints.read-write s.last_snapshot_index e5,
          read_last s.logs,
        )
        refl

  pub encode_saved_nonempty : (s : Saved C) → 0 < length (encode_saved s)
  encode_saved_nonempty s =
      let e4 = ints.write s.last_snapshot_index ++ entries.write s.logs in
      let e2 = ints.write s.commit_index ++ (ints.write s.last_snapshot_term ++ e4) in
      omega (
        arith,
        ints.write_nonempty s.current_term,
        length-append (ints.write s.current_term) (vote_ints.write s.voted_for ++ e2),
      )

  abbrev pub saved_gob : Labgob (Saved C)
  saved_gob = record {
    encode = encode_saved;
    decode = decode_saved;
    decode-encode = decode_saved-encode_saved;
    encode_nonempty = encode_saved_nonempty;
  }
