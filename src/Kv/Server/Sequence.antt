-- ===== src/Kv/Server/Sequence.antt =====
-- The order of the `Encode` calls of `saveSnapshot` and of the `Decode` calls of `readPersist`.
use mathlib.Core.List.{append-nil}
use major_assignments.Common.{
  ◌>>=◌, length, length-append, String, ℕ, ◌<◌, ◌≡◌, refl, sym, ap, ◌∙◌, Option, some, List, [],
  ◌++◌, arith,
}
use major_assignments.Kv.Server.{KvSaved}
use major_assignments.Labgob.{Labgob}
use major_assignments.Labgob.Stream.{Stream}

module _ (tables : Stream (List (String × String))) (marks : Stream (List (ℕ × ℕ))) where
  abbrev pub encode_data : KvSaved → List ℕ
  encode_data s = tables.write s.contents ++ marks.write s.last_applies

  abbrev pub decode_data : List ℕ → Option KvSaved
  decode_data bytes = do
    (contents, rest) ← tables.read bytes
    (last_applies, _) ← marks.read rest
    some (record { contents = contents; last_applies = last_applies })

  pub decode_data-encode_data : (s : KvSaved) → decode_data (encode_data s) ≡ some s
  decode_data-encode_data s =
      let last : marks.read (marks.write s.last_applies) ≡ some (s.last_applies, []) =
        ap marks.read (sym (append-nil (marks.write s.last_applies)))
        ∙ marks.read-write s.last_applies [] in
      rw (tables.read-write s.contents (marks.write s.last_applies), last) refl

  pub encode_data_nonempty : (s : KvSaved) → 0 < length (encode_data s)
  encode_data_nonempty s = omega (
    arith,
    tables.write_nonempty s.contents,
    length-append (tables.write s.contents) (marks.write s.last_applies),
  )

  abbrev pub kv_gob : Labgob KvSaved
  kv_gob = record {
    encode = encode_data;
    decode = decode_data;
    decode-encode = decode_data-encode_data;
    encode_nonempty = encode_data_nonempty;
  }
