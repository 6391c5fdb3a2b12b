-- ===== src/Lab3a/Append/Matching.antt =====
-- The log of a follower that answers with success.
use mathlib.Core.Path.{subst, ◌∙◌}
use major_assignments.Common.{
  ltb, Bool-cases, ◌>>=◌, length, get_elem?, take, length-append, length-take, get_elem?-lt,
  take_all, ℕ, zero, suc, ◌+◌, ◌-◌, ◌≤◌, ◌≡◌, refl, sym, ap, inl, inr, true, Option, none, some,
  List, [], ◌∷◌, ◌++◌, arith,
}
use major_assignments.Lab3a.Append.{
  AppendEntriesReply, follow_commit, append_entries, HeartBeatArgs, Received, append_shorter,
  append_equal,
}
use major_assignments.Lab3a.Log.{last_log_info, IsIndexedFrom, IsIndexed}
use major_assignments.Lab3a.Persist.{Saved}
use major_assignments.Lab3a.Timers.{reset_election_timer}
use major_assignments.Lab3a.Types.{follower, LogEntry, Raft}
use major_assignments.Labgob.{Labgob}

module _ {C : Type 0} where
  indexed_at :
      (i k : ℕ) (es : List (LogEntry C)) {e : LogEntry C}
      → IsIndexedFrom i es
      → get_elem? es k ≡ some e
      → e.idx ≡ i + k
  indexed_at i k [] h g = cc g
  indexed_at i zero (x ∷ es) h g = ground arith
  indexed_at i (suc k) (x ∷ es) h g = omega (arith, indexed_at (suc i) k es h.1 g)

  pub IsIndexedFrom-append :
      (i : ℕ) (xs ys : List (LogEntry C))
      → IsIndexedFrom i xs
      → IsIndexedFrom (i + length xs) ys
      → IsIndexedFrom i (xs ++ ys)
  IsIndexedFrom-append i [] ys h g = subst (λ n. IsIndexedFrom n ys) (omega arith) g
  IsIndexedFrom-append i (x ∷ xs) ys h g = (
    h.0,
    IsIndexedFrom-append (suc i) xs ys h.1 (subst (λ n. IsIndexedFrom n ys) (omega arith) g),
  )

  pub IsIndexedFrom-take :
      (i n : ℕ) (xs : List (LogEntry C)) → IsIndexedFrom i xs → IsIndexedFrom i (take n xs)
  IsIndexedFrom-take i zero xs h = tt
  IsIndexedFrom-take i (suc n) [] h = tt
  IsIndexedFrom-take i (suc n) (x ∷ xs) h = (h.0, IsIndexedFrom-take (suc i) n xs h.1)

  -- The last index is the place of the last entry.
  pub last_log_info_lem :
      (rf : Raft C)
      → IsIndexed rf
      → (e : LogEntry C) × (get_elem? rf.log_entries (length rf.log_entries - 1) ≡ some e)
        × (last_log_info rf ≡ some (e.term, length rf.log_entries - 1))
  unfolding last_log_info
  last_log_info_lem rf w =
      let (e, p) =
        get_elem?-lt rf.log_entries (length rf.log_entries - 1) (omega (arith, w.has_marker)) in
      let at = indexed_at 0 (length rf.log_entries - 1) rf.log_entries w.at_place p in
      (e, p, rw p (ap (λ n. some (e.term, n)) (omega (arith, at))))

module _ {C : Type 0} (gob : Labgob (Saved C)) where
  -- What the peer has at `PrevLogIndex` and in its log after a success.
  IsAccepted : HeartBeatArgs C → Raft C → Raft C → Type 0
  IsAccepted args rf rf' =
      let n = args.prev_log_index + 1 in
      (n ≤ length rf.log_entries)
      × (rf'.log_entries ≡ take n rf.log_entries ++ args.entries)
      × ((e : LogEntry C) × (get_elem? rf.log_entries args.prev_log_index ≡ some e)
          × (e.term ≡ args.perv_log_term))

  shorter-IsAccepted :
      (args : HeartBeatArgs C) (last : ℕ) (rf : Raft C) {r : Received C}
      → append_shorter gob args last rf ≡ some r
      → r.success ≡ true
      → IsAccepted args rf r.peer
  unfolding append_shorter IsAccepted
  shorter-IsAccepted args last rf h g = ground arith

  equal-IsAccepted :
      (args : HeartBeatArgs C) (rf : Raft C) {r : Received C}
      → args.prev_log_index + 1 ≡ length rf.log_entries
      → append_equal gob args args.prev_log_index rf ≡ some r
      → r.success ≡ true
      → IsAccepted args rf r.peer
  unfolding append_equal IsAccepted
  equal-IsAccepted args rf e h g =
      ground (arith, take_all (args.prev_log_index + 1) rf.log_entries e)

  answer_of : ℕ → ℕ → ℕ → Option (Received C) → Option (Raft C × AppendEntriesReply)
  answer_of commit me term o = do
    r ← o
    some (
      follow_commit gob r.may_commit commit r.peer,
      record { follower_id = me; term = term; success = r.success; next_index = r.next_index },
    )

  -- The answer to a message that is not refused at once.
  answered :
      (commit me term : ℕ) (o : Option (Received C)) {rf' : Raft C} {reply : AppendEntriesReply}
      → answer_of commit me term o ≡ some (rf', reply)
      → reply.success ≡ true
      → (r : Received C) × (o ≡ some r)
        × (r.success ≡ true)
        × (rf'.log_entries ≡ r.peer.log_entries)
  unfolding follow_commit answer_of
  answered commit me term none h g = cc
  answered commit me term (some r) h g = (r, refl, ground arith, ground arith)

  append_entries-IsAccepted :
      (args : HeartBeatArgs C) (rf : Raft C) {rf' : Raft C} {reply : AppendEntriesReply}
      → IsIndexed rf
      → append_entries gob args rf ≡ some (rf', reply)
      → reply.success ≡ true
      → IsAccepted args rf rf'
  unfolding append_entries IsAccepted answer_of reset_election_timer
  append_entries-IsAccepted args rf {rf'} {reply} w h g =
      let (last, p, q) = last_log_info_lem rf w in
      let place = length rf.log_entries - 1 in
      let heard = reset_election_timer (record rf { term = args.term; state = follower }) in
      elim (Bool-cases (ltb args.term rf.term)) [
        | inl old ↦ absurd (ground (arith, q))
        | inr fresh ↦ elim (Bool-cases (ltb place args.prev_log_index)) [
          | inl beyond ↦ absurd (ground (arith, q))
          | inr inside ↦ elim (Bool-cases (ltb args.prev_log_index place)) [
            | inl shorter ↦
                let run = rw (q, fresh, inside, shorter) at h in
                let (r, got, ok, log) = answered args.leader_commit rf.me rf.term _ run g in
                let (a, b, c) = shorter-IsAccepted args place heard got ok in (a, log ∙ b, c)
            | inr equal ↦
                let run = rw (q, fresh, inside, equal) at h in
                let (r, got, ok, log) = answered args.leader_commit rf.me rf.term _ run g in
                let here : args.prev_log_index ≡ place = ground arith in
                let (a, b, c) =
                  equal-IsAccepted args heard (omega (arith, here, w.has_marker))
                    (subst (λ n. append_equal gob args n heard ≡ some r) (sym here) got) ok in
                (a, log ∙ b, c)
          ]
        ]
      ]

  -- After a success of `AppendEntries` on a log whose entries stand at their indices, for a message
  -- whose entries are those behind `PrevLogIndex`, the follower had at `PrevLogIndex` an entry of the
  -- leader's term; its log is the old one up to there, then the entries of the message, each at its
  -- index.
  pub append_entries_matches :
      (args : HeartBeatArgs C) (rf : Raft C) {rf' : Raft C} {reply : AppendEntriesReply}
      → IsIndexed rf
      → IsIndexedFrom (args.prev_log_index + 1) args.entries
      → append_entries gob args rf ≡ some (rf', reply)
      → reply.success ≡ true
      → ((e : LogEntry C) × (get_elem? rf.log_entries args.prev_log_index ≡ some e)
          × (e.term ≡ args.perv_log_term))
        × (rf'.log_entries ≡ take (args.prev_log_index + 1) rf.log_entries ++ args.entries)
        × IsIndexed rf'
  unfolding IsAccepted
  append_entries_matches args rf {rf'} w new h g =
      let (fits, log, prev) = append_entries-IsAccepted args rf w h g in
      let n = args.prev_log_index + 1 in
      let kept = take n rf.log_entries in
      let size = length-take n rf.log_entries in
      (
        prev,
        log,
        record {
          at_place = subst (IsIndexedFrom 0) (sym log) (
              IsIndexedFrom-append 0 kept args.entries
                (IsIndexedFrom-take 0 n rf.log_entries w.at_place)
                (subst (λ i. IsIndexedFrom i args.entries) (omega (arith, size)) new));
          has_marker = omega (arith, ap length log, length-append kept args.entries, size);
        },
      )
