-- ===== src/Raft/Rpc.antt =====
-- The calls of other peers: `sendRequestVote`, `sendAppendEntries` and the loop of
-- `sendInstallSnapshotToPeer`. The package `labrpc` is not part of the repository: how a call ends is
-- an argument, in the order of the calls. `none` is a call that fails.
use major_assignments.Common.{
  ltb, leb, ◌==◌, if◌then◌else◌, Option-cases, get_elem?, ℕ, zero, suc, ◌<◌, ◌≡◌, inl, inr, Bool,
  false, not, ◌&&◌, ◌||◌, Option, none, some, List, [], ◌∷◌, arith,
}

-- Whether the peer is killed when an attempt is due, and how the call ends.
pub record Attempt (R : Type 0) : Type 0 where
  pub killed : Bool
  pub outcome : Option R

module _ {R : Type 0} where
  -- At most `n` attempts; `none` where no call succeeds before the timer or the end.
  unfoldable pub attempts : ℕ → List (Attempt R) → Option R
  attempts zero calls = none
  attempts (suc n) [] = none
  attempts (suc n) (call ∷ calls) =
      let rest = attempts n calls in
      if call.killed then none else elim call.outcome [ none ↦ rest | some reply ↦ some reply ]

  abbrev pub tries : List (Attempt R) → Bool
  tries [] = false
  tries (call ∷ _) = not call.killed

  -- `ok` of the peer's own number, or of one that is too great, is a panic; so is the index of the
  -- number of peers, which the first test lets pass.
  unfoldable pub send_request_vote : ℕ → ℕ → ℕ → List (Attempt R) → Option (Option R)
  unfolding attempts
  send_request_vote peers me server calls =
      if ltb peers server || server == me
      then none
      else if server == peers && tries calls
      then none
      else some (attempts 10 calls)

  unfoldable pub send_append_entries : ℕ → ℕ → List (Attempt R) → Option (Option R)
  unfolding attempts
  send_append_entries peers server calls =
      if leb peers server && tries calls then none else some (attempts 10 calls)

-- What ends the wait of a round of `sendInstallSnapshotToPeer`.
pub data Wait (R : Type 0) : Type 0 where
  stopped : Wait R
  timed_out : Wait R
  call_ended : Option R → Wait R

module _ {R : Type 0} where
  -- The loop: `none` if the peer stops, or still tries at the end of the list.
  unfoldable pub await_reply : List (Wait R) → Option R
  await_reply [] = none
  await_reply (stopped ∷ waits) = none
  await_reply (timed_out ∷ waits) = await_reply waits
  await_reply (call_ended none ∷ waits) = await_reply waits
  await_reply (call_ended (some reply) ∷ waits) = some reply

  -- The reply that is taken is that of the first call which succeeds: it is one of the first `n`,
  -- every call before it failed, and the peer was alive at each of them.
  pub attempts_lem :
      (n : ℕ) (calls : List (Attempt R)) {reply : R}
      → attempts n calls ≡ some reply
      → (i : ℕ) × (i < n)
        × (get_elem? calls i ≡ some (record { killed = false; outcome = some reply }))
        × ((j : ℕ) → j < i → get_elem? calls j ≡ some (record { killed = false; outcome = none }))
  unfolding attempts
  attempts_lem zero calls h = cc h
  attempts_lem (suc n) [] h = cc h
  attempts_lem (suc n) (call ∷ calls) {reply} h = elim (Option-cases call.outcome) [
    | inr w ↦ (0, omega arith, ground (arith, w.1), λ j lt. absurd (omega arith))
    | inl e ↦
        let (i, lt, at, failed) = attempts_lem n calls {reply = reply} (ground arith) in
        (
          suc i,
          omega arith,
          at,
          λ j.
              elim j
                as (λ j.
                  j < suc i
                  → get_elem? (call ∷ calls) j ≡ some (record { killed = false; outcome = none })) [
                    | zero ↦ λ lt'. ground (arith, e)
                    | suc j ↦ λ lt'. failed j (omega arith)
                  ],
        )
  ]
