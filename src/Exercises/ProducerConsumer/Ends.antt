-- ===== src/Exercises/ProducerConsumer/Ends.antt =====
-- Every run ends, and where no move is left, everything has been consumed.
use major_assignments.Common.{
  ltb, if◌then◌else◌, Bool-cases, >>=-eq-some, length, replicate, length-replicate, ℕ, zero, suc,
  ◌+◌, ◌≤◌, ◌<◌, ◌≡◌, refl, ap, ◌∙◌, ◌⊎◌, inl, inr, true, false, none, some, List, [], ◌∷◌, ◌++◌,
  arith,
}
use major_assignments.Exercises.ProducerConsumer.{
  Move, buffer, Consumer, Program, produce, consume, close_channel, leave, all_sent, step_close,
  go_on, step, start_program,
}
use major_assignments.Exercises.ProducerConsumer.Conserved.{
  unsent, IsOrderly, copies, work, set?-at, produced, consumed, left_loop, step-IsKept,
}
use major_assignments.Exercises.ProducerConsumer.Enabled.{
  consume_enabled, produce_enabled, close_enabled, leave_enabled,
}
use major_assignments.Exercises.Runs.{runs}
use major_assignments.Exercises.Totals.{total, total-set?, positive_total, count, list_cases}

-- The consumers that are in their loop.
abbrev pub waiting : Program → ℕ
waiting s = total (λ c. if c.ended then 0 else 1) s.consumers

all_sent-unsent : (ps : List (List ℕ)) → all_sent ps ≡ true → total length ps ≡ 0
all_sent-unsent [] h = refl
all_sent-unsent ([] ∷ ps) h = omega (arith, all_sent-unsent ps h)
all_sent-unsent ((p ∷ q) ∷ ps) h = cc h

unsent-all_sent : (ps : List (List ℕ)) → total length ps ≡ 0 → all_sent ps ≡ true
unsent-all_sent [] h = refl
unsent-all_sent ([] ∷ ps) h = unsent-all_sent ps (omega arith)
unsent-all_sent ((p ∷ q) ∷ ps) h = absurd (omega arith)

closed_now :
    (s : Program) {s' : Program}
    → step_close s ≡ some s'
    → (all_sent s.producers ≡ true) × (s.closed ≡ false) × (s' ≡ record s { closed = true })
unfolding step_close
closed_now s h = (ground arith, ground arith, ground arith)

step-IsOrderly :
    (m : Move) (s : Program) {s' : Program} → IsOrderly s → go_on m s ≡ some s' → IsOrderly s'
unfolding go_on
step-IsOrderly (produce i) s {s'} o h =
    let (num, rest, ps, at, room, _, put, eq) = produced i s o h in
    let fewer = total-set? length s.producers i (num ∷ rest) rest at put in
    record {
      runs_on = ground (arith, eq, o.runs_on);
      closed_sent = λ c. ground (arith, eq, fewer, o.closed_sent);
      gone_over = λ g. absurd (ground (arith, eq, fewer, o.closed_sent, o.gone_over));
    }
step-IsOrderly (consume i) s {s'} o h =
    let (num, rest, c, cs, at, ch, put, eq) = consumed i s h in
    let c' : Consumer = record c { taken = num ∷ c.taken } in
    let same = total-set? (λ c. if c.ended then 1 else 0) s.consumers i c c' at put in
    record {
      runs_on = ground (arith, eq, o.runs_on);
      closed_sent = λ c. ground (arith, eq, o.closed_sent);
      gone_over = λ g. absurd (ground (arith, eq, same, ap length ch, o.gone_over));
    }
step-IsOrderly close_channel s {s'} o h =
    let (sent, open_yet, eq) = closed_now s h in
    record {
      runs_on = ground (arith, eq, o.runs_on);
      closed_sent = λ c. ground (arith, eq, all_sent-unsent s.producers sent);
      gone_over = λ g. absurd (ground (arith, eq, open_yet, o.gone_over));
    }
step-IsOrderly (leave i) s {s'} o h =
    let (c, cs, at, stays, closed, empty, put, eq) = left_loop i s h in
    record {
      runs_on = ground (arith, eq, o.runs_on);
      closed_sent = λ c. ground (arith, eq, o.closed_sent);
      gone_over = λ g. (ground (arith, eq, closed), ground (arith, eq, empty));
    }

pub record IsRun (ms : List Move) (s s' : Program) : Type 0 where
  pub fits : length s'.channel ≤ buffer
  pub kept : (a : ℕ) → copies a s' ≡ copies a s
  pub moves_end : length ms + work s' ≤ work s
  pub same_consumers : length s'.consumers ≡ length s.consumers
  pub orderly : IsOrderly s'

runs-IsRun :
    (ms : List Move) (s : Program) {s' : Program}
    → IsOrderly s
    → length s.channel ≤ buffer
    → runs step ms s ≡ some s'
    → IsRun ms s s'
unfolding runs step
runs-IsRun [] s o fits h = record {
  fits = ground arith;
  kept = λ a. ground arith;
  moves_end = ground arith;
  same_consumers = ground arith;
  orderly = ground arith;
}
runs-IsRun (m ∷ ms) s o fits h =
    let (t, p, q) = >>=-eq-some (step m s) (λ t. runs step ms t) h in
    let went : go_on m s ≡ some t = ground (arith, o.runs_on) in
    let k = step-IsKept m s o went in
    let r = runs-IsRun ms t (step-IsOrderly m s o went) (k.channel_fits fits) q in
    record {
      fits = r.fits;
      kept = λ a. r.kept a ∙ k.copies_kept a;
      moves_end = omega (arith, r.moves_end, k.work_falls);
      same_consumers = r.same_consumers ∙ k.same_consumers;
      orderly = r.orderly;
    }

total-replicate : {A : Type 0} (f : A → ℕ) (n : ℕ) (x : A) → f x ≡ 0 → total f (replicate n x) ≡ 0
total-replicate f zero x h = refl
total-replicate f (suc n) x h = omega (arith, h, total-replicate f n x h)

main-IsRun :
    (items : List (List ℕ)) (n : ℕ) (ms : List Move) {s : Program}
    → runs step ms (start_program items n) ≡ some s
    → IsRun ms (start_program items n) s
unfolding start_program
main-IsRun items n ms h =
    let fresh : Consumer = record { taken = []; ended = false } in
    let no_one = total-replicate (λ c. if c.ended then 1 else 0) n fresh refl in
    runs-IsRun ms (start_program items n)
      (record {
        runs_on = refl;
        closed_sent = λ c. cc c;
        gone_over = λ g. absurd (omega (arith, g, no_one));
      })
      (omega arith) h

closed_cases :
    (s : Program) → (s.closed ≡ true → unsent s ≡ 0) → (s.closed ≡ false) ⊎ (unsent s ≡ 0)
closed_cases s h = elim (Bool-cases s.closed) [ inl c ↦ inr (h c) | inr c ↦ inl c ]

-- A run of the program never sends on the closed channel: as long as a number is unsent the channel
-- is open, and no send panics. It has never more in the channel than fits, loses and doubles no
-- number, keeps its consumers and has at most as many moves as there is work at its start.
pub runs_lem :
    (items : List (List ℕ)) (n : ℕ) (ms : List Move) {s : Program}
    → runs step ms (start_program items n) ≡ some s
    → (s.crashed ≡ false)
      × ((s.closed ≡ false) ⊎ (unsent s ≡ 0))
      × (length s.channel ≤ buffer)
      × ((a : ℕ) → copies a s ≡ copies a (start_program items n))
      × (length ms + work s ≤ work (start_program items n))
      × (length s.consumers ≡ length (start_program items n).consumers)
runs_lem items n ms {s} h =
    let r = main-IsRun items n ms h in
    (
      r.orderly.runs_on,
      closed_cases s r.orderly.closed_sent,
      r.fits,
      r.kept,
      r.moves_end,
      r.same_consumers,
    )

gone_waiting :
    (cs : List Consumer)
    → total (λ c. if c.ended then 1 else 0) cs + total (λ c. if c.ended then 0 else 1) cs
      ≡ length cs
gone_waiting [] = refl
gone_waiting (c ∷ cs) = ground (arith, gone_waiting cs)

goes :
    (m : Move) (s : Program) {s' : Program}
    → s.crashed ≡ false
    → go_on m s ≡ some s'
    → step m s ≡ some s'
unfolding step
goes m s r h = ground (arith, r, h)

-- Unless every consumer has left its loop, some goroutine can go on.
progress :
    (s : Program)
    → IsOrderly s
    → length s.channel ≤ buffer
    → 0 < waiting s
    → (m : Move) × (s' : Program) × (go_on m s ≡ some s')
unfolding go_on
progress s o fits w =
    let (i, c, at, stays) = positive_total (λ c. if c.ended then 0 else 1) s.consumers w in
    elim (list_cases s.channel) [
      | inr (num, rest, ch) ↦
          let c' : Consumer = record c { taken = num ∷ c.taken } in
          let (cs, put, _) = set?-at s.consumers i c c' at in
          (
            consume i,
            record s { channel = rest; consumers = cs },
            consume_enabled s i c at stays ch put,
          )
      | inl ch ↦ elim (Bool-cases (ltb 0 (unsent s))) [
        | inl e ↦
            let (j, items, at', more) = positive_total length s.producers (ground (arith, e)) in
            elim (list_cases items) [
              | inl z ↦ absurd (ground (arith, more, z))
              | inr (num, rest, z) ↦
                  let (ps, put, _) = set?-at s.producers j items rest at' in
                  (
                    produce j,
                    record s { producers = ps; channel = s.channel ++ num ∷ [] },
                    produce_enabled s j (at' ∙ ap some z) (ground (arith, ap length ch))
                        (ground (arith, e, o.closed_sent)) put,
                  )
            ]
        | inr e ↦ elim (Bool-cases s.closed) [
          | inr f ↦ (
            close_channel,
            record s { closed = true },
            close_enabled s f (unsent-all_sent s.producers (ground (arith, e))),
          )
          | inl f ↦
              let c' : Consumer = record c { ended = true } in
              let (cs, put, _) = set?-at s.consumers i c c' at in
              (
                leave i,
                record s { consumers = cs },
                leave_enabled s i c at stays f (ap length ch) put,
              )
        ]
      ]
    ]

none_unsent : (a : ℕ) (ps : List (List ℕ)) → total length ps ≡ 0 → total (count a) ps ≡ 0
none_unsent a [] h = refl
none_unsent a ([] ∷ ps) h = omega (arith, none_unsent a ps (omega arith))
none_unsent a ((p ∷ q) ∷ ps) h = absurd (omega arith)

none_in_channel : (a : ℕ) (xs : List ℕ) → length xs ≡ 0 → count a xs ≡ 0
none_in_channel a [] h = refl
none_in_channel a (x ∷ xs) h = absurd (omega arith)

-- Where a run from the start has come to a point at which no goroutine can make a move, and there is a
-- consumer, every consumer has left its loop and together they have taken exactly the numbers that the
-- producers were to send.
pub stuck_lem :
    (items : List (List ℕ)) (n : ℕ) (ms : List Move) {s : Program}
    → 0 < n
    → runs step ms (start_program items n) ≡ some s
    → ((m : Move) → step m s ≡ none)
    → (waiting s ≡ 0) × ((a : ℕ) → total (λ c. count a c.taken) s.consumers ≡ total (count a) items)
unfolding start_program
stuck_lem items n ms {s} pos h stuck =
    let fresh : Consumer = record { taken = []; ended = false } in
    let r = main-IsRun items n ms h in
    let o = r.orderly in
    elim (Bool-cases (ltb 0 (waiting s))) [
      | inl e ↦
          let (m, s', p) = progress s o r.fits (ground (arith, e)) in
          absurd (cc (goes m s o.runs_on p, stuck m))
      | inr e ↦
          let over = o.gone_over (
            ground
              (arith, e, gone_waiting s.consumers, r.same_consumers, length-replicate n fresh)) in
          let sent = o.closed_sent over.0 in
          (
            ground (arith, e),
            λ a. omega (
              arith,
              r.kept a,
              none_unsent a s.producers sent,
              none_in_channel a s.channel over.1,
              total-replicate (λ c. count a c.taken) n fresh refl,
            ),
          )
    ]
