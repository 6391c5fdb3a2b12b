-- ===== src/Kv/Clerk/Answers.antt =====
-- What the loops of a clerk return, and which server they end at.
use native.Mathlib.Nat.{mod-eq_of_lt, mod-lt, mod-add-mod}
use major_assignments.Common.{
  length, String, ℕ, suc, ◌+◌, ◌%◌, ◌<◌, ◌≡◌, refl, sym, ap, ◌∙◌, ◌≢◌, ◌⊎◌, inl, inr, Option, none,
  some, List, [], ◌∷◌, ◌++◌, map, arith,
}
use major_assignments.Kv.Clerk.{
  Clerk, next_leader, Verdict, answer, rotate, retry, judge_get, judge_put_append, clerk_loop,
  clerk_get, clerk_put_append,
}
use major_assignments.Kv.Types.{Err, ok, err_no_key, err_wrong_leader, err_time_out, GetReply}

-- Rounds that do not end the loop, and the number of them that move on to the next server.
abbrev moves : List Verdict → ℕ
moves [] = 0
moves (rotate ∷ vs) = suc (moves vs)
moves (_ ∷ vs) = moves vs

abbrev GoOn : List Verdict → Type 0
GoOn [] = Unit
GoOn (answer text ∷ vs) = ⊥
GoOn (rotate ∷ vs) = GoOn vs
GoOn (retry ∷ vs) = GoOn vs

clerk_loop_lem :
    (vs : List Verdict) (text : String) (rest : List Verdict) (ck : Clerk)
    → GoOn vs
    → ck.leader_id < ck.servers
    → ((clerk_loop (vs ++ answer text ∷ rest) ck).1 ≡ some text)
      × ((clerk_loop (vs ++ answer text ∷ rest) ck).0.leader_id
          ≡ (ck.leader_id + moves vs) % ck.servers)
unfolding clerk_loop
clerk_loop_lem [] text rest ck go h =
    (refl, sym (mod-eq_of_lt (omega arith)) ∙ ap (λ n. n % ck.servers) (omega arith))
clerk_loop_lem (answer t ∷ vs) text rest ck go h = absurd go
clerk_loop_lem (rotate ∷ vs) text rest ck go h =
    let (a, b) =
      clerk_loop_lem vs text rest (next_leader ck) go (mod-lt (ck.leader_id + 1) (omega arith)) in
    (
      a,
      b
          ∙ mod-add-mod (ck.leader_id + 1) ck.servers (moves vs)
          ∙ ap (λ n. n % ck.servers) (omega arith),
    )
clerk_loop_lem (retry ∷ vs) text rest ck go h = clerk_loop_lem vs text rest ck go h

-- Results of `Get` that are no answer: the call fails, or the server refuses.
abbrev pub AreRefused : List (Option GetReply) → Type 0
AreRefused [] = Unit
AreRefused (none ∷ rs) = AreRefused rs
AreRefused (some r ∷ rs) = ((r.err ≡ err_wrong_leader) ⊎ (r.err ≡ err_time_out)) × AreRefused rs

-- How many of them are not a time-out of the server.
abbrev pub not_timed_out : List (Option GetReply) → ℕ
not_timed_out [] = 0
not_timed_out (none ∷ rs) = suc (not_timed_out rs)
not_timed_out (some r ∷ rs) =
    let rest = not_timed_out rs in elim r.err [ err_time_out ↦ rest | _ ↦ suc rest ]

-- Results of `PutAppend` that are no success.
abbrev pub AreFailed : List (Option Err) → Type 0
AreFailed [] = Unit
AreFailed (none ∷ rs) = AreFailed rs
AreFailed (some e ∷ rs) = (e ≢ ok) × AreFailed rs

refused_rounds :
    (rs : List (Option GetReply)) (text : String) (reply : GetReply) (rest : List (Option GetReply))
    → AreRefused rs
    → judge_get (some reply) ≡ answer text
    → (map judge_get (rs ++ some reply ∷ rest)
        ≡ map judge_get rs ++ answer text ∷ map judge_get rest)
      × GoOn (map judge_get rs)
      × (moves (map judge_get rs) ≡ not_timed_out rs)
unfolding judge_get
refused_rounds [] text reply rest a h = (ap (λ v. v ∷ map judge_get rest) h, tt, refl)
refused_rounds (none ∷ rs) text reply rest a h =
    ground (arith, refused_rounds rs text reply rest a h)
refused_rounds (some r ∷ rs) text reply rest (inl e, a) h =
    ground (arith, refused_rounds rs text reply rest a h)
refused_rounds (some r ∷ rs) text reply rest (inr e, a) h =
    ground (arith, refused_rounds rs text reply rest a h)

failed_round : (e : Err) → e ≢ ok → judge_put_append (some e) ≡ rotate
unfolding judge_put_append
failed_round ok n = absurd (n refl)
failed_round err_no_key n = refl
failed_round err_wrong_leader n = refl
failed_round err_time_out n = refl

failed_rounds :
    (rs : List (Option Err)) (rest : List (Option Err))
    → AreFailed rs
    → (map judge_put_append (rs ++ some ok ∷ rest)
        ≡ map judge_put_append rs ++ answer "" ∷ map judge_put_append rest)
      × GoOn (map judge_put_append rs)
      × (moves (map judge_put_append rs) ≡ length rs)
unfolding judge_put_append
failed_rounds [] rest a = (refl, tt, refl)
failed_rounds (none ∷ rs) rest a = ground (arith, failed_rounds rs rest a)
failed_rounds (some e ∷ rs) rest a = ground (arith, failed_round e a.0, failed_rounds rs rest a.1)

answer_judged :
    (reply : GetReply) (text : String)
    → ((reply.err ≡ ok) × (text ≡ reply.value)) ⊎ ((reply.err ≡ err_no_key) × (text ≡ ""))
    → judge_get (some reply) ≡ answer text
unfolding judge_get
answer_judged reply text (inl (e, t)) = rw (e, t) refl
answer_judged reply text (inr (e, t)) = rw (e, t) refl

-- Where the clerk's leader is one of its servers: however many calls of `Get` fail, find no leader or
-- time out, `Get` returns the value of the first reply with `OK`, or the empty text at the first with
-- `ErrNoKey`, and the clerk has gone one server on, round the ring, for each of those results but the
-- time-outs of servers. However many calls of `PutAppend` fail or are answered with an error, it
-- returns at the first `OK`, and the clerk has gone one server on for each of them.
pub clerk_calls_lem :
    (refused : List (Option GetReply)) (reply : GetReply) (text : String)
    (failed : List (Option Err)) (gets : List (Option GetReply)) (puts : List (Option Err))
    (ck : Clerk)
    → AreRefused refused
    → ((reply.err ≡ ok) × (text ≡ reply.value)) ⊎ ((reply.err ≡ err_no_key) × (text ≡ ""))
    → AreFailed failed
    → ck.leader_id < ck.servers
    → ((clerk_get (refused ++ some reply ∷ gets) ck).1 ≡ some text)
      × ((clerk_get (refused ++ some reply ∷ gets) ck).0.leader_id
          ≡ (ck.leader_id + not_timed_out refused) % ck.servers)
      × ((clerk_put_append (failed ++ some ok ∷ puts) ck).1 ≡ some "")
      × ((clerk_put_append (failed ++ some ok ∷ puts) ck).0.leader_id
          ≡ (ck.leader_id + length failed) % ck.servers)
unfolding clerk_get clerk_put_append
clerk_calls_lem refused reply text failed gets puts ck a t b h =
    let (e, go, n) = refused_rounds refused text reply gets a (answer_judged reply text t) in
    let (e', go', n') = failed_rounds failed puts b in
    let (p, q) = clerk_loop_lem (map judge_get refused) text (map judge_get gets) ck go h in
    let (p', q') =
      clerk_loop_lem (map judge_put_append failed) "" (map judge_put_append puts) ck go' h in
    (
      ap (λ vs. (clerk_loop vs ck).1) e ∙ p,
      ap (λ vs. (clerk_loop vs ck).0.leader_id) e ∙ q ∙ ap (λ k. (ck.leader_id + k) % ck.servers) n,
      ap (λ vs. (clerk_loop vs ck).1) e' ∙ p',
      ap (λ vs. (clerk_loop vs ck).0.leader_id) e'
          ∙ q'
          ∙ ap (λ k. (ck.leader_id + k) % ck.servers) n',
    )
