-- ===== src/Raft/Commit/FreshLeader.antt =====
-- `changeRole` sets every position of `matchIndex` to the leader's own last index, so that a new
-- leader takes every entry of the log it begins with for replicated.
use mathlib.Core.Path.{subst}
use major_assignments.Common.{
  ltb, if◌then◌else◌, Bool-cases, Option-cases, ◌>>=◌, set?, >>=-eq-some, count_ge, length,
  get_elem?, length-append, ℕ, zero, suc, ◌+◌, ◌-◌, ◌≤◌, ◌<◌, ◌≡◌, refl, sym, ap, ◌∙◌, inl, inr,
  Bool, true, false, Option, some, List, [], ◌∷◌, ◌++◌, arith,
}
use major_assignments.Labgob.{Labgob}
use major_assignments.Raft.Append.{AppendEntriesArgs, AppendEntriesReply}
use major_assignments.Raft.Apply.{start}
use major_assignments.Raft.Commit.{try_commit_log}
use major_assignments.Raft.Commit.Majority.{try_commit_log_lem}
use major_assignments.Raft.Log.{last_log_index}
use major_assignments.Raft.Persist.{Saved, persist}
use major_assignments.Raft.Role.{fill, change_role}
use major_assignments.Raft.Send.{ends_in_term, note_match, finish_append}
use major_assignments.Raft.Types.{leader, Raft}

abbrev AllFrom : ℕ → List ℕ → Type 0
AllFrom v [] = Unit
AllFrom v (x ∷ xs) = (v ≤ x) × AllFrom v xs

AllFrom-fill :
    (n v : ℕ) (xs : List ℕ) {ys : List ℕ}
    → fill n v xs ≡ some ys
    → length xs ≡ n
    → AllFrom v ys × (length ys ≡ n)
unfolding fill
AllFrom-fill zero v [] h e = ground arith
AllFrom-fill zero v (x ∷ xs) h e = absurd (omega arith)
AllFrom-fill (suc n) v [] h e = cc
AllFrom-fill (suc n) v (x ∷ xs) h e =
    let (zs, p, q) = >>=-eq-some (fill n v xs) (λ zs. some (v ∷ zs)) h in
    ground (arith, q, AllFrom-fill n v xs p (omega arith))

AllFrom-set? :
    (v i w : ℕ) (xs : List ℕ) {ys : List ℕ}
    → set? xs i w ≡ some ys
    → v ≤ w
    → AllFrom v xs
    → AllFrom v ys × (length ys ≡ length xs)
AllFrom-set? v i w [] h le a = cc h
AllFrom-set? v zero w (x ∷ xs) h le a = ground arith
AllFrom-set? v (suc i) w (x ∷ xs) h le a =
    let (zs, p, q) = >>=-eq-some (set? xs i w) (λ zs. some (x ∷ zs)) h in
    ground (arith, q, AllFrom-set? v i w xs p le a.1)

AllFrom-at : (v i : ℕ) (xs : List ℕ) {x : ℕ} → get_elem? xs i ≡ some x → AllFrom v xs → v ≤ x
AllFrom-at v i [] h a = cc h
AllFrom-at v zero (x ∷ xs) h a = ground arith
AllFrom-at v (suc i) (x ∷ xs) h a = AllFrom-at v i xs h a.1

AllFrom-count_ge : (v : ℕ) (xs : List ℕ) → AllFrom v xs → count_ge v xs ≡ length xs
AllFrom-count_ge v [] a = refl
AllFrom-count_ge v (x ∷ xs) a = ground (arith, AllFrom-count_ge v xs a.1)

module _ {C : Type 0} where
  -- A leader that takes everything up to `v` for replicated.
  record Presumes (v peers : ℕ) (rf : Raft C) : Type 0 where
    matches : AllFrom v rf.match_index
    nexts : AllFrom (suc v) rf.next_index
    size : length rf.match_index ≡ peers
    same_peers : rf.peers ≡ peers
    leads : rf.role ≡ leader
    inside : v ≤ last_log_index rf
    commits : rf.commit_index ≤ last_log_index rf

  change_role-Presumes :
      (rf : Raft C) {rf1 : Raft C}
      → length rf.match_index ≡ rf.peers
      → length rf.next_index ≡ rf.peers
      → rf.commit_index ≤ last_log_index rf
      → change_role leader rf ≡ some rf1
      → Presumes (last_log_index rf) rf.peers rf1
  unfolding change_role
  change_role-Presumes rf {rf1} m n w h =
      let f : fill rf.peers (last_log_index rf) rf.match_index ≡ some rf1.match_index =
        ground arith in
      let g : fill rf.peers (last_log_index rf + 1) rf.next_index ≡ some rf1.next_index =
        ground arith in
      let (a, b) = AllFrom-fill rf.peers (last_log_index rf) rf.match_index f m in
      let (c, _) = AllFrom-fill rf.peers (last_log_index rf + 1) rf.next_index g n in
      record {
        matches = a;
        nexts = subst (λ v. AllFrom v rf1.next_index) (omega arith) c;
        size = b;
        same_peers = ground arith;
        leads = ground arith;
        inside = ground arith;
        commits = ground arith;
      }

  start-Presumes :
      (command : C) (v peers : ℕ) (rf : Raft C) {rf' : Raft C} {answer : Option (ℕ × ℕ)}
      → start command rf ≡ some (rf', answer)
      → Presumes v peers rf
      → Presumes v peers rf'
  unfolding start
  start-Presumes command v peers rf {rf'} h w =
      let rf1 : Raft C = record rf {
        logs = rf.logs ++ record { term = rf.current_term; command = some command } ∷ [];
      } in
      let longer : last_log_index rf1 ≡ rf.last_snapshot_index + length rf.logs = ground (
        arith,
        length-append rf.logs (record { term = rf.current_term; command = some command } ∷ []),
      ) in
      let next_index : set? rf.next_index rf.me (last_log_index rf1 + 1) ≡ some rf'.next_index =
        ground (arith, w.leads) in
      let match_index : set? rf.match_index rf.me (last_log_index rf1) ≡ some rf'.match_index =
        ground (arith, w.leads) in
      let same : last_log_index rf' ≡ last_log_index rf1 = ground (arith, w.leads) in
      let (a, b) =
        AllFrom-set? v rf.me (last_log_index rf1) rf.match_index match_index
          (omega (arith, longer, w.inside)) w.matches in
      let (c, _) =
        AllFrom-set? (suc v) rf.me (last_log_index rf1 + 1) rf.next_index next_index
          (omega (arith, longer, w.inside)) w.nexts in
      record {
        matches = a;
        nexts = c;
        size = b ∙ w.size;
        same_peers = ground (arith, w.leads, w.same_peers);
        leads = ground (arith, w.leads);
        inside = omega (arith, same, longer, w.inside);
        commits = ground (arith, w.leads, same, longer, w.commits);
      }

  note_match-Presumes :
      (v peers p next : ℕ) (rf : Raft C) {rf' : Raft C}
      → note_match p next rf ≡ some rf'
      → Presumes v peers rf
      → Presumes v peers rf' × (rf'.current_term ≡ rf.current_term)
  unfolding note_match
  note_match-Presumes v peers p next rf {rf'} h w =
      elim (Option-cases (get_elem? rf.next_index p)) [
        | inl e ↦ absurd (ground arith)
        | inr (old, e) ↦ elim (Bool-cases (ltb old next)) [
          | inr behind ↦
              let same : rf' ≡ rf = ground (arith, e, behind) in
              (subst (Presumes v peers) (sym same) w, ap (λ r. r.current_term) same)
          | inl ahead ↦
              let low = AllFrom-at (suc v) p rf.next_index e w.nexts in
              let f : set? rf.next_index p next ≡ some rf'.next_index = ground (arith, e, ahead) in
              let g : set? rf.match_index p (next - 1) ≡ some rf'.match_index =
                ground (arith, e, ahead) in
              let (a, b) =
                AllFrom-set? v p (next - 1) rf.match_index g (ground (arith, low, ahead))
                  w.matches in
              let (c, _) =
                AllFrom-set? (suc v) p next rf.next_index f (ground (arith, low, ahead)) w.nexts in
              (
                record {
                  matches = a;
                  nexts = c;
                  size = b ∙ w.size;
                  same_peers = ground (arith, e, ahead, w.same_peers);
                  leads = ground (arith, e, ahead, w.leads);
                  inside = ground (arith, e, ahead, w.inside);
                  commits = ground (arith, e, ahead, w.commits);
                },
                ground (arith, e, ahead),
              )
        ]
      ]

  commits_presumed :
      (v peers : ℕ) (rf : Raft C) {rf' : Raft C}
      → 0 < peers
      → try_commit_log rf ≡ some rf'
      → Presumes v peers rf
      → v ≤ rf'.commit_index
  commits_presumed v peers rf pos h w =
      let spec = try_commit_log_lem rf w.commits h in
      let all = AllFrom-count_ge v rf.match_index w.matches in
      spec.3 v w.inside (omega (arith, all, w.size, w.same_peers, pos))

module _ {C : Type 0} (gob : Labgob (Saved C)) where
  success_commits :
      (p : ℕ) (args : AppendEntriesArgs C) (reply : AppendEntriesReply) (rf : Raft C) {rf' : Raft C}
      {flag : Bool}
      → finish_append gob p args reply rf ≡ some (rf', flag)
      → rf.role ≡ leader
      → reply.success ≡ true
      → reply.term ≤ rf.current_term
      → args.term ≡ rf.current_term
      → (rf1 : Raft C) × (rf2 : Raft C) × (note_match p reply.next_log_index rf ≡ some rf1)
        × ((if ends_in_term args.entries rf1.current_term then try_commit_log rf1 else some rf1)
            ≡ some rf2)
        × (rf'.commit_index ≡ rf2.commit_index)
  unfolding finish_append persist
  success_commits p args reply rf {rf'} {flag} h l s t a =
      let low : ltb rf.current_term reply.term ≡ false = ground arith in
      let done : Raft C → Raft C × Bool = λ rf2. (persist gob rf2, false) in
      let opened : (note_match p reply.next_log_index rf >>= λ rf1.
      (if ends_in_term args.entries rf1.current_term then try_commit_log rf1 else some rf1)
      >>= λ rf2. some (done rf2))
          ≡ some (rf', flag) =
        ground (arith, low) in
      let (rf1, e, f) = >>=-eq-some (note_match p reply.next_log_index rf) _ opened in
      let (rf2, g, i) =
        >>=-eq-some
          (if ends_in_term args.entries rf1.current_term then try_commit_log rf1 else some rf1) _
          f in
      (rf1, rf2, e, g, ground (arith, i))

  -- A new leader that gets one command and then one success reply, to entries that end in its own
  -- term, from whichever peer and whatever the others have, commits every entry that was in its log
  -- when it became the leader. It has to have a match index and a next index for each peer, of which
  -- there is at least one, and its commit index inside its log.
  pub fresh_leader_commits_all :
      (rf : Raft C) (command : C) (p : ℕ) (args : AppendEntriesArgs C) (reply : AppendEntriesReply)
      {rf1 rf2 rf3 : Raft C} {answer : Option (ℕ × ℕ)} {flag : Bool}
      → length rf.match_index ≡ rf.peers
      → length rf.next_index ≡ rf.peers
      → 0 < rf.peers
      → rf.commit_index ≤ last_log_index rf
      → change_role leader rf ≡ some rf1
      → start command rf1 ≡ some (rf2, answer)
      → finish_append gob p args reply rf2 ≡ some (rf3, flag)
      → reply.success ≡ true
      → reply.term ≤ rf2.current_term
      → args.term ≡ rf2.current_term
      → ends_in_term args.entries rf2.current_term ≡ true
      → last_log_index rf ≤ rf3.commit_index
  fresh_leader_commits_all rf command p args reply {rf1} {rf2} {rf3} m n pos w h k f s t a ends =
      let v = last_log_index rf in
      let w1 = change_role-Presumes rf m n w h in
      let w2 = start-Presumes command v rf.peers rf1 k w1 in
      let (rf4, rf5, e, g, c) = success_commits p args reply rf2 f w2.leads s t a in
      let (w4, same) = note_match-Presumes v rf.peers p reply.next_log_index rf2 e w2 in
      let commit : try_commit_log rf4 ≡ some rf5 =
        (ground (arith, ap (ends_in_term args.entries) same, ends, g)) in
      omega (arith, c, commits_presumed v rf.peers rf4 pos commit w4)
