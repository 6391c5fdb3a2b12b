-- ===== src/Coordinator/Timely/Queue.antt =====
-- Counts of tasks in the queue and the table.
use major_assignments.Common.{
  ltb, ◌==◌, if◌then◌else◌, ltb→lt, ltb→ge, ==→eq, eq→==, Bool-cases, set?, >>=-eq-some, contains,
  IsDistinct, AllBelow, common_member, length, ℕ, zero, suc, ◌+◌, ◌≤◌, ◌<◌, ◌≡◌, refl, sym, ap, inl,
  inr, true, some, List, [], ◌∷◌, ◌++◌, arith,
}
use major_assignments.Coordinator.{TaskPhase, Task, TaskState, Coordinator}
use major_assignments.Coordinator.Invariant.{task_count, AllTasks}
use major_assignments.Coordinator.Timely.{is_ready, ready_at, queued, AllOf}

pub queued-append : (j : ℕ) (xs ys : List Task) → queued j (xs ++ ys) ≡ queued j xs + queued j ys
queued-append j [] ys = omega arith
queued-append j (t ∷ xs) ys = omega (arith, queued-append j xs ys)

pub AllOf-append :
    (p : TaskPhase) (xs ys : List Task) → AllOf p xs → AllOf p ys → AllOf p (xs ++ ys)
AllOf-append p [] ys h k = k
AllOf-append p (t ∷ xs) ys h k = (h.0, AllOf-append p xs ys h.1 k)

pub AllOf-left : (p : TaskPhase) (xs ys : List Task) → AllOf p (xs ++ ys) → AllOf p xs
AllOf-left p [] ys h = tt
AllOf-left p (t ∷ xs) ys h = (h.0, AllOf-left p xs ys h.1)

pub AllOf-right : (p : TaskPhase) (xs ys : List Task) → AllOf p (xs ++ ys) → AllOf p ys
AllOf-right p [] ys h = h
AllOf-right p (t ∷ xs) ys h = AllOf-right p xs ys h.1

pub AllTasks-left : (c : Coordinator) (xs ys : List Task) → AllTasks c (xs ++ ys) → AllTasks c xs
AllTasks-left c [] ys h = tt
AllTasks-left c (t ∷ xs) ys h = (h.0, AllTasks-left c xs ys h.1)

pub AllTasks-right : (c : Coordinator) (xs ys : List Task) → AllTasks c (xs ++ ys) → AllTasks c ys
AllTasks-right c [] ys h = h
AllTasks-right c (t ∷ xs) ys h = AllTasks-right c xs ys h.1

pub AllTasks-append :
    (c : Coordinator) (xs ys : List Task) → AllTasks c xs → AllTasks c ys → AllTasks c (xs ++ ys)
AllTasks-append c [] ys h k = k
AllTasks-append c (t ∷ xs) ys h k = (h.0, AllTasks-append c xs ys h.1 k)

abbrev numbers : List Task → List ℕ
numbers [] = []
numbers (t ∷ ts) = t.seq ∷ numbers ts

contains-queued : (j : ℕ) (ts : List Task) → contains j (numbers ts) ≡ true → 0 < queued j ts
contains-queued j [] h = absurd (cc h)
contains-queued j (t ∷ ts) h = elim (Bool-cases (j == t.seq)) [
  | inl e ↦ rw (eq→== t.seq j (sym (==→eq j t.seq e))) (omega arith)
  | inr e ↦ omega (arith, contains-queued j ts (rw e at h))
]

counts_itself : (t : Task) → ◌≡◌ {A = ℕ} (if t.seq == t.seq then 1 else 0) 1
counts_itself t = rw (eq→== t.seq t.seq refl) refl

numbers-IsDistinct : (ts : List Task) → ((j : ℕ) → queued j ts ≤ 1) → IsDistinct (numbers ts)
numbers-IsDistinct [] h = tt
numbers-IsDistinct (t ∷ ts) h = (
  elim (Bool-cases (contains t.seq (numbers ts))) [
    | inl e ↦
        let own = counts_itself t in
        absurd (omega (arith, contains-queued t.seq ts e, h t.seq, own))
    | inr e ↦ e
  ],
  numbers-IsDistinct ts (λ j. omega (arith, h j)),
)

length-numbers : (ts : List Task) → length (numbers ts) ≡ length ts
length-numbers [] = refl
length-numbers (t ∷ ts) = ap suc (length-numbers ts)

numbers-AllBelow :
    (c : Coordinator) (p : TaskPhase) (ts : List Task)
    → AllTasks c ts
    → AllOf p ts
    → AllBelow (task_count c p) (numbers ts)
numbers-AllBelow c p [] a h = tt
numbers-AllBelow c p (t ∷ ts) a h = (rw (h.0) at (a.0.in_range), numbers-AllBelow c p ts a.1 h.1)

-- Tasks of one phase that are queued once are no more than the phase has.
pub queued_fits :
    (c : Coordinator) (p : TaskPhase) (ts : List Task)
    → AllTasks c ts
    → AllOf p ts
    → ((j : ℕ) → queued j ts ≤ 1)
    → length ts ≤ task_count c p
queued_fits c p ts a h once = elim (Bool-cases (ltb (task_count c p) (length ts))) [
  | inr e ↦ ltb→ge (task_count c p) (length ts) e
  | inl e ↦
      let lt = ltb→lt (task_count c p) (length ts) e in
      let (v, _, none_there) =
        common_member (task_count c p) (numbers ts) [] (numbers-AllBelow c p ts a h) tt
          (numbers-IsDistinct ts once) tt (omega (arith, length-numbers ts)) in
      absurd (cc none_there)
]

-- With no task queued there is no queue.
pub queued_none : (ts : List Task) → ((j : ℕ) → queued j ts ≤ 0) → ts ≡ []
queued_none [] h = refl
queued_none (t ∷ ts) h = let own = counts_itself t in absurd (omega (arith, h t.seq, own))

pub ready_le : (vs : List TaskState) (j : ℕ) → ready_at vs j ≤ 1
ready_le [] j = omega arith
ready_le (v ∷ vs) zero = ground arith
ready_le (v ∷ vs) (suc j) = ready_le vs j

pub ready-set? :
    (vs : List TaskState) (i : ℕ) (v : TaskState) {ws : List TaskState}
    → set? vs i v ≡ some ws
    → (j : ℕ)
    → ready_at ws j ≡ (if i == j then (if is_ready v.status then 1 else 0) else ready_at vs j)
ready-set? [] i v h j = cc
ready-set? (x ∷ vs) zero v h zero = ground arith
ready-set? (x ∷ vs) zero v h (suc j) = ground arith
ready-set? (x ∷ vs) (suc i) v h zero =
    let (zs, p, q) = >>=-eq-some (set? vs i v) (λ zs. some (x ∷ zs)) h in ground (arith, q)
ready-set? (x ∷ vs) (suc i) v h (suc j) =
    let (zs, p, q) = >>=-eq-some (set? vs i v) (λ zs. some (x ∷ zs)) h in
    ground (arith, q, ready-set? vs i v p j)
