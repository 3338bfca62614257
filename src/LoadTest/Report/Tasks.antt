-- ===== src/LoadTest/Report/Tasks.antt =====
-- run.mjs: the tasks that `main` launches.
use flash_pay.Prelude.{
  ℕ, zero, suc, ◌+◌, ◌*◌, ◌/◌, ◌%◌, ◌≤◌, ◌<◌, ◌≡◌, ◌≢◌, refl, ap, sym, ◌∙◌, Bool, true, false,
  Bool-cases, inl, inr, List, [], ◌∷◌, ◌++◌, ◌==◌, length, count_if, arith,
}
use native.Mathlib.Nat.{div-add-mod, mod-lt}
use flash_pay.LoadTest.Args.{Options}
use flash_pay.LoadTest.Report.{
  Task, make_task, user_tasks, tasks_from, all_tasks, is_invalid_ordinal,
}

-- The tasks from number `k` on, counted over all users: task `k` is of user `k / b`.
abbrev pub numbered : Options → (left k : ℕ) → List Task
numbered o zero k = []
numbered o (suc left) k = make_task o (k / o.batches_per_user) (k + 1) ∷ numbered o left (k + 1)

div_between : (u b k : ℕ) → u * b ≤ k → k < u * b + b → k / b ≡ u
div_between u b k low high = grind arith

numbered_eq : (o : Options) {m n k l : ℕ} → m ≡ n → k ≡ l → numbered o m k ≡ numbered o n l
numbered_eq o e f = cc

numbered-append :
    (o : Options) (m n k : ℕ) → numbered o (m + n) k ≡ numbered o m k ++ numbered o n (k + m)
numbered-append o zero n k = numbered_eq o (omega arith) (omega arith)
numbered-append o (suc m) n k =
    let more : suc m + n ≡ suc (m + n) = omega arith in
    let past : k + 1 + m ≡ k + suc m = omega arith in
    numbered_eq o more refl
    ∙ ap (λ l. make_task o (k / o.batches_per_user) (k + 1) ∷ l)
        (numbered-append o m n (k + 1)
          ∙ ap (λ l. numbered o m (k + 1) ++ l) (numbered_eq o refl past))

user_tasks-numbered :
    (o : Options) (u left k : ℕ)
    → u * o.batches_per_user ≤ k
    → k + left ≤ u * o.batches_per_user + o.batches_per_user
    → user_tasks o u left k ≡ numbered o left k
unfolding user_tasks
user_tasks-numbered o u zero k low high = refl
user_tasks-numbered o u (suc left) k low high =
    rw (div_between u o.batches_per_user k low (omega arith)) (
      ap (λ l. make_task o u (k + 1) ∷ l)
        (user_tasks-numbered o u left (k + 1) (omega arith) (omega arith)))

tasks_from-numbered :
    (o : Options) (left u k : ℕ)
    → k ≡ u * o.batches_per_user
    → tasks_from o left u k ≡ numbered o (left * o.batches_per_user) k
unfolding tasks_from
tasks_from-numbered o zero u k e =
    let nothing : 0 ≡ 0 * o.batches_per_user = omega arith in numbered_eq o nothing refl
tasks_from-numbered o (suc left) u k e =
    let b = o.batches_per_user in
    let more : b + left * b ≡ suc left * b = omega arith in
    ap (λ l. l ++ tasks_from o left (u + 1) (k + b))
      (user_tasks-numbered o u b k (omega (arith, e)) (omega (arith, e)))
    ∙ ap (λ l. numbered o b k ++ l) (tasks_from-numbered o left (u + 1) (k + b) (grind arith))
    ∙ sym (numbered-append o b (left * b) k)
    ∙ numbered_eq o more refl

-- The tasks are numbered through all users: task `k`, counted from 0, has the ordinal `k + 1` and
-- is of user `k / b`, where `b` is the number of batches of a user, and they are as many as the
-- users have batches.
pub all_tasks-numbered :
    (o : Options) (users : ℕ) → all_tasks o users ≡ numbered o (users * o.batches_per_user) 0
unfolding all_tasks
all_tasks-numbered o users = tasks_from-numbered o users 0 0 (omega arith)

length-numbered : (o : Options) (left k : ℕ) → length (numbered o left k) ≡ left
length-numbered o zero k = refl
length-numbered o (suc left) k = ap suc (length-numbered o left (k + 1))

pub length-all_tasks :
    (o : Options) (users : ℕ) → length (all_tasks o users) ≡ users * o.batches_per_user
length-all_tasks o users =
    ap length (all_tasks-numbered o users) ∙ length-numbered o (users * o.batches_per_user) 0

div_before : (q e k : ℕ) → 0 < e → k + 1 ≡ q * e → q ≡ k / e + 1
div_before zero e k pos h = absurd (omega arith)
div_before (suc p) e k pos h = omega (arith, div_between p e k (omega arith) (omega arith))

step_multiple : (e k : ℕ) → 0 < e → (k + 1) % e ≡ 0 → (k + 1) / e ≡ k / e + 1
step_multiple e k pos h = div_before ((k + 1) / e) e k pos (omega (arith, div-add-mod (k + 1) e))

step_other : (e k : ℕ) → 0 < e → (k + 1) % e ≢ 0 → k / e ≡ (k + 1) / e
step_other e k pos h =
    div_between ((k + 1) / e) e k (grind (arith, div-add-mod (k + 1) e))
      (grind (arith, div-add-mod (k + 1) e, mod-lt))

invalid_at : (e n : ℕ) → 0 < e → (b : Bool) → (n % e == 0) ≡ b → is_invalid_ordinal e n ≡ b
invalid_at e n pos b h = ground arith

past_none : (k : ℕ) → k + 0 ≡ k
past_none k = omega arith

past_one : (k left : ℕ) → k + 1 + left ≡ k + suc left
past_one k left = omega arith

from_zero : (k : ℕ) → 0 + k ≡ k
from_zero k = omega arith

none_before : (e : ℕ) → 0 < e → 0 / e ≡ 0
none_before e pos = div_between 0 e 0 (omega arith) (omega arith)

count_invalid :
    (o : Options) (left k : ℕ)
    → 0 < o.invalid_every
    → count_if (λ t. t.is_invalid) (numbered o left k) + k / o.invalid_every
      ≡ (k + left) / o.invalid_every
unfolding make_task
count_invalid o zero k pos = omega (arith, ap (λ t. t / o.invalid_every) (past_none k))
count_invalid o (suc left) k pos =
    let e = o.invalid_every in
    let next = count_invalid o left (k + 1) pos in
    let past : (k + 1 + left) / e ≡ (k + suc left) / e = ap (λ t. t / e) (past_one k left) in
    elim (Bool-cases ((k + 1) % e == 0)) [
      | inl multiple ↦
          rw (invalid_at e (k + 1) pos true multiple)
            (omega (arith, next, past, step_multiple e k pos (ground arith)))
      | inr other ↦
          rw (invalid_at e (k + 1) pos false other)
            (omega (arith, next, past, step_other e k pos (ground arith)))
    ]

-- Where every nth batch is to be invalid, the invalid batches are as many as the multiples of n
-- among the numbers of the batches, from 1 to the number of them all.
pub count-all_tasks :
    (o : Options) (users : ℕ)
    → 0 < o.invalid_every
    → count_if (λ t. t.is_invalid) (all_tasks o users)
      ≡ users * o.batches_per_user / o.invalid_every
count-all_tasks o users pos =
    let n = users * o.batches_per_user in
    ap (count_if (λ t. t.is_invalid)) (all_tasks-numbered o users)
    ∙ omega (
      arith,
      count_invalid o n 0 pos,
      ap (λ t. t / o.invalid_every) (from_zero n),
      none_before o.invalid_every pos,
    )
