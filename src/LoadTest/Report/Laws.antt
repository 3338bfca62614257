-- ===== src/LoadTest/Report/Laws.antt =====
-- run.mjs: the sums of the report and the exit code.
use flash_pay.Prelude.{
  ℕ, zero, suc, ◌+◌, ◌*◌, Text, ◌≡◌, ◌↔◌, refl, ap, sym, ◌∙◌, Bool, true, false, not, Bool-cases,
  inl, inr, none, some, List, [], ◌∷◌, ltb, if◌then◌else◌, length, length-map, map, keep, All,
  arith,
}
use mathlib.Core.Path.{subst}
use flash_pay.Prelude.Double.{Double}
use flash_pay.LoadTest.Report.Tasks.{length-all_tasks}
use flash_pay.LoadTest.Outcome.{Outcome, done, thrown}
use flash_pay.LoadTest.Args.{Options, parse_args}
use flash_pay.LoadTest.Api.{LoadUser, LoadDetail, counts_of}
use flash_pay.LoadTest.Poll.{or_zero}
use flash_pay.LoadTest.Scenario.{BatchResult}
use flash_pay.LoadTest.Scenario.Laws.{IsFinal, was_refused, was_processed, IsJudged}
use flash_pay.LoadTest.Report.{
  StatusTotals, no_totals, final_counts, add_counts, add_final_statuses, summarize_final_statuses,
  Task, all_tasks, with_users, with_options, indices, run_main, help_shown, is_valid, has_failed,
  Report, make_report, all_fulfilled, Ran, reported, finish_run,
}

length-keep_split {ℓ} :
    {A : Type ℓ} (p : A → Bool) (xs : List A)
    → length (keep p xs) + length (keep (λ x. not (p x)) xs) ≡ length xs
length-keep_split p [] = omega arith
length-keep_split p (x ∷ xs) = elim (Bool-cases (p x)) [
  | inl in_it ↦ rw in_it (omega (arith, length-keep_split p xs))
  | inr out ↦ rw out (omega (arith, length-keep_split p xs))
]

-- The payments of a result, as its detail gives them.
abbrev pub detail_total : BatchResult → ℕ
detail_total r = elim r.final_detail [ none ↦ 0 | some d ↦ or_zero d.total_payments ]

abbrev pub sum_totals : List BatchResult → ℕ
sum_totals [] = 0
sum_totals (r ∷ results) = detail_total r + sum_totals results

-- A success of a valid file, with a final detail.
abbrev IsProcessed : BatchResult → Type 0
IsProcessed r = (d : LoadDetail) × (r.final_detail ≡ some d) × IsFinal d

IsJudged-IsProcessed :
    (r : BatchResult) → IsJudged r → is_valid r ≡ true → r.ok ≡ true → IsProcessed r
IsJudged-IsProcessed r (inr (bad, _)) v ok = cc
IsJudged-IsProcessed r (inl (_, _, was_refused k _)) v ok = ground arith
IsJudged-IsProcessed r (inl (_, _, was_processed d _ e f)) v ok = (d, e, f)

-- The totals `u` are the totals `t` with `n` payments that are done.
record Grows (t u : StatusTotals) (n : ℕ) : Type 0 where
  pending : u.pending ≡ t.pending
  processing : u.processing ≡ t.processing
  settled : u.success + u.failed ≡ t.success + t.failed + n

Grows-counts :
    (t : StatusTotals) (d : LoadDetail)
    → IsFinal d
    → Grows t (add_counts t (counts_of d)) (or_zero d.total_payments)
unfolding add_counts
Grows-counts t d f = record {
  pending = omega (arith, f.none_pending);
  processing = omega (arith, f.none_processing);
  settled = omega (arith, f.none_pending, f.none_processing, ap or_zero f.total);
}

Grows-add_counts :
    (t : StatusTotals) (r : BatchResult)
    → IsProcessed r
    → Grows t (add_counts t (final_counts r)) (detail_total r)
Grows-add_counts t r (d, e, f) = rw e (Grows-counts t d f)

Grows-add_final_statuses :
    (t : StatusTotals) (results : List BatchResult)
    → All IsProcessed results
    → Grows t (add_final_statuses t results) (sum_totals results)
unfolding add_final_statuses
Grows-add_final_statuses t [] h = omega arith
Grows-add_final_statuses t (r ∷ results) (p, h) =
    let u = add_counts t (final_counts r) in
    let now = Grows-add_counts t r p in
    let later = Grows-add_final_statuses u results h in
    record {
      pending = later.pending ∙ now.pending;
      processing = later.processing ∙ now.processing;
      settled = omega (arith, later.settled, now.settled);
    }

abbrev successes : List BatchResult → List BatchResult
successes results = keep (λ r. r.ok) (keep is_valid results)

IsProcessed-successes :
    (results : List BatchResult) → All IsJudged results → All IsProcessed (successes results)
IsProcessed-successes [] h = tt
IsProcessed-successes (r ∷ results) (j, h) = elim (Bool-cases (is_valid r)) [
  | inl v ↦ elim (Bool-cases r.ok) [
    | inl ok ↦ rw (v) (
        subst
          (λ (b : Bool). All IsProcessed (if b then r ∷ successes results else successes results))
          (sym ok) (IsJudged-IsProcessed r j v ok, IsProcessed-successes results h))
    | inr bad ↦ rw (v) (
        subst
          (λ (b : Bool). All IsProcessed (if b then r ∷ successes results else successes results))
          (sym bad) (IsProcessed-successes results h))
  ]
  | inr other ↦ rw (other) (IsProcessed-successes results h)
]

-- In the report of results that are judged, no payment of a successful batch is pending or in
-- process, and the payments that succeeded and those that failed add up to the totals of the
-- successful batches.
pub final_statuses-settled :
    (o : Options) (users : List LoadUser) (results : List BatchResult) (ms : Double)
    → All IsJudged results
    → ((make_report o users results ms).final_statuses.pending ≡ 0)
      × ((make_report o users results ms).final_statuses.processing ≡ 0)
      × ((make_report o users results ms).final_statuses.success
            + (make_report o users results ms).final_statuses.failed
          ≡ sum_totals (keep (λ r. r.ok) (keep is_valid results)))
unfolding make_report summarize_final_statuses
final_statuses-settled o users results ms h =
    let g =
      Grows-add_final_statuses no_totals (successes results) (IsProcessed-successes results h) in
    (g.pending, g.processing, omega (arith, g.settled))

-- The values of promises, as many as there are.
abbrev AreAll : {A : Type 0} → ℕ → Outcome (List A) → Type 0
AreAll n (done values) = length values ≡ n
AreAll n (thrown _) = Unit

AreAll-later :
    {A : Type 0} (n : ℕ) (a : A) (m : Outcome (List A))
    → AreAll n m
    → AreAll (suc n) (elim m [ thrown message ↦ thrown message | done values ↦ done (a ∷ values) ])
AreAll-later n a (done values) h = ap suc h
AreAll-later n a (thrown message) h = tt

AreAll-all_fulfilled :
    {A : Type 0} (promises : List (Outcome A)) → AreAll (length promises) (all_fulfilled promises)
unfolding all_fulfilled
AreAll-all_fulfilled [] = refl
AreAll-all_fulfilled (thrown message ∷ promises) = tt
AreAll-all_fulfilled (done a ∷ promises) =
    AreAll-later (length promises) a (all_fulfilled promises) (AreAll-all_fulfilled promises)

-- What a run that ends with a report says: the users and the batches are as many as the options
-- want, each batch is counted once by its kind and once by its outcome, and the exit code is 0
-- exactly where none has failed.
pub record IsReported (o : Options) (report : Report) (exit_code : ℕ) : Type 0 where
  pub users : report.total_users ≡ o.users
  pub attempted : report.total_batches_attempted ≡ o.users * o.batches_per_user
  pub kinds : report.valid_batches + report.invalid_batches ≡ report.total_batches_attempted
  pub outcomes : report.successful_runs + report.failed_runs ≡ report.total_batches_attempted
  pub exit : (exit_code ≡ 0) ↔ (report.failed_runs ≡ 0)

-- The report, if there is one, says so.
abbrev Reports : Options → Ran → Type 0
Reports o (reported report failures exit_code) = IsReported o report exit_code
Reports o _ = Unit

length-indices : (left index : ℕ) → length (indices left index) ≡ left
length-indices zero index = refl
length-indices (suc left) index = ap suc (length-indices left (index + 1))

exit_zero : (n : ℕ) → (◌≡◌ {A = ℕ} (if ltb 0 n then 1 else 0) 0) ↔ (n ≡ 0)
exit_zero n = ground arith

Reports-finish_run :
    (o : Options) (users : List LoadUser) (ms : Double) (m : Outcome (List BatchResult))
    → length users ≡ o.users
    → AreAll (length users * o.batches_per_user) m
    → Reports o (finish_run o users ms m)
unfolding finish_run make_report
Reports-finish_run o users ms (thrown message) e h = tt
Reports-finish_run o users ms (done results) e h = record {
  users = e;
  attempted = h ∙ ap (λ n. n * o.batches_per_user) e;
  kinds = length-keep_split is_valid results;
  outcomes = length-keep_split (λ r. r.ok) results;
  exit = exit_zero (length (keep has_failed results));
}

Reports-with_users :
    (o : Options) (run : List LoadUser → Task → Outcome BatchResult) (ms : Double)
    (m : Outcome (List LoadUser))
    → AreAll o.users m
    → Reports o (with_users o run ms m)
unfolding with_users
Reports-with_users o run ms (thrown message) h = tt
Reports-with_users o run ms (done users) h =
    let tasks = all_tasks o (length users) in
    let promises = map (run users) tasks in
    Reports-finish_run o users ms (all_fulfilled promises) h (
      subst (λ n. AreAll n (all_fulfilled promises))
        (length-map tasks (run users) ∙ length-all_tasks o (length users))
        (AreAll-all_fulfilled promises))

-- A run without `--help`, and one with it.
no_help : (b : Bool) (r : Ran) {s : Ran} → b ≡ false → (if b then help_shown else r) ≡ s → r ≡ s
no_help true r e h = cc
no_help false r e h = h

help_only :
    (b : Bool) (r : Ran) {s : Ran} → b ≡ true → (if b then help_shown else r) ≡ s → help_shown ≡ s
help_only true r e h = h
help_only false r e h = cc

Reports-options :
    (register : Options → ℕ → Outcome LoadUser)
    (run : Options → List LoadUser → Task → Outcome BatchResult) (ms : Double) (p : Outcome Options)
    {report : Report} {failures : List BatchResult} {exit_code : ℕ}
    → with_options register run ms p ≡ reported report failures exit_code
    → (o : Options) × (p ≡ done o) × IsReported o report exit_code
unfolding with_options
Reports-options register run ms (thrown message) h = cc
Reports-options register run ms (done o) h = elim (Bool-cases o.help) [
  | inl asked ↦ cc (help_only o.help (with_users o (run o) ms users) asked h)
  | inr other ↦ (
    o,
    refl,
    subst (Reports o) (no_help o.help (with_users o (run o) ms users) other h) (
        Reports-with_users o (run o) ms users (
          subst (λ n. AreAll n users)
            (length-map (indices o.users 0) (register o) ∙ length-indices o.users 0)
            (AreAll-all_fulfilled promises))),
  )
]
  where
    promises : List (Outcome LoadUser)
    promises = map (register o) (indices o.users 0)

    users : Outcome (List LoadUser)
    users = all_fulfilled promises

-- If a run ends with a report, then the command line is one of options for which the report says
-- what `IsReported` states: as many users as the options want, as many batches as these users
-- have, each batch counted once by its kind and once by its outcome, and the exit code 0 exactly
-- where no batch has failed.
pub run_main-IsReported :
    (argv : List Text) (register : Options → ℕ → Outcome LoadUser)
    (run : Options → List LoadUser → Task → Outcome BatchResult) (ms : Double) {report : Report}
    {failures : List BatchResult} {exit_code : ℕ}
    → run_main argv register run ms ≡ reported report failures exit_code
    → (o : Options) × (parse_args argv ≡ done o) × IsReported o report exit_code
unfolding run_main
run_main-IsReported argv register run ms h = Reports-options register run ms (parse_args argv) h
