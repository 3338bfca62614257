-- ===== src/LoadTest/Report.antt =====
-- run.mjs: `summarizeFinalStatuses` and `main`. The two rates per second of the summary, and the
-- printing, are left out.
pub mod Laws
pub mod Tasks
use flash_pay.Prelude.{
  ℕ, zero, suc, ◌+◌, ◌-◌, ◌*◌, ◌%◌, Text, Bool, true, false, ◌&&◌, not, Option, none, some, List,
  [], ◌∷◌, ◌++◌, ltb, ◌==◌, if◌then◌else◌, length, take, keep, map,
}
use flash_pay.Prelude.Double.{Double}
use flash_pay.LoadTest.Outcome.{Outcome, done, thrown}
use flash_pay.LoadTest.Args.{Options, parse_args}
use flash_pay.LoadTest.Api.{LoadUser, LoadCounts, LoadDetail, counts_of}
use flash_pay.LoadTest.Poll.{or_zero}
use flash_pay.LoadTest.Durations.{Summary, summarize_durations, round_ms}
use flash_pay.LoadTest.Scenario.{Kind, valid, invalid, BatchResult}

-- A task of the list, before its promise is begun.
pub record Task : Type 0 where
  pub ordinal : ℕ
  pub user_index : ℕ
  pub is_invalid : Bool
  pub launch_delay : ℕ

-- `invalidEvery > 0 && ordinal % invalidEvery === 0`
abbrev pub is_invalid_ordinal : ℕ → ℕ → Bool
is_invalid_ordinal invalid_every ordinal = ltb 0 invalid_every && (ordinal % invalid_every == 0)

unfoldable pub make_task : Options → ℕ → ℕ → Task
make_task o user_index ordinal = record {
  ordinal = ordinal;
  user_index = user_index;
  is_invalid = is_invalid_ordinal o.invalid_every ordinal;
  launch_delay = o.stagger_ms * (ordinal - 1);
}

-- The inner loop, with the rounds that are left and the ordinal so far.
unfoldable pub user_tasks : Options → ℕ → (left ordinal : ℕ) → List Task
unfolding make_task
user_tasks o user_index zero ordinal = []
user_tasks o user_index (suc left) ordinal =
    make_task o user_index (ordinal + 1) ∷ user_tasks o user_index left (ordinal + 1)

-- The outer loop.
unfoldable pub tasks_from : Options → (left user_index ordinal : ℕ) → List Task
unfolding user_tasks
tasks_from o zero user_index ordinal = []
tasks_from o (suc left) user_index ordinal =
    user_tasks o user_index o.batches_per_user ordinal
    ++ tasks_from o left (user_index + 1) (ordinal + o.batches_per_user)

unfoldable pub all_tasks : Options → ℕ → List Task
unfolding tasks_from
all_tasks o users = tasks_from o users 0 0

pub record StatusTotals : Type 0 where
  pub pending : ℕ
  pub processing : ℕ
  pub success : ℕ
  pub failed : ℕ

abbrev pub no_totals : StatusTotals
no_totals = record { pending = 0; processing = 0; success = 0; failed = 0 }

-- `result.finalDetail?.status_count ?? {}`
abbrev pub final_counts : BatchResult → LoadCounts
final_counts r = elim r.final_detail [
  | none ↦ record { pending = none; processing = none; success = none; failed = none }
  | some d ↦ counts_of d
]

unfoldable pub add_counts : StatusTotals → LoadCounts → StatusTotals
add_counts t c = record {
  pending = t.pending + or_zero c.pending;
  processing = t.processing + or_zero c.processing;
  success = t.success + or_zero c.success;
  failed = t.failed + or_zero c.failed;
}

unfoldable pub add_final_statuses : StatusTotals → List BatchResult → StatusTotals
unfolding add_counts
add_final_statuses t [] = t
add_final_statuses t (r ∷ results) = add_final_statuses (add_counts t (final_counts r)) results

unfoldable pub summarize_final_statuses : List BatchResult → StatusTotals
unfolding add_final_statuses
summarize_final_statuses results = add_final_statuses no_totals results

abbrev pub is_valid : BatchResult → Bool
is_valid r = elim r.kind [ valid ↦ true | invalid ↦ false ]

abbrev pub has_failed : BatchResult → Bool
has_failed r = not r.ok

pub record Report : Type 0 where
  pub total_users : ℕ
  pub total_batches_attempted : ℕ
  pub valid_batches : ℕ
  pub invalid_batches : ℕ
  pub successful_runs : ℕ
  pub failed_runs : ℕ
  pub scenario_duration_ms : Double
  pub upload_latency_ms : Option (Summary Double)
  pub final_state_snapshot_latency_ms : Option (Summary Double)
  pub processing_latency_ms : Option (Summary Double)
  pub end_to_end_latency_ms : Option (Summary Double)
  pub stream_latency_ms : Option (Summary Double)
  pub final_statuses : StatusTotals

unfoldable pub make_report : Options → List LoadUser → List BatchResult → Double → Report
unfolding summarize_final_statuses summarize_durations round_ms
make_report o users results total_duration_ms =
    let valid_results = keep is_valid results in
    let successful = keep (λ r. r.ok) valid_results in
    record {
      total_users = length users;
      total_batches_attempted = length results;
      valid_batches = length valid_results;
      invalid_batches = length (keep (λ r. not (is_valid r)) results);
      successful_runs = length (keep (λ r. r.ok) results);
      failed_runs = length (keep has_failed results);
      scenario_duration_ms = round_ms total_duration_ms;
      upload_latency_ms = summarize_durations results (λ r. r.upload_ms);
      final_state_snapshot_latency_ms = summarize_durations valid_results (λ r. r.final_state_ms);
      processing_latency_ms = summarize_durations successful (λ r. r.processing_ms);
      end_to_end_latency_ms = summarize_durations results (λ r. r.end_to_end_ms);
      stream_latency_ms =
          if o.open_stream then summarize_durations successful (λ r. r.stream_ms) else none;
      final_statuses = summarize_final_statuses successful;
    }

-- `Promise.all`, up to the choice among several errors: the values, if no promise is rejected.
unfoldable pub all_fulfilled : {A : Type 0} → List (Outcome A) → Outcome (List A)
all_fulfilled [] = done []
all_fulfilled (thrown message ∷ promises) = thrown message
all_fulfilled (done a ∷ promises) = elim (all_fulfilled promises) [
  | thrown message ↦ thrown message
  | done values ↦ done (a ∷ values)
]

-- What the program prints and its exit code. The failures printed are the first twenty.
pub data Ran : Type 0 where
  help_shown : Ran
  reported : Report → List BatchResult → (exit_code : ℕ) → Ran
  error_shown : Text → (exit_code : ℕ) → Ran

unfoldable pub finish_run : Options → List LoadUser → Double → Outcome (List BatchResult) → Ran
unfolding make_report
finish_run o users total_duration_ms (thrown message) = error_shown message 1
finish_run o users total_duration_ms (done results) =
    let failures = keep has_failed results in
    reported (make_report o users results total_duration_ms) (take 20 failures)
      (if ltb 0 (length failures) then 1 else 0)

-- `run` starts the task of a user: its promise comes to a result or an error.
abbrev pub with_users :
    Options → (List LoadUser → Task → Outcome BatchResult) → Double → Outcome (List LoadUser) → Ran
unfolding finish_run all_tasks all_fulfilled
with_users o run total_duration_ms (thrown message) = error_shown message 1
with_users o run total_duration_ms (done users) =
    finish_run o users total_duration_ms
      (all_fulfilled (map (run users) (all_tasks o (length users))))

-- `Array.from({ length: left })`, from an index on.
abbrev pub indices : (left index : ℕ) → List ℕ
indices zero index = []
indices (suc left) index = index ∷ indices left (index + 1)

abbrev pub with_options :
    (Options → ℕ → Outcome LoadUser)
    → (Options → List LoadUser → Task → Outcome BatchResult)
    → Double
    → Outcome Options
    → Ran
unfolding with_users
with_options register run total_duration_ms (thrown message) = error_shown message 1
with_options register run total_duration_ms (done o) =
    if o.help
    then help_shown
    else with_users o (run o) total_duration_ms
        (all_fulfilled (map (register o) (indices o.users 0)))

-- `main` and its `catch`. `register` is what `registerUser` comes to for each index.
unfoldable pub run_main :
    List Text
    → (Options → ℕ → Outcome LoadUser)
    → (Options → List LoadUser → Task → Outcome BatchResult)
    → Double
    → Ran
unfolding with_options parse_args
run_main argv register run total_duration_ms =
    with_options register run total_duration_ms (parse_args argv)
