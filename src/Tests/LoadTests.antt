-- ===== src/Tests/LoadTests.antt =====
-- The theorems on the load test at concrete inputs.
use flash_pay.Prelude.{
  ℕ, ◌+◌, Text, text, ◌≡◌, refl, Bool, true, false, Option, none, some, List, [], ◌∷◌, ◌++◌, keep,
  if◌then◌else◌, text_eq, trim, trim_start, trim_end, is_space, arith, decimal,
}
use flash_pay.Prelude.Json.{Json, Fields, object, string, end, field, property}
use flash_pay.Prelude.Double.{Double}
use flash_pay.Batch.{BatchStreamEvent, payment_updated, batch_done, event_type}
use flash_pay.LoadTest.Outcome.{Outcome, done, thrown}
use flash_pay.LoadTest.Args.{Options, defaults, parse_args, nearest, digits_value}
use flash_pay.LoadTest.Args.Laws.{
  Setting, users, batches_per_user, no_stream, invalid_every, command_line, apply_settings,
  parse_args-command_line,
}
use flash_pay.LoadTest.Rows.{create_csv}
use flash_pay.LoadTest.Rows.Reader.{header_values, all_values, read_file, read_file-create_csv}
use flash_pay.LoadTest.Api.{Payload, LoadDetail, LoadUser}
use flash_pay.LoadTest.Watch.{Awaited, settled, read_stream}
use flash_pay.LoadTest.Watch.Chunked.{sse_reads, without_time}
use flash_pay.LoadTest.Watch.Printed.{IsSent, read_stream-print_events}
use flash_pay.LoadTest.Poll.{PollRound, FinalState, wait_for_batch_final_state}
use flash_pay.LoadTest.Poll.Laws.{EndsWith, wait-EndsWith}
use flash_pay.LoadTest.Durations.{Summary, rounded, finite_values, le_double, summarize_durations}
use flash_pay.LoadTest.Durations.Laws.{IsSummary, summarize_durations-IsSummary}
use flash_pay.LoadTest.Scenario.{BatchResult, Scenario, invalid, run_batch_scenario}
use flash_pay.LoadTest.Scenario.Laws.{IsJudged, run_batch_scenario-IsJudged}
use flash_pay.LoadTest.Report.{Task, reported, make_report, run_main, is_valid}
use flash_pay.LoadTest.Report.Laws.{
  IsReported, sum_totals, final_statuses-settled, run_main-IsReported,
}
use flash_pay.Tests.Samples.{first_paid, all_done}

abbrev settings : List Setting
settings = users 2 ∷ no_stream ∷ invalid_every 3 ∷ []

parse_args-command_line_example :
    parse_args (command_line settings) ≡ done (apply_settings defaults settings)
parse_args-command_line_example =
    parse_args-command_line settings ((omega arith, omega arith), (tt, (omega arith, tt)))

abbrev stamp : ℕ → Text
stamp index = text "17,\"a\"\n"

read_file-create_csv_example :
    read_file 2 (create_csv stamp 2 false) ≡ some (header_values ∷ all_values stamp 2 0)
read_file-create_csv_example = read_file-create_csv stamp 2

abbrev encode : BatchStreamEvent → Text
encode (payment_updated e) = text "p"
encode (batch_done e) = text "d"

abbrev fields : BatchStreamEvent → Fields
fields e = field (text "type") (string (event_type e)) end

abbrev decode_event : Text → Outcome Json
decode_event t =
    if text_eq t (text "p")
    then done (object (fields (payment_updated first_paid)))
    else if text_eq t (text "d")
    then done (object (fields (batch_done all_done)))
    else thrown (text "no JSON")

abbrev before : List BatchStreamEvent
before = payment_updated first_paid ∷ []

abbrev at : ℕ → Double
at ms = record { significand = ms; shift = 0 }

abbrev chunks : List (Double × Text)
chunks =
    (at 10, text "event: payment_updated\nda")
    ∷ (at 20, text "ta: p\n\nevent: batch_done\ndata: d\n\n")
    ∷ []

update-IsSent : IsSent decode_event encode fields (payment_updated first_paid)
unfolding trim_start trim_end is_space text_eq property
update-IsSent = (
  record { one_line = ((refl, refl), tt); nonempty = refl; start = refl; finish = refl },
  refl,
  refl,
)

end-IsSent : IsSent decode_event encode fields (batch_done all_done)
unfolding trim_start trim_end is_space text_eq property
end-IsSent = (
  record { one_line = ((refl, refl), tt); nonempty = refl; start = refl; finish = refl },
  refl,
  refl,
)

read_stream-print_events_example :
    without_time (read_stream decode_event (text "a") [] 0 (sse_reads (at 30) chunks))
    ≡ settled (done (1, object (fields (batch_done all_done))))
read_stream-print_events_example =
    read_stream-print_events decode_event encode fields (text "a") (at 30) chunks before []
      (batch_done all_done) refl refl (update-IsSent, (end-IsSent, tt)) refl

abbrev some_detail : LoadDetail
some_detail = record {
  status_count =
      some (record { pending = none; processing = some 0; success = some 2; failed = some 1 });
  total_payments = some 3;
}

abbrev stringify : Payload LoadDetail → Text
stringify p = text "x"

abbrev busy_detail : LoadDetail
busy_detail = record some_detail {
  status_count =
      some (record { pending = some 1; processing = none; success = none; failed = none });
}

abbrev decode_detail : Text → Option (Option LoadDetail)
decode_detail t =
    if text_eq t (text "done")
    then some (some some_detail)
    else if text_eq t (text "busy")
    then some (some busy_detail)
    else some none

abbrev round_at : ℕ → Text → PollRound
round_at t body = record {
  before = at t;
  reply = done (record { status = 200; body = body });
  after = at (t + 4);
}

abbrev rounds : List PollRound
rounds =
    round_at 0 (text "done")
    ∷ record { before = at 900; reply = thrown (text "fetch failed"); after = at 901 }
    ∷ []

wait-EndsWith_example :
    (o : Outcome FinalState) × (wait_for_batch_final_state decode_detail stringify (text "a") 800 (
        (round_at 0 (text "busy") ∷ round_at 504 (text "done") ∷ [])
        ++ round_at 900 (text "busy") ∷ [])
      ≡ settled o)
    × EndsWith decode_detail stringify
        (text "a")
        800
        ((round_at 0 (text "busy") ∷ round_at 504 (text "done") ∷ [])
          ++ round_at 900 (text "busy") ∷ [])
        o
wait-EndsWith_example =
    wait-EndsWith decode_detail stringify (text "a") 800
      (round_at 0 (text "busy") ∷ round_at 504 (text "done") ∷ []) (round_at 900 (text "busy")) []
      (omega arith)

abbrev times : List Double
times = at 30 ∷ at 10 ∷ at 20 ∷ []

abbrev shown : Summary Double
unfolding summarize_durations
shown = elim (summarize_durations times some) [
  | some s ↦ s
  | none ↦ record { min = at 0; p50 = at 0; p95 = at 0; max = at 0 }
]

times-shown : summarize_durations times some ≡ some shown
unfolding summarize_durations shown
times-shown = refl

summarize_durations-IsSummary_example :
    (s : Summary Double) × (rounded (some s) ≡ some shown)
    × IsSummary le_double (finite_values some times) s
summarize_durations-IsSummary_example = summarize_durations-IsSummary times some times-shown

abbrev decode_upload : Text → Option (Option (Option Text))
decode_upload t = some (some (some t))

abbrev scenario_of : Bool → ℕ → Text → Scenario
scenario_of is_invalid status body = record {
  timeout_ms = 500;
  open_stream = false;
  is_invalid = is_invalid;
  batch_ordinal = 1;
  user_index = 0;
  upload_reply = done (record { status = status; body = body });
  upload_ms = at 7;
  stream_reply = thrown (text "unused");
  stream_has_body = false;
  stream_aborted = false;
  reads = [];
  rounds = rounds;
  processing_ms = at 8;
  end_to_end_ms = at 9;
}

abbrev run_scenario : Scenario → Awaited BatchResult
run_scenario = run_batch_scenario decode_upload decode_detail stringify decode_event

abbrev result_of : Scenario → BatchResult
unfolding run_batch_scenario
result_of s = elim (run_scenario s) [ settled (done r) ↦ r | _ ↦ empty_result ]
  where
    empty_result : BatchResult
    empty_result = record {
      kind = invalid;
      ok = false;
      batch_id = none;
      batch_ordinal = 0;
      user_index = 0;
      upload_status = 0;
      upload_ms = none;
      stream_ms = none;
      stream_payment_updated_count = 0;
      final_state_ms = none;
      processing_ms = none;
      end_to_end_ms = none;
      final_detail = none;
      failure_reason = none;
    }

abbrev good : Scenario
good = scenario_of false 202 (text "b1")

good_runs : run_scenario good ≡ settled (done (result_of good))
unfolding run_batch_scenario result_of trim trim_start trim_end is_space text_eq
good_runs = refl

run_batch_scenario-IsJudged_example : IsJudged (result_of good)
run_batch_scenario-IsJudged_example =
    run_batch_scenario-IsJudged decode_upload decode_detail stringify decode_event good good_runs

good_processed : ((result_of good).ok ≡ true) × ((result_of good).final_detail ≡ some some_detail)
unfolding run_batch_scenario result_of trim trim_start trim_end is_space text_eq
good_processed = (refl, refl)

abbrev options : Options
options = record defaults { users = 2; batches_per_user = 3; invalid_every = 4 }

abbrev results : List BatchResult
results = result_of good ∷ []

final_statuses-settled_example :
    let statuses = (make_report options [] results (at 100)).final_statuses in
    (statuses.pending ≡ 0)
    × (statuses.processing ≡ 0)
    × (statuses.success + statuses.failed ≡ sum_totals (keep (λ r. r.ok) (keep is_valid results)))
final_statuses-settled_example = final_statuses-settled options [] results (at 100) (
  run_batch_scenario-IsJudged decode_upload decode_detail stringify decode_event good good_runs,
  tt,
)

abbrev register : Options → ℕ → Outcome LoadUser
register o index = done (record { email = decimal index; token = none; user_id = none })

abbrev run_task : Options → List LoadUser → Task → Outcome BatchResult
run_task o registered task = done (result_of good)

abbrev one_batch : List Text
one_batch = command_line (users 1 ∷ batches_per_user 1 ∷ [])

abbrev registered_user : LoadUser
registered_user = record { email = text "0"; token = none; user_id = none }

abbrev one_options : Options
one_options = record defaults { users = 1; batches_per_user = 1 }

one_batch_reported :
    run_main one_batch register run_task (at 100)
    ≡ reported (make_report one_options (registered_user ∷ []) results (at 100)) [] 0
unfolding run_main result_of decimal run_batch_scenario text_eq trim_start is_space nearest
    digits_value
one_batch_reported = refl

run_main-IsReported_example :
    (o : Options) × (parse_args one_batch ≡ done o)
    × IsReported o (make_report one_options (registered_user ∷ []) results (at 100)) 0
run_main-IsReported_example =
    run_main-IsReported one_batch register run_task (at 100) one_batch_reported
