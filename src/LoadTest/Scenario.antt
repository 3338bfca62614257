-- ===== src/LoadTest/Scenario.antt =====
-- run.mjs: `runBatchScenario` and `assertExpectedFinalState`.
pub mod Laws
use flash_pay.Prelude.{
  ℕ, suc, ◌+◌, Text, text, Bool, true, false, ◌||◌, not, Option, none, some, List, [], ◌∷◌, ◌++◌,
  ◌==◌, if◌then◌else◌, is_nonempty, decimal,
}
use flash_pay.Prelude.Json.{Json}
use flash_pay.Prelude.Double.{Double}
use flash_pay.LoadTest.Outcome.{Outcome, done, thrown}
use flash_pay.LoadTest.Api.{
  HttpReply, Payload, null, value, raw, Upload, upload_batch, LoadCounts, LoadDetail, counts_of,
}
use flash_pay.LoadTest.Watch.{
  SseRead, StreamResult, Awaited, settled, unanswered, wait_for_batch_done_stream,
}
use flash_pay.LoadTest.Poll.{PollRound, FinalState, or_zero, wait_for_batch_final_state}

pub data Kind : Type 0 where
  valid : Kind
  invalid : Kind

-- A field that a branch of the code leaves out is `none`, as `null` is. The fields `expected` and
-- `payload`, which nothing reads, are left out.
pub record BatchResult : Type 0 where
  pub kind : Kind
  pub ok : Bool
  pub batch_id : Option Text
  pub batch_ordinal : ℕ
  pub user_index : ℕ
  pub upload_status : ℕ
  pub upload_ms : Option Double
  pub stream_ms : Option Double
  pub stream_payment_updated_count : ℕ
  pub final_state_ms : Option Double
  pub processing_ms : Option Double
  pub end_to_end_ms : Option Double
  pub final_detail : Option LoadDetail
  pub failure_reason : Option Text

abbrev pub count_sum : LoadCounts → ℕ
count_sum c = or_zero c.pending + or_zero c.processing + or_zero c.success + or_zero c.failed

-- A number in a template, where it may be absent.
abbrev pub number_text : Option ℕ → Text
number_text none = text "undefined"
number_text (some n) = decimal n

abbrev pub is_total : ℕ → Option ℕ → Bool
is_total sum none = false
is_total sum (some n) = sum == n

unfoldable pub check_detail : LoadDetail → Option Text
check_detail d =
    let counts = counts_of d in
    let total = count_sum counts in
    if not (is_total total d.total_payments)
    then some (
        text "status_count sum "
        ++ (decimal total ++ (text " != total_payments " ++ number_text d.total_payments)))
    else if not (or_zero counts.pending == 0) || not (or_zero counts.processing == 0)
    then some (text "batch finished with pending or processing payments")
    else none

unfoldable pub assert_expected_final_state : BatchResult → Option Text
unfolding check_detail
assert_expected_final_state result = elim result.final_detail [
  | none ↦ some (text "missing final detail")
  | some d ↦ check_detail d
]

-- What a scenario is given, and the answers of its environment: its times are since its start or
-- since the upload was accepted.
pub record Scenario : Type 0 where
  pub timeout_ms : ℕ
  pub open_stream : Bool
  pub is_invalid : Bool
  pub batch_ordinal : ℕ
  pub user_index : ℕ
  pub upload_reply : Outcome HttpReply
  pub upload_ms : Double
  pub stream_reply : Outcome HttpReply
  pub stream_has_body : Bool
  pub stream_aborted : Bool
  pub reads : List SseRead
  pub rounds : List PollRound
  pub processing_ms : Double
  pub end_to_end_ms : Double

-- The fields that all results have in common.
abbrev pub base_result : Scenario → Kind → Upload → BatchResult
base_result s kind upload = record {
  kind = kind;
  ok = false;
  batch_id = none;
  batch_ordinal = s.batch_ordinal;
  user_index = s.user_index;
  upload_status = upload.status;
  upload_ms = some upload.upload_ms;
  stream_ms = none;
  stream_payment_updated_count = 0;
  final_state_ms = none;
  processing_ms = none;
  end_to_end_ms = some s.end_to_end_ms;
  final_detail = none;
  failure_reason = none;
}

abbrev pub got_status : Upload → Text
got_status upload = text "expected 422, got " ++ decimal upload.status

unfoldable pub invalid_result : Scenario → Upload → BatchResult
unfolding decimal
invalid_result s upload =
    let expected = upload.status == 422 in
    record (base_result s invalid upload) {
      ok = expected;
      failure_reason = if expected then none else some (got_status upload);
    }

unfoldable pub failed_result : Scenario → Upload → Text → BatchResult
failed_result s upload reason = record (base_result s valid upload) { failure_reason = some reason }

-- `upload.payload?.batch_id` where that is a text which is not empty.
abbrev pub batch_id_of : Payload (Option Text) → Option Text
batch_id_of (value (some (c ∷ id))) = some (c ∷ id)
batch_id_of _ = none

abbrev pub stream_time : Option StreamResult → Option Double
stream_time none = none
stream_time (some r) = some r.duration_ms

abbrev pub stream_count : Option StreamResult → ℕ
stream_count none = 0
stream_count (some r) = r.payment_updated_count

-- The `catch` of the scenario.
unfoldable pub caught_result : Scenario → Upload → Text → Option StreamResult → Text → BatchResult
caught_result s upload batch_id stream message = record (base_result s valid upload) {
  batch_id = some batch_id;
  stream_ms = stream_time stream;
  processing_ms = some s.processing_ms;
  failure_reason = some message;
}

abbrev pub judged : BatchResult → Option Text → BatchResult
judged result none = result
judged result (some reason) = record result { ok = false; failure_reason = some reason }

unfoldable pub final_result :
    Scenario → Upload → Text → Option StreamResult → FinalState → BatchResult
unfolding assert_expected_final_state
final_result s upload batch_id stream final =
    let result = record (base_result s valid upload) {
      ok = true;
      batch_id = some batch_id;
      stream_ms = stream_time stream;
      stream_payment_updated_count = stream_count stream;
      final_state_ms = some final.duration_ms;
      processing_ms = some s.processing_ms;
      final_detail = some final.detail;
    } in
    judged result (assert_expected_final_state result)

abbrev pub polled :
    Scenario → Upload → Text → Option StreamResult → Awaited FinalState → Awaited BatchResult
unfolding caught_result final_result
polled s upload batch_id stream unanswered = unanswered
polled s upload batch_id stream (settled (thrown message)) =
    settled (done (caught_result s upload batch_id stream message))
polled s upload batch_id stream (settled (done final)) =
    settled (done (final_result s upload batch_id stream final))

-- The polling starts after the stream; `poll` is its result.
abbrev pub streamed :
    Scenario → Upload → Text → Awaited FinalState → Awaited StreamResult → Awaited BatchResult
unfolding polled caught_result
streamed s upload batch_id poll unanswered = unanswered
streamed s upload batch_id poll (settled (thrown message)) =
    settled (done (caught_result s upload batch_id none message))
streamed s upload batch_id poll (settled (done r)) = polled s upload batch_id (some r) poll

-- `decode_upload`, `decode_detail` and `decode_event` are `JSON.parse` with what is read of a value.
module _ (decode_upload : Text → Option (Option (Option Text)))
    (decode_detail : Text → Option (Option LoadDetail)) (stringify : Payload LoadDetail → Text)
    (decode_event : Text → Outcome Json) where
  unfoldable pub watch_batch : Scenario → Upload → Text → Awaited BatchResult
  unfolding wait_for_batch_final_state wait_for_batch_done_stream streamed polled
  watch_batch s upload batch_id =
      let poll =
        wait_for_batch_final_state decode_detail stringify batch_id s.timeout_ms s.rounds in
      if s.open_stream
      then streamed s upload batch_id poll (
          wait_for_batch_done_stream decode_event batch_id s.stream_reply s.stream_has_body
            s.stream_aborted s.reads)
      else polled s upload batch_id none poll

  abbrev pub with_batch_id : Scenario → Upload → Option Text → Awaited BatchResult
  unfolding watch_batch failed_result
  with_batch_id s upload none =
      settled (done (failed_result s upload (text "upload response missing batch_id")))
  with_batch_id s upload (some batch_id) = watch_batch s upload batch_id

  abbrev pub uploaded : Scenario → Outcome Upload → Awaited BatchResult
  unfolding invalid_result failed_result with_batch_id
  uploaded s (thrown message) = settled (thrown message)
  uploaded s (done upload) =
      if s.is_invalid
      then settled (done (invalid_result s upload))
      else if not upload.ok
      then settled
          (done (failed_result s upload (text "upload failed with " ++ decimal upload.status)))
      else with_batch_id s upload (batch_id_of upload.payload)

  -- An error of the upload itself is not caught_error.
  unfoldable pub run_batch_scenario : Scenario → Awaited BatchResult
  unfolding uploaded upload_batch
  run_batch_scenario s = uploaded s (upload_batch decode_upload s.upload_reply s.upload_ms)
