-- ===== src/LoadTest/Scenario/Laws.antt =====
-- run.mjs: what a result of a scenario says.
use flash_pay.Prelude.{
  ℕ, Text, ◌≡◌, ◌⊎◌, inl, inr, refl, Bool, true, false, not, Bool-cases, Option, Option-cases, none,
  some, ◌==◌, if◌then◌else◌, arith,
}
use mathlib.Core.Path.{subst}
use flash_pay.Prelude.Json.{Json}
use flash_pay.LoadTest.Outcome.{Outcome, done, thrown}
use flash_pay.LoadTest.Api.{Payload, Upload, upload_batch, LoadDetail, counts_of}
use flash_pay.LoadTest.Watch.{
  StreamResult, Awaited, settled, unanswered, wait_for_batch_done_stream,
}
use flash_pay.LoadTest.Poll.{FinalState, or_zero, wait_for_batch_final_state}
use flash_pay.LoadTest.Scenario.{
  valid, invalid, BatchResult, count_sum, is_total, check_detail, assert_expected_final_state,
  Scenario, invalid_result, failed_result, batch_id_of, caught_result, final_result, polled,
  streamed, watch_batch, with_batch_id, uploaded, run_batch_scenario,
}

-- Nothing is left to do, and the counts add up to the total.
pub record IsFinal (d : LoadDetail) : Type 0 where
  pub none_pending : or_zero (counts_of d).pending ≡ 0
  pub none_processing : or_zero (counts_of d).processing ≡ 0
  pub total : d.total_payments ≡ some (count_sum (counts_of d))

-- What a success is: of an invalid file, the status 422; of a valid one, a detail that is final.
pub data IsSuccess (r : BatchResult) : Type 0 where
  was_refused : r.kind ≡ invalid → r.upload_status ≡ 422 → IsSuccess r
  was_processed :
      (d : LoadDetail) → r.kind ≡ valid → r.final_detail ≡ some d → IsFinal d → IsSuccess r

-- A result is a success without a reason for a failure, or a failure with one.
abbrev pub IsJudged : BatchResult → Type 0
IsJudged r =
    ((r.ok ≡ true) × (r.failure_reason ≡ none) × IsSuccess r)
    ⊎ ((r.ok ≡ false) × ((reason : Text) × (r.failure_reason ≡ some reason)))

is_total_eq : (sum : ℕ) (t : Option ℕ) → is_total sum t ≡ true → t ≡ some sum
is_total_eq sum none h = cc
is_total_eq sum (some n) h = ground arith

check_detail-IsFinal : (d : LoadDetail) → check_detail d ≡ none → IsFinal d
unfolding check_detail
check_detail-IsFinal d h = ground (arith, is_total_eq (count_sum (counts_of d)) d.total_payments)

final_result-IsJudged :
    (s : Scenario) (upload : Upload) (batch_id : Text) (stream : Option StreamResult)
    (f : FinalState)
    → IsJudged (final_result s upload batch_id stream f)
unfolding final_result assert_expected_final_state
final_result-IsJudged s upload batch_id stream f = elim (Option-cases (check_detail f.detail)) [
  | inl fine ↦
      rw (fine, final_result)
        (inl (refl, refl, was_processed f.detail refl refl (check_detail-IsFinal f.detail fine)))
  | inr (reason, bad) ↦ rw (bad, final_result) (inr (refl, (reason, refl)))
]

-- The result of a scenario that has one.
abbrev pub Judged : Awaited BatchResult → Type 0
Judged (settled (done r)) = IsJudged r
Judged _ = Unit

Judged-polled :
    (s : Scenario) (upload : Upload) (batch_id : Text) (stream : Option StreamResult)
    (poll : Awaited FinalState)
    → Judged (polled s upload batch_id stream poll)
unfolding polled caught_result
Judged-polled s upload batch_id stream unanswered = tt
Judged-polled s upload batch_id stream (settled (thrown message)) = inr (refl, (message, refl))
Judged-polled s upload batch_id stream (settled (done f)) =
    final_result-IsJudged s upload batch_id stream f

Judged-streamed :
    (s : Scenario) (upload : Upload) (batch_id : Text) (poll : Awaited FinalState)
    (stream : Awaited StreamResult)
    → Judged (streamed s upload batch_id poll stream)
unfolding streamed caught_result
Judged-streamed s upload batch_id poll unanswered = tt
Judged-streamed s upload batch_id poll (settled (thrown message)) = inr (refl, (message, refl))
Judged-streamed s upload batch_id poll (settled (done r)) =
    Judged-polled s upload batch_id (some r) poll

Judged-if :
    (b : Bool) (s t : Awaited BatchResult) → Judged s → Judged t → Judged (if b then s else t)
Judged-if true s t h k = h
Judged-if false s t h k = k

invalid_result-IsJudged : (s : Scenario) (upload : Upload) → IsJudged (invalid_result s upload)
unfolding invalid_result
invalid_result-IsJudged s upload = elim (Bool-cases (upload.status == 422)) [
  | inl expected ↦ rw expected (inl (refl, refl, was_refused refl (ground arith)))
  | inr other ↦ rw other (inr (refl, (_, refl)))
]

module _ (decode_upload : Text → Option (Option (Option Text)))
    (decode_detail : Text → Option (Option LoadDetail)) (stringify : Payload LoadDetail → Text)
    (decode_event : Text → Outcome Json) where
  Judged-with_batch_id :
      (s : Scenario) (upload : Upload) (id : Option Text)
      → Judged (with_batch_id decode_upload decode_detail stringify decode_event s upload id)
  unfolding with_batch_id failed_result watch_batch
  Judged-with_batch_id s upload none = inr (refl, (_, refl))
  Judged-with_batch_id s upload (some batch_id) =
      let poll =
        wait_for_batch_final_state decode_detail stringify batch_id s.timeout_ms s.rounds in
      Judged-if s.open_stream _ _
        (Judged-streamed s upload batch_id poll (
          wait_for_batch_done_stream decode_event batch_id s.stream_reply s.stream_has_body
            s.stream_aborted s.reads))
        (Judged-polled s upload batch_id none poll)

  Judged-uploaded :
      (s : Scenario) (m : Outcome Upload)
      → Judged (uploaded decode_upload decode_detail stringify decode_event s m)
  unfolding uploaded failed_result
  Judged-uploaded s (thrown message) = tt
  Judged-uploaded s (done upload) = Judged-if s.is_invalid _ _ (invalid_result-IsJudged s upload) (
      Judged-if (not upload.ok) _ _ (inr (refl, (_, refl)))
        (Judged-with_batch_id s upload (batch_id_of upload.payload)))

  -- Whatever the server replies, a result of a scenario is a failure with its reason, or a success
  -- without one. A success is an invalid file that was refused with the status 422, or a valid one
  -- whose final detail has no pending or processing payment and counts that add up to its total.
  pub run_batch_scenario-IsJudged :
      (s : Scenario) {r : BatchResult}
      → run_batch_scenario decode_upload decode_detail stringify decode_event s ≡ settled (done r)
      → IsJudged r
  unfolding run_batch_scenario
  run_batch_scenario-IsJudged s h =
      subst Judged h (Judged-uploaded s (upload_batch decode_upload s.upload_reply s.upload_ms))
