-- ===== src/LoadTest/Poll.antt =====
-- run.mjs: `waitForBatchFinalState`.
pub mod Laws
use flash_pay.Prelude.{
  ℕ, zero, ◌*◌, ◌^◌, Text, text, Bool, true, false, ◌&&◌, Option, none, some, List, [], ◌∷◌, ◌++◌,
  ltb, ◌==◌, if◌then◌else◌,
}
use flash_pay.Prelude.Double.{Double}
use flash_pay.LoadTest.Outcome.{Outcome, done, thrown}
use flash_pay.LoadTest.Api.{
  HttpReply, Payload, LoadCounts, LoadDetail, counts_of, fetch_batch_detail, null_error,
}
use flash_pay.LoadTest.Watch.{Awaited, settled, unanswered}

-- `x ?? 0`
abbrev pub or_zero : Option ℕ → ℕ
or_zero none = 0
or_zero (some n) = n

pub record FinalState : Type 0 where
  pub detail : LoadDetail
  pub duration_ms : Double

-- A round of the loop: the time since the start at its test, what its request comes to, and
-- the time since the start after it.
pub record PollRound : Type 0 where
  pub before : Double
  pub reply : Outcome HttpReply
  pub after : Double

-- `performance.now() - startedAt < timeoutMs`
abbrev pub is_within : Double → ℕ → Bool
is_within t limit = ltb t.significand (limit * 2 ^ t.shift)

-- Nothing is pending and nothing is processed.
abbrev pub is_settled : LoadCounts → Bool
is_settled counts = (or_zero counts.pending == 0) && (or_zero counts.processing == 0)

-- The body of the loop; `rest` are the rounds after the pause of 500 ms.
abbrev pub poll_round :
    PollRound → Awaited FinalState → Outcome (Option LoadDetail) → Awaited FinalState
poll_round r rest (thrown message) = settled (thrown message)
poll_round r rest (done none) = settled (thrown (null_error (text "status_count")))
poll_round r rest (done (some d)) =
    if is_settled (counts_of d)
    then settled (done (record { detail = d; duration_ms = r.after }))
    else rest

module _ (decode : Text → Option (Option LoadDetail)) (stringify : Payload LoadDetail → Text)
    (batch_id : Text) (timeout_ms : ℕ) where
  unfoldable pub wait_for_batch_final_state : List PollRound → Awaited FinalState
  unfolding fetch_batch_detail
  wait_for_batch_final_state [] = unanswered
  wait_for_batch_final_state (r ∷ rounds) =
      let rest = wait_for_batch_final_state rounds in
      if is_within r.before timeout_ms
      then poll_round r rest (fetch_batch_detail decode stringify r.reply)
      else settled (thrown (text "timeout waiting final state for batch " ++ batch_id))
