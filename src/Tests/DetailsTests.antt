-- ===== src/Tests/DetailsTests.antt =====
-- The theorems on the batch details at concrete inputs.
use flash_pay.Prelude.{
  ◌+◌, ◌*◌, ◌<◌, text, ◌≡◌, ◌≢◌, refl, some, List, [], ◌∷◌, text_eq, lookup, insert, arith,
}
use flash_pay.Prelude.Double.{divide, multiply, round}
use flash_pay.Batch.{
  BatchPaymentStatus, pending, processing, success, failed, payment_updated, batch_done,
}
use flash_pay.Details.{BatchDetailsState, initial_state, batch_runtime_state, percent_of, get_count}
use flash_pay.Details.Ledger.{any_ledger, ledger_run, Shows, reduce_all-Shows}
use flash_pay.Details.Reducer.{
  Action, batch_detail_hydrated, stream_connected, stream_disconnected, stream_event_received,
  find_payment, reduce, reduce_all, select_batch_runtime_state,
}
use flash_pay.Details.Counts.{IsCounted, count_status}
use flash_pay.Details.Consistency.{IsSound, AllFit, reduce_all-IsSound}
use flash_pay.Details.Events.{reduce-event_idem}
use flash_pay.Details.Isolation.{reduce_all-isolated}
use flash_pay.Details.Precision.{percent_of-near}
use flash_pay.Tests.Samples.{batch_id, first_payment, detail, first_paid, second_failed, all_done}

detail-counts :
    (s : BatchPaymentStatus) → get_count detail.status_count s ≡ count_status s detail.payments
unfolding get_count
detail-counts pending = refl
detail-counts processing = refl
detail-counts success = refl
detail-counts failed = refl

detail-IsCounted : IsCounted detail
detail-IsCounted = record { at = detail-counts }

first_found : find_payment (text "1") detail.payments ≡ some first_payment
unfolding text_eq
first_found = refl

-- A snapshot, an event for each payment, and the end.
abbrev messages : List Action
messages =
    batch_detail_hydrated detail
    ∷ stream_event_received (payment_updated first_paid)
    ∷ stream_event_received (payment_updated second_failed)
    ∷ stream_event_received (batch_done all_done)
    ∷ []

messages-AllFit : AllFit batch_id initial_state messages
unfolding reduce batch_runtime_state lookup insert text_eq get_count
messages-AllFit = (λ _. detail-IsCounted, (λ _. tt, (λ _. tt, (λ _. (refl, refl, refl, refl), tt))))

nothing-IsSound : IsSound (batch_runtime_state initial_state batch_id)
unfolding batch_runtime_state lookup
nothing-IsSound = tt

reduce_all-IsSound_example :
    IsSound (batch_runtime_state (reduce_all initial_state messages) batch_id)
reduce_all-IsSound_example =
    reduce_all-IsSound batch_id initial_state messages messages-AllFit nothing-IsSound

reduce_all-Shows_example :
    Shows (batch_runtime_state (reduce_all initial_state messages) batch_id) (
      ledger_run batch_id (any_ledger (batch_runtime_state initial_state batch_id).detail) messages)
reduce_all-Shows_example =
    reduce_all-Shows batch_id initial_state messages messages-AllFit nothing-IsSound

abbrev loaded : BatchDetailsState
loaded = reduce initial_state (batch_detail_hydrated detail)

reduce-event_idem_example :
    reduce
      (reduce loaded (stream_event_received (payment_updated first_paid)))
      (stream_event_received (payment_updated first_paid))
    ≡ reduce loaded (stream_event_received (payment_updated first_paid))
reduce-event_idem_example = reduce-event_idem loaded (payment_updated first_paid)

other_id : text "b" ≢ batch_id
other_id h = ground arith

reduce_all-isolated_example :
    select_batch_runtime_state
      (reduce_all loaded (stream_connected (text "b") ∷ stream_disconnected (text "b") ∷ []))
      batch_id
    ≡ select_batch_runtime_state loaded batch_id
reduce_all-isolated_example =
    reduce_all-isolated batch_id loaded
      (stream_connected (text "b") ∷ stream_disconnected (text "b") ∷ []) (other_id, (other_id, tt))

percent_of-near_example :
    (percent_of 200 57 * 200 < 100 * 57 + 200) × (100 * 57 < percent_of 200 57 * 200 + 200)
percent_of-near_example = percent_of-near 200 57 (omega arith) (omega arith) (omega arith)

-- The rounding of the quotient shows: 57 of 200 are 28.5 percent, which is shown as 28.
float_rounding : percent_of 200 57 ≡ 28
unfolding percent_of round multiply divide
float_rounding = refl
