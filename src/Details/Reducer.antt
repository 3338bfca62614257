-- ===== src/Details/Reducer.antt =====
-- The reducers of batchDetailsSlice.ts, one action for each, and the slice's selectors.
use flash_pay.Prelude.{
  ℕ, Text, Option, none, some, List, [], ◌∷◌, ltb, if◌then◌else◌, ◌or_else◌, find, text_eq, lookup,
}
use flash_pay.Batch.{
  same_status, BatchPayment, BatchDetail, BatchPaymentUpdatedEvent, BatchStreamEvent,
  payment_updated, batch_done, event_batch_id, event_sent_at,
}
use flash_pay.Details.{
  connecting, connected, reconnecting, disconnected, completed, error, BatchProgressState,
  BatchStreamState, BatchRuntimeState, BatchDetailsState, create_initial_progress_state,
  create_initial_stream_state, is_terminal_status, calculate_completed_payments, calculate_progress,
  with_batch_runtime_state, decrement_status_count, increment_status_count, apply_hydrated_detail,
  apply_batch_done_state,
}

pub data Action : Type 0 where
  batch_detail_hydrated : BatchDetail → Action
  initialize_batch_runtime : Text → Action
  stream_connecting : Text → Option ℕ → Action
  stream_connected : Text → Action
  stream_reconnect_scheduled : Text → ℕ → Text → Action
  stream_failed : Text → Text → Action
  stream_disconnected : Text → Action
  stream_event_received : BatchStreamEvent → Action
  get_batch_by_id_fulfilled : BatchDetail → Action

-- The batch whose runtime state an action touches.
abbrev pub action_batch_id : Action → Text
action_batch_id (batch_detail_hydrated detail) = detail.id
action_batch_id (initialize_batch_runtime batch_id) = batch_id
action_batch_id (stream_connecting batch_id _) = batch_id
action_batch_id (stream_connected batch_id) = batch_id
action_batch_id (stream_reconnect_scheduled batch_id _ _) = batch_id
action_batch_id (stream_failed batch_id _) = batch_id
action_batch_id (stream_disconnected batch_id) = batch_id
action_batch_id (stream_event_received event) = event_batch_id event
action_batch_id (get_batch_by_id_fulfilled detail) = detail.id

-- The writes to the payment that the event names.
unfoldable pub update_payment : BatchPaymentUpdatedEvent → BatchPayment → BatchPayment
unfolding is_terminal_status
update_payment event payment = record payment {
  status = event.status;
  error_message = event.error_message;
  processed_at =
      if is_terminal_status event.status
      then some (payment.processed_at or_else event.sent_at)
      else none;
}

-- The list after a write through the reference that `find` returned.
unfoldable pub replace_payment :
    Text → (BatchPayment → BatchPayment) → List BatchPayment → List BatchPayment
replace_payment id f [] = []
replace_payment id f (p ∷ ps) = if text_eq p.id id then f p ∷ ps else p ∷ replace_payment id f ps

abbrev pub find_payment : Text → List BatchPayment → Option BatchPayment
find_payment id = find λ p. text_eq p.id id

-- The detail after an event about a payment that it holds.
unfoldable pub update_detail : BatchPaymentUpdatedEvent → BatchPayment → BatchDetail → BatchDetail
unfolding update_payment replace_payment decrement_status_count increment_status_count
update_detail event payment detail = record detail {
  summary = record detail.summary {
    status_count =
        if same_status payment.status event.status
        then detail.status_count
        else increment_status_count (decrement_status_count detail.status_count payment.status)
            event.status;
  };
  payments = replace_payment event.payment_id (update_payment event) detail.payments;
}

-- The part of `streamEventReceived` below the test of the event's type, by what it finds: the
-- payment in the detail, then the detail.
unfoldable pub apply_to_payment :
    BatchPaymentUpdatedEvent
    → BatchRuntimeState
    → BatchDetail
    → Option BatchPayment
    → BatchRuntimeState
unfolding update_detail calculate_progress calculate_completed_payments
apply_to_payment event b detail none = b
apply_to_payment event b detail (some payment) =
    let next = update_detail event payment detail in
    record b {
      detail = some next;
      progress = calculate_progress next.total_payments (calculate_completed_payments next);
    }

unfoldable pub apply_to_detail :
    BatchPaymentUpdatedEvent → BatchRuntimeState → Option BatchDetail → BatchRuntimeState
unfolding apply_to_payment
apply_to_detail event b none = b
apply_to_detail event b (some detail) =
    apply_to_payment event b detail (find_payment event.payment_id detail.payments)

unfoldable pub apply_payment_updated :
    BatchPaymentUpdatedEvent → BatchRuntimeState → BatchRuntimeState
unfolding apply_to_detail
apply_payment_updated event b = apply_to_detail event b b.detail

-- The writes to the stream that every event makes first.
unfoldable pub note_event : BatchStreamEvent → BatchRuntimeState → BatchRuntimeState
note_event event b = record b {
  stream = record b.stream { last_event_at = some (event_sent_at event); last_error = none };
}

unfoldable pub apply_event : BatchStreamEvent → BatchRuntimeState → BatchRuntimeState
unfolding note_event apply_batch_done_state apply_payment_updated
apply_event (batch_done event) b = apply_batch_done_state event (note_event (batch_done event) b)
apply_event (payment_updated event) b =
    apply_payment_updated event (note_event (payment_updated event) b)

-- The stream after each of the stream's own actions.
unfoldable pub set_connecting : Option ℕ → BatchStreamState → BatchStreamState
set_connecting retry_count s =
    let n = retry_count or_else 0 in
    record s { status = if ltb 0 n then reconnecting else connecting; retry_count = n }

unfoldable pub set_disconnected : BatchStreamState → BatchStreamState
set_disconnected s = elim s.status [ completed ↦ s | _ ↦ record s { status = disconnected } ]

abbrev pub on_stream : (BatchStreamState → BatchStreamState) → BatchRuntimeState → BatchRuntimeState
on_stream f b = record b { stream = f b.stream }

-- The slice's reducer.
unfoldable pub reduce : BatchDetailsState → Action → BatchDetailsState
unfolding with_batch_runtime_state apply_hydrated_detail apply_event set_connecting set_disconnected
reduce state (batch_detail_hydrated detail) = apply_hydrated_detail state detail
reduce state (initialize_batch_runtime batch_id) = with_batch_runtime_state state batch_id λ b. b
reduce state (stream_connecting batch_id retry_count) =
    with_batch_runtime_state state batch_id (on_stream (set_connecting retry_count))
reduce state (stream_connected batch_id) =
    with_batch_runtime_state state batch_id
      (on_stream λ s. record s { status = connected; retry_count = 0; last_error = none })
reduce state (stream_reconnect_scheduled batch_id retry_count message) =
    with_batch_runtime_state state batch_id (
      on_stream λ s. record s {
        status = reconnecting;
        retry_count = retry_count;
        last_error = some message;
      })
reduce state (stream_failed batch_id message) =
    with_batch_runtime_state state batch_id
      (on_stream λ s. record s { status = error; last_error = some message })
reduce state (stream_disconnected batch_id) =
    with_batch_runtime_state state batch_id (on_stream set_disconnected)
reduce state (stream_event_received event) =
    with_batch_runtime_state state (event_batch_id event) (apply_event event)
reduce state (get_batch_by_id_fulfilled detail) = apply_hydrated_detail state detail

unfoldable pub reduce_all : BatchDetailsState → List Action → BatchDetailsState
unfolding reduce
reduce_all state [] = state
reduce_all state (a ∷ rest) = reduce_all (reduce state a) rest

unfoldable pub select_batch_runtime_state : BatchDetailsState → Text → Option BatchRuntimeState
select_batch_runtime_state state batch_id = lookup batch_id state.by_id

unfoldable pub select_batch_detail : BatchDetailsState → Text → Option BatchDetail
unfolding select_batch_runtime_state
select_batch_detail state batch_id = elim (select_batch_runtime_state state batch_id) [
  | none ↦ none
  | some b ↦ b.detail
]

unfoldable pub select_batch_progress : BatchDetailsState → Text → BatchProgressState
unfolding select_batch_runtime_state
select_batch_progress state batch_id = elim (select_batch_runtime_state state batch_id) [
  | none ↦ create_initial_progress_state
  | some b ↦ b.progress
]

unfoldable pub select_batch_stream_state : BatchDetailsState → Text → BatchStreamState
unfolding select_batch_runtime_state
select_batch_stream_state state batch_id = elim (select_batch_runtime_state state batch_id) [
  | none ↦ create_initial_stream_state
  | some b ↦ b.stream
]
