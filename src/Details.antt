-- ===== src/Details.antt =====
-- apps/frontend/src/features/batches/store/batchDetailsSlice.ts: the Redux slice that holds, for
-- each batch, its detail, its progress and the state of its event stream. A reducer that mutates
-- its draft is a function to the new state. The keys of `byId` are own properties: a batch id that
-- names a property of `Object.prototype` is not considered.
pub mod Reducer
pub mod Isolation
pub mod Counts
pub mod Consistency
pub mod Ledger
pub mod Events
pub mod Progress
pub mod Precision
pub mod Completion
use flash_pay.Prelude.{
  ℕ, ◌+◌, ◌-◌, Text, Option, none, some, Bool, true, false, ◌||◌, not, List, [], ◌∷◌, min, ltb,
  ◌==◌, if◌then◌else◌, ◌or_else◌, find, text_eq, Map, lookup, insert,
}
use flash_pay.Prelude.Double.{divide, multiply, round}
use flash_pay.Batch.{
  BatchPaymentStatus, pending, processing, success, failed, same_status, BatchStatusCount,
  BatchPayment, BatchSummary, BatchDetail, BatchPaymentUpdatedEvent, BatchDoneEvent,
  BatchStreamEvent, payment_updated, batch_done, event_batch_id, event_sent_at,
}

pub data BatchStreamStatus : Type 0 where
  idle connecting connected reconnecting disconnected completed error : BatchStreamStatus

pub record BatchProgressState : Type 0 where
  pub total_payments : ℕ
  pub completed_payments : ℕ
  pub percent_complete : ℕ

pub record BatchStreamState : Type 0 where
  pub status : BatchStreamStatus
  pub retry_count : ℕ
  pub last_event_at : Option Text
  pub last_error : Option Text

pub record BatchRuntimeState : Type 0 where
  pub detail : Option BatchDetail
  pub progress : BatchProgressState
  pub stream : BatchStreamState

pub record BatchDetailsState : Type 0 where
  pub by_id : Map BatchRuntimeState

abbrev pub create_initial_progress_state : BatchProgressState
create_initial_progress_state = record {
  total_payments = 0;
  completed_payments = 0;
  percent_complete = 0;
}

abbrev pub create_initial_stream_state : BatchStreamState
create_initial_stream_state = record {
  status = idle;
  retry_count = 0;
  last_event_at = none;
  last_error = none;
}

abbrev pub create_batch_runtime_state : BatchRuntimeState
create_batch_runtime_state = record {
  detail = none;
  progress = create_initial_progress_state;
  stream = create_initial_stream_state;
}

abbrev pub initial_state : BatchDetailsState
initial_state = record { by_id = [] }

unfoldable pub is_terminal_status : BatchPaymentStatus → Bool
is_terminal_status status = same_status status success || same_status status failed

unfoldable pub calculate_completed_payments : BatchDetail → ℕ
calculate_completed_payments detail = detail.status_count.success + detail.status_count.failed

unfoldable pub percent_of : ℕ → ℕ → ℕ
percent_of total done = if total == 0 then 0 else min 100 (round (multiply (divide done total) 100))

unfoldable pub calculate_progress : ℕ → ℕ → BatchProgressState
calculate_progress total done = record {
  total_payments = total;
  completed_payments = done;
  percent_complete = percent_of total done;
}

-- The runtime state that `ensureBatchRuntimeState` returns.
unfoldable pub batch_runtime_state : BatchDetailsState → Text → BatchRuntimeState
batch_runtime_state state batch_id = lookup batch_id state.by_id or_else create_batch_runtime_state

-- `ensureBatchRuntimeState`, then the writes `f` to what it returned.
unfoldable pub with_batch_runtime_state :
    BatchDetailsState → Text → (BatchRuntimeState → BatchRuntimeState) → BatchDetailsState
unfolding batch_runtime_state
with_batch_runtime_state state batch_id f = record {
  by_id = insert batch_id (f (batch_runtime_state state batch_id)) state.by_id;
}

unfoldable pub get_count : BatchStatusCount → BatchPaymentStatus → ℕ
get_count c pending = c.pending
get_count c processing = c.processing
get_count c success = c.success
get_count c failed = c.failed

unfoldable pub set_count : BatchStatusCount → BatchPaymentStatus → ℕ → BatchStatusCount
set_count c pending n = record c { pending = n }
set_count c processing n = record c { processing = n }
set_count c success n = record c { success = n }
set_count c failed n = record c { failed = n }

-- `Math.max(0, n - 1)` is the truncated difference.
unfoldable pub decrement_status_count : BatchStatusCount → BatchPaymentStatus → BatchStatusCount
unfolding get_count set_count
decrement_status_count c status = set_count c status (get_count c status - 1)

unfoldable pub increment_status_count : BatchStatusCount → BatchPaymentStatus → BatchStatusCount
unfolding get_count set_count
increment_status_count c status = set_count c status (get_count c status + 1)

unfoldable pub apply_hydrated_detail : BatchDetailsState → BatchDetail → BatchDetailsState
unfolding with_batch_runtime_state
apply_hydrated_detail state detail = with_batch_runtime_state state detail.id λ b. record b {
  detail = some detail;
  progress = calculate_progress detail.total_payments (calculate_completed_payments detail);
}

-- The writes of `applyBatchDoneState` to the detail.
unfoldable pub close_detail : BatchDoneEvent → BatchDetail → BatchDetail
close_detail event detail = record detail {
  summary = record detail.summary {
    total_payments = event.total_payments;
    status_count = record detail.status_count { pending = 0; processing = 0 };
  };
}

abbrev pub close_any_detail : BatchDoneEvent → Option BatchDetail → Option BatchDetail
close_any_detail event none = none
close_any_detail event (some detail) = some (close_detail event detail)

unfoldable pub apply_batch_done_state : BatchDoneEvent → BatchRuntimeState → BatchRuntimeState
apply_batch_done_state event b = record {
  detail = close_any_detail event b.detail;
  progress = calculate_progress event.total_payments event.completed_payments;
  stream = record {
    status = completed;
    retry_count = 0;
    last_event_at = some event.sent_at;
    last_error = none;
  };
}
