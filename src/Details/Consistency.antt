-- ===== src/Details/Consistency.antt =====
-- batchDetailsSlice.ts: the counts, the payments and the progress of a batch over runs of actions.
use flash_pay.Prelude.{Text, ◌≡◌, refl, ap, Option, none, some, List, [], ◌∷◌, arith}
use flash_pay.Batch.{
  BatchPaymentStatus, BatchPayment, pending, processing, success, failed, BatchDetail,
  BatchDoneEvent, BatchPaymentUpdatedEvent, payment_updated, batch_done,
}
use flash_pay.Details.{
  BatchProgressState, BatchRuntimeState, BatchDetailsState, get_count, calculate_progress,
  calculate_completed_payments, batch_runtime_state, close_detail, close_any_detail,
}
use flash_pay.Details.Counts.{IsCounted, count_status, update_detail-IsCounted}
use flash_pay.Details.Isolation.{runtime_step, reduce-invariant}
use flash_pay.Details.Reducer.{
  Action, batch_detail_hydrated, initialize_batch_runtime, stream_connecting, stream_connected,
  stream_reconnect_scheduled, stream_failed, stream_disconnected, stream_event_received,
  get_batch_by_id_fulfilled, action_batch_id, find_payment, apply_payment_updated, apply_to_payment,
  apply_to_detail, apply_event, note_event, reduce, reduce_all,
}

-- The detail that a batch holds, if any, is counted, and the progress is that of the detail.
abbrev pub IsSettled : Option BatchDetail → BatchProgressState → Type 0
IsSettled none progress = Unit
IsSettled (some d) progress =
    IsCounted d × (progress ≡ calculate_progress d.total_payments (calculate_completed_payments d))

abbrev pub IsSound : BatchRuntimeState → Type 0
IsSound b = IsSettled b.detail b.progress

-- A `batch_done` message fits a detail that has nothing left to process and the same totals.
abbrev pub DoneFits : BatchDoneEvent → Option BatchDetail → Type 0
DoneFits e none = Unit
DoneFits e (some d) =
    (d.status_count.pending ≡ 0)
    × (d.status_count.processing ≡ 0)
    × (e.total_payments ≡ d.total_payments)
    × (e.completed_payments ≡ calculate_completed_payments d)

-- What is asked of the server's messages when they arrive: snapshots are counted, and
-- `batch_done` comes after the last payment's event. Nothing is asked of payment events.
abbrev pub Fits : Action → BatchRuntimeState → Type 0
Fits (batch_detail_hydrated d) b = IsCounted d
Fits (get_batch_by_id_fulfilled d) b = IsCounted d
Fits (stream_event_received (batch_done e)) b = DoneFits e b.detail
Fits _ b = Unit

module _ (event : BatchPaymentUpdatedEvent) (b : BatchRuntimeState) where
  apply_to_payment-IsSound :
      (d : BatchDetail) (o : Option BatchPayment)
      → b.detail ≡ some d
      → find_payment event.payment_id d.payments ≡ o
      → IsSound b
      → IsSound (apply_to_payment event b d o)
  unfolding apply_to_payment
  apply_to_payment-IsSound d none present found h = h
  apply_to_payment-IsSound d (some p) present found h =
      let counted : IsCounted d = (rw present at h).0 in
      (update_detail-IsCounted event p d found counted, refl)

  apply_to_detail-IsSound :
      (o : Option BatchDetail) → b.detail ≡ o → IsSound b → IsSound (apply_to_detail event b o)
  unfolding apply_to_detail
  apply_to_detail-IsSound none e h = h
  apply_to_detail-IsSound (some d) e h =
      apply_to_payment-IsSound d (find_payment event.payment_id d.payments) e refl h

close_detail-IsCounted :
    (e : BatchDoneEvent) (d : BatchDetail)
    → DoneFits e (some d)
    → IsCounted d
    → (s : BatchPaymentStatus)
    → get_count (close_detail e d).status_count s ≡ count_status s (close_detail e d).payments
unfolding close_detail get_count
close_detail-IsCounted e d fits counted pending = omega (arith, counted.at pending)
close_detail-IsCounted e d fits counted processing = omega (arith, counted.at processing)
close_detail-IsCounted e d fits counted success = counted.at success
close_detail-IsCounted e d fits counted failed = counted.at failed

close_detail-IsSound :
    (e : BatchDoneEvent) (o : Option BatchDetail) (progress : BatchProgressState)
    → DoneFits e o
    → IsSettled o progress
    → IsSettled (close_any_detail e o) (calculate_progress e.total_payments e.completed_payments)
unfolding close_detail calculate_completed_payments
close_detail-IsSound e none progress fits h = tt
close_detail-IsSound e (some d) progress fits (counted, _) = (
  record { at = close_detail-IsCounted e d fits counted },
  ap (calculate_progress e.total_payments) fits.3,
)

runtime_step-IsSound :
    (a : Action) (b : BatchRuntimeState) → Fits a b → IsSound b → IsSound (runtime_step a b)
unfolding apply_event apply_payment_updated
runtime_step-IsSound (batch_detail_hydrated d) b fits h = (fits, refl)
runtime_step-IsSound (get_batch_by_id_fulfilled d) b fits h = (fits, refl)
runtime_step-IsSound (stream_event_received (batch_done e)) b fits h =
    close_detail-IsSound e b.detail b.progress fits h
runtime_step-IsSound (stream_event_received (payment_updated e)) b fits h =
    apply_to_detail-IsSound e (note_event (payment_updated e) b) b.detail refl h
runtime_step-IsSound (initialize_batch_runtime _) b fits h = h
runtime_step-IsSound (stream_connecting _ _) b fits h = h
runtime_step-IsSound (stream_connected _) b fits h = h
runtime_step-IsSound (stream_reconnect_scheduled _ _ _) b fits h = h
runtime_step-IsSound (stream_failed _ _) b fits h = h
runtime_step-IsSound (stream_disconnected _) b fits h = h

-- Every action for the batch `j` fits the state that it meets.
abbrev pub AllFit : Text → BatchDetailsState → List Action → Type 0
AllFit j state [] = Unit
AllFit j state (a ∷ rest) =
    (action_batch_id a ≡ j → Fits a (batch_runtime_state state j)) × AllFit j (reduce state a) rest

-- Over any actions that fit, a batch whose counts and progress agree with its payments stays so:
-- each status count is the number of payments with that status, and the progress is that of the
-- totals of the detail.
pub reduce_all-IsSound :
    (j : Text) (state : BatchDetailsState) (actions : List Action)
    → AllFit j state actions
    → IsSound (batch_runtime_state state j)
    → IsSound (batch_runtime_state (reduce_all state actions) j)
unfolding reduce_all
reduce_all-IsSound j state [] fits h = h
reduce_all-IsSound j state (a ∷ rest) (fits, later) h =
    reduce_all-IsSound j (reduce state a) rest later (
      reduce-invariant IsSound j state a
        (λ e. runtime_step-IsSound a (batch_runtime_state state j) (fits e)) h)
