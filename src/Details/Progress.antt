-- ===== src/Details/Progress.antt =====
-- batchDetailsSlice.ts: the progress of a batch, over every run of actions.
use native.Mathlib.Nat.{mul-pos, mul-zero, mul-one}
use flash_pay.Prelude.{
  ℕ, zero, suc, ◌<◌, ◌≤◌, ◌*◌, Text, ◌≡◌, refl, ap, ◌∙◌, false, Option, none, some, List, lookup,
  arith, ◌==◌,
}
use flash_pay.Prelude.Double.{divide, multiply, round}
use flash_pay.Prelude.Double.Laws.{percent_of_equal, divide-scale}
use flash_pay.Batch.{
  BatchDetail, BatchPayment, BatchPaymentUpdatedEvent, payment_updated, batch_done,
}
use flash_pay.Details.{
  BatchProgressState, BatchRuntimeState, BatchDetailsState, initial_state, percent_of,
  calculate_progress, batch_runtime_state,
}
use flash_pay.Details.Isolation.{runtime_step, reduce_all-invariant}
use flash_pay.Details.Reducer.{
  Action, batch_detail_hydrated, initialize_batch_runtime, stream_connecting, stream_connected,
  stream_reconnect_scheduled, stream_failed, stream_disconnected, stream_event_received,
  get_batch_by_id_fulfilled, apply_to_payment, apply_to_detail, apply_payment_updated, apply_event,
  note_event, find_payment, reduce_all, select_batch_progress,
}

suc_not_zero : (t : ℕ) → (suc t == 0) ≡ false
suc_not_zero t = ground arith

not_zero-scale : (g t : ℕ) → 0 < g → (g * suc t == 0) ≡ false
not_zero-scale g t pos = ground (arith, mul-pos {m = g} {n = suc t} pos (omega arith))

-- The percentage depends only on the ratio of the counts.
pub percent_of-scale :
    (g total done : ℕ) → 0 < g → percent_of (g * total) (g * done) ≡ percent_of total done
unfolding percent_of
percent_of-scale g zero done pos = rw (mul-zero g) refl
percent_of-scale g (suc t) done pos =
    rw (divide-scale g pos done (suc t), not_zero-scale g t pos, suc_not_zero t) refl

pub percent_of_all : (total : ℕ) → 0 < total → percent_of total total ≡ 100
unfolding percent_of
percent_of_all zero pos = elim pos [ ]
percent_of_all (suc t) pos = rw (percent_of_equal (suc t) pos, suc_not_zero t) refl

percent_of_one_none : percent_of 1 0 ≡ 0
unfolding percent_of round multiply divide
percent_of_one_none = refl

percent_of_nothing : 0 ≡ percent_of 0 0
unfolding percent_of
percent_of_nothing = refl

pub percent_of_none : (total : ℕ) → percent_of total 0 ≡ 0
unfolding percent_of
percent_of_none zero = refl
percent_of_none (suc t) =
    rw (mul-zero (suc t), mul-one (suc t)) at (percent_of-scale (suc t) 1 0 (omega arith))
    ∙ percent_of_one_none

pub percent_of-le : (total done : ℕ) → percent_of total done ≤ 100
unfolding percent_of
percent_of-le total done = ground arith

-- The percentage is that of the two counts.
abbrev IsComputed : BatchProgressState → Type 0
IsComputed p = p.percent_complete ≡ percent_of p.total_payments p.completed_payments

module _ (event : BatchPaymentUpdatedEvent) (b : BatchRuntimeState)
    (h : IsComputed b.progress) where
  apply_to_payment-IsComputed :
      (d : BatchDetail) (o : Option BatchPayment)
      → IsComputed (apply_to_payment event b d o).progress
  unfolding apply_to_payment
  apply_to_payment-IsComputed d none = h
  apply_to_payment-IsComputed d (some p) = refl

  apply_to_detail-IsComputed :
      (o : Option BatchDetail) → IsComputed (apply_to_detail event b o).progress
  unfolding apply_to_detail
  apply_to_detail-IsComputed none = h
  apply_to_detail-IsComputed (some d) =
      apply_to_payment-IsComputed d (find_payment event.payment_id d.payments)

runtime_step-IsComputed :
    (a : Action) (b : BatchRuntimeState)
    → IsComputed b.progress
    → IsComputed (runtime_step a b).progress
unfolding apply_event apply_payment_updated calculate_progress
runtime_step-IsComputed (batch_detail_hydrated d) b h = refl
runtime_step-IsComputed (get_batch_by_id_fulfilled d) b h = refl
runtime_step-IsComputed (stream_event_received (batch_done e)) b h = refl
runtime_step-IsComputed (stream_event_received (payment_updated e)) b h =
    apply_to_detail-IsComputed e (note_event (payment_updated e) b) h b.detail
runtime_step-IsComputed (initialize_batch_runtime _) b h = h
runtime_step-IsComputed (stream_connecting _ _) b h = h
runtime_step-IsComputed (stream_connected _) b h = h
runtime_step-IsComputed (stream_reconnect_scheduled _ _ _) b h = h
runtime_step-IsComputed (stream_failed _ _) b h = h
runtime_step-IsComputed (stream_disconnected _) b h = h

select_batch_progress-eq :
    (state : BatchDetailsState) (j : Text)
    → select_batch_progress state j ≡ (batch_runtime_state state j).progress
unfolding select_batch_progress batch_runtime_state
select_batch_progress-eq state j = ground arith

reduce_all-IsComputed :
    (actions : List Action) (j : Text)
    → IsComputed (select_batch_progress (reduce_all initial_state actions) j)
reduce_all-IsComputed actions j =
    rw (select_batch_progress-eq (reduce_all initial_state actions) j) (
      reduce_all-invariant (λ b. IsComputed b.progress) j (λ a b _ h. runtime_step-IsComputed a b h)
        initial_state actions (unfold batch_runtime_state lookup in percent_of_nothing))

-- After any actions, whatever the server sent, the percentage that is shown for a batch is at
-- most 100.
pub percent_complete-le :
    (actions : List Action) (j : Text)
    → (select_batch_progress (reduce_all initial_state actions) j).percent_complete ≤ 100
percent_complete-le actions j =
    let p = select_batch_progress (reduce_all initial_state actions) j in
    rw (reduce_all-IsComputed actions j) (percent_of-le p.total_payments p.completed_payments)

-- After any actions, whatever the server sent, the percentage that is shown for a batch is 100
-- where all of a positive number of payments are complete.
pub percent_complete-all :
    (actions : List Action) (j : Text) (n : ℕ)
    → 0 < n
    → (select_batch_progress (reduce_all initial_state actions) j).total_payments ≡ n
    → (select_batch_progress (reduce_all initial_state actions) j).completed_payments ≡ n
    → (select_batch_progress (reduce_all initial_state actions) j).percent_complete ≡ 100
percent_complete-all actions j n pos total done =
    reduce_all-IsComputed actions j
    ∙ ap
        (λ t.
          percent_of t
            (select_batch_progress (reduce_all initial_state actions) j).completed_payments)
        total
    ∙ ap (percent_of n) done
    ∙ percent_of_all n pos
