-- ===== src/Details/Events.antt =====
-- batchDetailsSlice.ts: what stream events do to a batch, also when one is delivered twice or
-- when nothing is known of the payment.
use flash_pay.Prelude.{
  Text, ◌≡◌, refl, ap, sym, ◌∙◌, Bool-cases, inl, inr, Option, none, some, List, [], ◌∷◌, text_eq,
  text_eq_self, Map, insert, arith,
}
use flash_pay.Batch.{
  BatchPayment, BatchDetail, BatchDoneEvent, BatchPaymentUpdatedEvent, BatchStreamEvent,
  payment_updated, batch_done, event_batch_id, event_sent_at,
}
use flash_pay.Details.{
  BatchRuntimeState, BatchDetailsState, calculate_progress, close_detail, close_any_detail,
  apply_batch_done_state, calculate_completed_payments, batch_runtime_state,
}
use flash_pay.Details.Counts.{same_status_refl}
use flash_pay.Details.Isolation.{runtime-reduce_self}
use flash_pay.Details.Reducer.{
  stream_event_received, find_payment, update_payment, replace_payment, update_detail,
  apply_to_payment, apply_to_detail, apply_payment_updated, apply_event, note_event, reduce,
}

module _ (event : BatchPaymentUpdatedEvent) where
  update_payment_idem :
      (p : BatchPayment) → update_payment event (update_payment event p) ≡ update_payment event p
  unfolding update_payment
  update_payment_idem p = ground arith

  find_payment-replace :
      (ps : List BatchPayment) (p : BatchPayment)
      → find_payment event.payment_id ps ≡ some p
      → find_payment event.payment_id (replace_payment event.payment_id (update_payment event) ps)
        ≡ some (update_payment event p)
  unfolding replace_payment update_payment
  find_payment-replace [] p e = cc
  find_payment-replace (q ∷ ps) p e = elim (Bool-cases (text_eq q.id event.payment_id)) [
    | inl same ↦ let here : q ≡ p = ground arith in rw here (ground (arith, here))
    | inr other ↦ ground (arith, find_payment-replace ps p)
  ]

  replace_payment_idem :
      (ps : List BatchPayment)
      → replace_payment event.payment_id
          (update_payment event)
          (replace_payment event.payment_id (update_payment event) ps)
        ≡ replace_payment event.payment_id (update_payment event) ps
  unfolding replace_payment update_payment
  replace_payment_idem [] = refl
  replace_payment_idem (q ∷ ps) = elim (Bool-cases (text_eq q.id event.payment_id)) [
    | inl same ↦ rw (same, same, update_payment_idem q) refl
    | inr other ↦ rw (other, other, replace_payment_idem ps) refl
  ]

  update_detail_idem :
      (p : BatchPayment) (d : BatchDetail)
      → update_detail event (update_payment event p) (update_detail event p d)
        ≡ update_detail event p d
  unfolding update_detail
  update_detail_idem p d = rw (same_status_refl event.status, replace_payment_idem d.payments) refl

  apply_to_payment_idem :
      (b : BatchRuntimeState) (d : BatchDetail) (o : Option BatchPayment)
      → b.detail ≡ some d
      → find_payment event.payment_id d.payments ≡ o
      → apply_payment_updated event (apply_to_payment event b d o) ≡ apply_to_payment event b d o
  unfolding apply_payment_updated
  apply_to_payment_idem b d none present unknown =
      ap (apply_to_detail event b) present ∙ ap (apply_to_payment event b d) unknown
  apply_to_payment_idem b d (some p) present found =
      ap (apply_to_payment event (apply_to_payment event b d (some p)) (update_detail event p d))
        (find_payment-replace d.payments p found)
      ∙ ap
          (λ (n : BatchDetail). record b {
            detail = some n;
            progress = calculate_progress n.total_payments (calculate_completed_payments n);
          })
          (update_detail_idem p d)

  apply_to_detail_idem :
      (b : BatchRuntimeState) (o : Option BatchDetail)
      → b.detail ≡ o
      → apply_payment_updated event (apply_to_detail event b o) ≡ apply_to_detail event b o
  unfolding apply_payment_updated
  apply_to_detail_idem b none e = ap (apply_to_detail event b) e
  apply_to_detail_idem b (some d) e =
      apply_to_payment_idem b d (find_payment event.payment_id d.payments) e refl

  pub stream-apply_payment_updated :
      (b : BatchRuntimeState) → (apply_payment_updated event b).stream ≡ b.stream
  unfolding apply_payment_updated
  stream-apply_payment_updated b = ground arith

note_event-fixed :
    (event : BatchStreamEvent) (b c : BatchRuntimeState)
    → c.stream ≡ (note_event event b).stream
    → note_event event c ≡ c
unfolding note_event
note_event-fixed event b c e =
    ap
      (λ s. record c {
        stream = record s { last_event_at = some (event_sent_at event); last_error = none };
      })
      e
    ∙ ap (λ s. record c { stream = s }) (sym e)

close_any_detail_idem :
    (event : BatchDoneEvent) (o : Option BatchDetail)
    → close_any_detail event (close_any_detail event o) ≡ close_any_detail event o
unfolding close_detail
close_any_detail_idem event none = refl
close_any_detail_idem event (some d) = refl

apply_event_idem :
    (event : BatchStreamEvent) (b : BatchRuntimeState)
    → apply_event event (apply_event event b) ≡ apply_event event b
unfolding apply_event
apply_event_idem (batch_done e) b =
    ap (λ o. record (apply_batch_done_state e b) { detail = o }) (close_any_detail_idem e b.detail)
apply_event_idem (payment_updated e) b =
    let noted = note_event (payment_updated e) b in
    ap (apply_payment_updated e) (
      note_event-fixed (payment_updated e) b (apply_payment_updated e noted)
        (stream-apply_payment_updated e noted))
    ∙ apply_to_detail_idem e noted noted.detail refl

insert-insert {ℓ} :
    {V : Type ℓ} (k : Text) (v w : V) (m : Map V) → insert k v (insert k w m) ≡ insert k v m
unfolding insert
insert-insert k v w [] = rw (text_eq_self k) refl
insert-insert k v w ((j, u) ∷ m) = elim (Bool-cases (text_eq j k)) [
  | inl same ↦ rw (same, same) refl
  | inr other ↦ rw (other, other, insert-insert k v w m) refl
]

-- A stream event that is delivered twice in a row leaves the state that it leaves when delivered
-- once, whatever the event and the state.
pub reduce-event_idem :
    (state : BatchDetailsState) (event : BatchStreamEvent)
    → reduce (reduce state (stream_event_received event)) (stream_event_received event)
      ≡ reduce state (stream_event_received event)
unfolding reduce
reduce-event_idem state event =
    let id = event_batch_id event in
    let b = batch_runtime_state state id in
    let once = apply_event event b in
    ap
      (λ (r : BatchRuntimeState). record {
        by_id = insert id (apply_event event r) (insert id once state.by_id);
      })
      (runtime-reduce_self state (stream_event_received event))
    ∙ ap (λ (r : BatchRuntimeState). record { by_id = insert id r (insert id once state.by_id) })
        (apply_event_idem event b)
    ∙ ap (λ (m : Map BatchRuntimeState). record { by_id = m })
        (insert-insert id once once state.by_id)
