-- ===== src/Details/Counts.antt =====
-- batchDetailsSlice.ts: the status counts and the payments under the event of a payment.
use flash_pay.Prelude.{
  ℕ, ◌+◌, ◌<◌, Text, ◌≡◌, refl, Bool, true, false, Bool-cases, inl, inr, some, List, [], ◌∷◌,
  if◌then◌else◌, text_eq, count_if, arith,
}
use flash_pay.Batch.{
  BatchPaymentStatus, pending, processing, success, failed, same_status, BatchStatusCount,
  BatchPayment, BatchDetail, BatchPaymentUpdatedEvent,
}
use flash_pay.Details.{get_count, increment_status_count, decrement_status_count}
use flash_pay.Details.Reducer.{update_payment, replace_payment, find_payment, update_detail}

abbrev pub count_status : BatchPaymentStatus → List BatchPayment → ℕ
count_status s = count_if λ p. same_status p.status s

-- Each status count is the number of payments with that status.
pub record IsCounted (detail : BatchDetail) : Type 0 where
  pub at :
      (s : BatchPaymentStatus) → get_count detail.status_count s ≡ count_status s detail.payments

abbrev one_if : Bool → ℕ
one_if true = 1
one_if false = 0

module _ (s : BatchPaymentStatus) (id : Text) (f : BatchPayment → BatchPayment) where
  count_status-replace :
      (ps : List BatchPayment) (p : BatchPayment)
      → find_payment id ps ≡ some p
      → count_status s (replace_payment id f ps) + one_if (same_status p.status s)
        ≡ count_status s ps + one_if (same_status (f p).status s)
  unfolding replace_payment
  count_status-replace [] p e = cc
  count_status-replace (q ∷ ps) p e = elim (Bool-cases (text_eq q.id id)) [
    | inl same ↦ let here : q ≡ p = ground arith in rw same (ground (arith, here))
    | inr other ↦ rw other (ground (arith, count_status-replace ps p (ground arith)))
  ]

get_count-moved :
    (c : BatchStatusCount) (old new s : BatchPaymentStatus)
    → 0 < get_count c old
    → get_count
          (if same_status old new
            then c
            else increment_status_count (decrement_status_count c old) new)
          s
        + one_if (same_status old s)
      ≡ get_count c s + one_if (same_status new s)
unfolding increment_status_count decrement_status_count
get_count-moved c pending new s h = ground arith
get_count-moved c processing new s h = ground arith
get_count-moved c success new s h = ground arith
get_count-moved c failed new s h = ground arith

pub same_status_refl : (s : BatchPaymentStatus) → same_status s s ≡ true
same_status_refl pending = refl
same_status_refl _ = refl

-- The payment that `find` returns is counted.
count_status-found :
    (id : Text) (ps : List BatchPayment) (p : BatchPayment)
    → find_payment id ps ≡ some p
    → 0 < count_status p.status ps
count_status-found id [] p e = cc
count_status-found id (q ∷ ps) p e = elim (Bool-cases (text_eq q.id id)) [
  | inl same ↦
      let here : q ≡ p = ground arith in rw here (rw (same_status_refl p.status) (omega arith))
  | inr other ↦ ground (arith, count_status-found id ps p (ground arith))
]

-- An event about a listed payment keeps every count equal to the number of payments with that
-- status: the clamp at 0 is never reached, and one payment moves from its old status to the new.
pub update_detail-IsCounted :
    (event : BatchPaymentUpdatedEvent) (p : BatchPayment) (detail : BatchDetail)
    → find_payment event.payment_id detail.payments ≡ some p
    → IsCounted detail
    → IsCounted (update_detail event p detail)
unfolding update_detail
update_detail-IsCounted event p detail found counted = record {
  at = λ s. omega (
    arith,
    counted.at s,
    counted.at p.status,
    count_status-found event.payment_id detail.payments p found,
    count_status-replace s event.payment_id (update_payment event) detail.payments p found,
    get_count-moved detail.status_count p.status event.status s,
  );
}
