-- ===== src/Export.antt =====
-- apps/frontend/src/features/batches/components/BatchProgressCard.tsx: the export of the failed
-- payments as CSV, and what the card shows of the payments.
pub mod RoundTrip
pub mod Card
use flash_pay.Prelude.{
  ℕ, suc, ◌+◌, ◌-◌, Text, text, Bool, true, false, ◌&&◌, not, Option, none, some, List, [], ◌∷◌,
  ◌++◌, map, leb, ltb, ◌==◌, if◌then◌else◌, ◌or_else◌, length, take, keep, join,
}
use flash_pay.Batch.{
  BatchPaymentStatus, failed, same_status, status_text, BatchPayment, BatchDetail,
}

-- `value.replace(/"/g, '""')`; 34 is the quote.
unfoldable pub double_quotes : Text → Text
double_quotes [] = []
double_quotes (c ∷ s) = if c == 34 then 34 ∷ 34 ∷ double_quotes s else c ∷ double_quotes s

unfoldable pub escape_csv_value : Text → Text
unfolding double_quotes
escape_csv_value value = 34 ∷ (double_quotes value ++ 34 ∷ [])

-- `truncateErrorMessage`, with its default length; the last code unit is the ellipsis.
unfoldable pub truncate_error_message : Text → Text
truncate_error_message value = if leb (length value) 72 then value else take 71 value ++ 0x2026 ∷ []

unfoldable pub csv_header : Text
unfolding join
csv_header = join (text ",") (
    text "batch_id"
    ∷ text "payment_id"
    ∷ text "recipient"
    ∷ text "amount"
    ∷ text "status"
    ∷ text "error_message"
    ∷ text "processed_at"
    ∷ [])

-- The values of a payment's row.
abbrev pub payment_values : Text → BatchPayment → List Text
payment_values batch_id p =
    batch_id
    ∷ p.id
    ∷ p.recipient
    ∷ p.amount
    ∷ status_text p.status
    ∷ (p.error_message or_else [])
    ∷ (p.processed_at or_else [])
    ∷ []

unfoldable pub csv_row : List Text → Text
unfolding join escape_csv_value
csv_row values = join (text ",") (map escape_csv_value values)

unfoldable pub build_failed_payments_csv : Text → List BatchPayment → Text
unfolding csv_row csv_header
build_failed_payments_csv batch_id payments =
    join (text "\n") (csv_header ∷ map (λ p. csv_row (payment_values batch_id p)) payments)

abbrev pub is_failed : BatchPayment → Bool
is_failed p = same_status p.status failed

abbrev pub card_payments : Option BatchDetail → List BatchPayment
card_payments none = []
card_payments (some detail) = detail.payments

unfoldable pub failed_payments : Option BatchDetail → List BatchPayment
failed_payments detail = keep is_failed (card_payments detail)

unfoldable pub visible_payments : Bool → Bool → Option BatchDetail → List BatchPayment
unfolding failed_payments
visible_payments admin_view show_only_failed_payments detail =
    if admin_view && show_only_failed_payments then failed_payments detail else card_payments detail

-- The text that `handleExportFailedPayments` hands to the download; none if it returns at once.
unfoldable pub export_failed_payments : Text → Option BatchDetail → Option Text
unfolding failed_payments build_failed_payments_csv
export_failed_payments batch_id none = none
export_failed_payments batch_id (some detail) =
    if length (failed_payments (some detail)) == 0
    then none
    else some (build_failed_payments_csv batch_id (failed_payments (some detail)))
