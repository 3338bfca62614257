-- ===== src/History.antt =====
-- apps/frontend/src/features/batches/components/BatchHistoryCard.tsx: what the history shows of a
-- batch.
pub mod Card
use flash_pay.Prelude.{
  ℕ, ◌+◌, Text, text, Bool, true, false, ◌&&◌, ◌++◌, min, ltb, ◌==◌, if◌then◌else◌,
}
use flash_pay.Prelude.Double.{divide, multiply, round}
use flash_pay.Batch.{BatchStatusCount, BatchSummary}

unfoldable pub get_completed_payments : BatchStatusCount → ℕ
get_completed_payments status_count = status_count.success + status_count.failed

unfoldable pub get_progress_percent : BatchSummary → ℕ
unfolding get_completed_payments
get_progress_percent batch =
    if batch.total_payments == 0
    then 0
    else min 100 (
        round
          (multiply (divide (get_completed_payments batch.status_count) batch.total_payments) 100))

-- The five labels, with their texts.
pub data BatchStatusLabel : Type 0 where
  running waiting completed_with_failures completed updated : BatchStatusLabel

abbrev pub label_text : BatchStatusLabel → Text
label_text running = text "Em processamento"
label_text waiting = text "Aguardando processamento"
label_text completed_with_failures = text "Concluido com falhas"
label_text completed = text "Concluido"
label_text updated = text "Atualizado"

unfoldable pub get_batch_status_label : BatchSummary → BatchStatusLabel
get_batch_status_label batch =
    let c = batch.status_count in
    if ltb 0 c.processing
    then running
    else if ltb 0 c.pending && ((c.success == 0) && (c.failed == 0))
    then waiting
    else if ltb 0 c.failed && ((c.pending == 0) && (c.processing == 0))
    then completed_with_failures
    else if (c.success == batch.total_payments) && ltb 0 batch.total_payments
    then completed
    else updated

-- `show` is the text of a number in a template literal.
unfoldable pub get_status_detail : (ℕ → Text) → BatchSummary → Text
unfolding get_completed_payments
get_status_detail show batch =
    show (get_completed_payments batch.status_count)
    ++ (text "/" ++ (show batch.total_payments ++ text " processados"))
