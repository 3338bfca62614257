-- ===== src/History/Card.antt =====
-- BatchHistoryCard.tsx: what the card renders.
pub mod Laws
use flash_pay.Prelude.{
  ℕ, Text, text, Bool, ◌&&◌, not, Option, List, [], ◌∷◌, ◌++◌, ltb, ◌==◌, is_some, length, decimal,
}
use flash_pay.Prelude.Html.{
  string, number, Html, element, say, when, truthy, if_present, each, classed, link,
}
use flash_pay.Batch.{BatchSummary}
use flash_pay.History.{get_progress_percent, label_text, get_batch_status_label, get_status_detail}

-- A term of the list of a batch's data, with its value.
abbrev pub batch_datum : Text → Text → Html
batch_datum term value =
    element (text "div") []
      (element (text "dt") [] (say term) ++ element (text "dd") [] (say value))

abbrev pub progress_meter : ℕ → Html
unfolding decimal
progress_meter percent = element (text "div") (classed (text "batch-history-progress")) (
    element (text "div")
      ((text "class", string (text "batch-history-meter"))
        ∷ (text "role", string (text "progressbar"))
        ∷ (text "aria-label", string (text "Progresso compacto do lote"))
        ∷ (text "aria-valuemin", number 0)
        ∷ (text "aria-valuemax", number 100)
        ∷ (text "aria-valuenow", number percent)
        ∷ [])
      (element (text "div")
        ((text "class", string (text "batch-history-fill"))
          ∷ (text "style", string (text "width: " ++ (decimal percent ++ text "%")))
          ∷ [])
        [])
    ++ element (text "p") [] (say (decimal percent) ++ say (text "% concluido")))

-- `format` is `dateFormatter.format(new Date(value))`.
unfoldable pub history_item : (Text → Text) → BatchSummary → Html
unfolding get_progress_percent get_batch_status_label get_status_detail decimal progress_meter
history_item format batch = element (text "li") [] (
    link (text "/batches/" ++ batch.id) (classed (text "batch-history-item")) (
      element (text "div") (classed (text "batch-history-main")) (
        element (text "div") (classed (text "batch-history-title-row")) (
          element (text "h3") [] (say batch.file_name)
          ++ element (text "span") (classed (text "batch-history-pill"))
              (say (label_text (get_batch_status_label batch))))
        ++ element (text "dl") (classed (text "batch-history-meta-grid")) (
            batch_datum (text "Data") (format batch.created_at)
            ++ (batch_datum (text "Total") (decimal batch.total_payments)
                ++ batch_datum (text "Status") (get_status_detail decimal batch))))
      ++ when (ltb 0 batch.status_count.processing) (progress_meter (get_progress_percent batch))))

unfoldable pub batch_history_card :
    (Text → Text) → List BatchSummary → Bool → Bool → Option Text → Html
unfolding history_item
batch_history_card format batches is_loading is_fetching error_message =
    element (text "section")
      ((text "class", string (text "status-card batch-history-card"))
        ∷ (text "aria-label", string (text "Historico de lotes"))
        ∷ [])
      (element (text "div") (classed (text "card-header")) (
          element (text "div") [] (
            element (text "p") (classed (text "section-kicker")) (say (text "Historico"))
            ++ element (text "h2") [] (say (text "Lotes recentes")))
          ++ when (is_fetching && ltb 0 (length batches)) (
              element (text "p") (classed (text "batch-history-refresh"))
                (say (text "Atualizando..."))))
        ++ ((if_present (truthy error_message) λ message.
              element (text "p")
                ((text "class", string (text "submit-error"))
                  ∷ (text "role", string (text "alert"))
                  ∷ [])
                (say message))
            ++ (when is_loading (
                  element (text "p") (classed (text "upload-meta"))
                    (say (text "Carregando historico...")))
                ++ (when
                      (not is_loading
                        && (not (is_some (truthy error_message)) && (length batches == 0)))
                      (element (text "p") (classed (text "upload-meta batch-history-empty")) (
                        say (
                          text
                            "Nenhum lote enviado ainda. O historico vai aparecer aqui apos o primeiro upload.")))
                    ++ when (ltb 0 (length batches)) (
                        element (text "ul") (classed (text "batch-history-list"))
                          (each (history_item format) batches))))))
