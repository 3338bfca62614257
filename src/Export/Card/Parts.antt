-- ===== src/Export/Card/Parts.antt =====
-- BatchProgressCard.tsx: the parts of the card.
use flash_pay.Prelude.{
  ℕ, Text, text, Bool, true, ◌&&◌, Option, none, some, List, [], ◌∷◌, ◌++◌, if◌then◌else◌,
  ◌or_else◌, decimal,
}
use flash_pay.Prelude.Html.{
  classed, th, td, string, flag, number, Html, element, say, truthy, if_present, each,
}
use flash_pay.Batch.{
  BatchPaymentStatus, pending, processing, success, failed, status_text, BatchStatusCount,
  BatchPayment,
}
use flash_pay.Details.{
  BatchStreamStatus, idle, connecting, connected, reconnecting, disconnected, completed, error,
  BatchProgressState, BatchStreamState,
}
use flash_pay.Export.{is_failed, truncate_error_message}

abbrev pub payment_status_label : BatchPaymentStatus → Text
payment_status_label pending = text "Pendente"
payment_status_label processing = text "Processando"
payment_status_label success = text "Sucesso"
payment_status_label failed = text "Falha"

abbrev pub stream_status_label : BatchStreamStatus → Text
stream_status_label idle = text "Aguardando stream"
stream_status_label connecting = text "Conectando"
stream_status_label connected = text "Ao vivo"
stream_status_label reconnecting = text "Reconectando"
stream_status_label disconnected = text "Desconectado"
stream_status_label completed = text "Concluido"
stream_status_label error = text "Erro"

abbrev pub stream_status_text : BatchStreamStatus → Text
stream_status_text idle = text "idle"
stream_status_text connecting = text "connecting"
stream_status_text connected = text "connected"
stream_status_text reconnecting = text "reconnecting"
stream_status_text disconnected = text "disconnected"
stream_status_text completed = text "completed"
stream_status_text error = text "error"

-- `formatDateTime(value)` where that is a text which is not empty.
abbrev pub format_date_time : (Text → Text) → Option Text → Option Text
format_date_time format none = none
format_date_time format (some []) = none
format_date_time format (some (c ∷ s)) = some (format (c ∷ s))

unfoldable pub stream_summary : (Text → Text) → BatchStreamState → Html
stream_summary format s = element (text "div") (classed (text "batch-stream-summary")) (
    element (text "p") (classed (text "auth-footer")) (
      say (text "Stream:")
      ++ say (text " ")
      ++ element (text "span")
          (classed (text "stream-pill stream-pill--" ++ stream_status_text s.status))
          (say (stream_status_label s.status)))
    ++ if_present (truthy (format_date_time format s.last_event_at)) λ updated.
      element (text "p") (classed (text "batch-stream-meta"))
        (say (text "Atualizado em ") ++ say updated))

unfoldable pub progress_panel : BatchProgressState → Html
unfolding decimal
progress_panel p = element (text "div") (classed (text "batch-progress-panel")) (
    element (text "div") (classed (text "batch-progress-header")) (
      element (text "div") [] (
        element (text "p") (classed (text "section-kicker")) (say (text "Progresso"))
        ++ element (text "h3") [] (say (decimal p.percent_complete) ++ say (text "% concluido")))
      ++ element (text "p") (classed (text "batch-progress-meta")) (
          say (decimal p.completed_payments)
          ++ say (text " de ")
          ++ say (decimal p.total_payments)
          ++ say (text " pagamentos processados")))
    ++ element (text "div")
        ((text "class", string (text "batch-progress-meter"))
          ∷ (text "role", string (text "progressbar"))
          ∷ (text "aria-label", string (text "Progresso do lote"))
          ∷ (text "aria-valuemin", number 0)
          ∷ (text "aria-valuemax", number 100)
          ∷ (text "aria-valuenow", number p.percent_complete)
          ∷ [])
        (element (text "div")
          ((text "class", string (text "batch-progress-fill"))
            ∷ (text "style", string (text "width: " ++ (decimal p.percent_complete ++ text "%")))
            ∷ [])
          []))

unfoldable pub counter : Text → ℕ → Html
unfolding decimal
counter label n =
    element (text "div") (classed (text "batch-counter-card"))
      (element (text "dt") [] (say label) ++ element (text "dd") [] (say (decimal n)))

unfoldable pub counters : ℕ → BatchStatusCount → Html
unfolding counter
counters total c = element (text "dl") (classed (text "batch-counter-grid")) (
    counter (text "Total") total
    ++ (counter (text "Pendente") c.pending
        ++ (counter (text "Processando") c.processing
            ++ (counter (text "Sucesso") c.success ++ counter (text "Falha") c.failed))))

unfoldable pub error_details : Text → Html
unfolding truncate_error_message
error_details message =
    element (text "details")
      ((text "class", string (text "payment-error-details")) ∷ (text "open", flag true) ∷ [])
      (element (text "summary") ((text "title", string message) ∷ [])
          (say (text "Erro: ") ++ say (truncate_error_message message))
        ++ element (text "p") [] (say message))

-- `adminView && isFailed && payment.error_message ? … : payment.error_message ?? '-'`
unfoldable pub error_cell : Bool → Option Text → Html
unfolding error_details
error_cell true (some (c ∷ s)) = error_details (c ∷ s)
error_cell _ message = say (message or_else text "-")

unfoldable pub payment_row : Bool → BatchPayment → Html
unfolding error_cell
payment_row admin_view p =
    element (text "tr")
      (classed (if is_failed p then text "payment-row payment-row--failed" else text "payment-row"))
      (td p.id
        ++ (td p.recipient
            ++ (td p.amount
                ++ (element (text "td") [] (
                      element (text "span")
                        (classed (
                          text "payment-status-badge payment-status-badge--"
                          ++ status_text p.status))
                        (say (payment_status_label p.status)))
                    ++ element (text "td")
                        (classed (if is_failed p then text "payment-error-cell" else []))
                        (error_cell (admin_view && is_failed p) p.error_message)))))

unfoldable pub payment_table : Bool → List BatchPayment → Html
unfolding payment_row
payment_table admin_view visible = element (text "div") (classed (text "preview-table-wrapper")) (
    element (text "table") (classed (text "preview-table batch-payment-table")) (
      element (text "thead") [] (
        element (text "tr") [] (
          th (text "Pagamento")
          ++ (th (text "Recebedor")
              ++ (th (text "Valor") ++ (th (text "Status") ++ th (text "Erro"))))))
      ++ element (text "tbody") [] (each (payment_row admin_view) visible)))
