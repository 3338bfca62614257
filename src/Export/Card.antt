-- ===== src/Export/Card.antt =====
-- BatchProgressCard.tsx: what the card renders, and the pages BatchDetailsPage.tsx and
-- AdminBatchDetailsPage.tsx that hand it what the slice holds.
pub mod Parts
pub mod Rows
pub mod Laws
use flash_pay.Prelude.{
  ℕ, Text, text, Bool, true, false, ◌&&◌, not, Option, none, some, List, [], ◌∷◌, ◌++◌, ltb, ◌==◌,
  if◌then◌else◌, ◌or_else◌, is_some, is_nonempty, length, decimal,
}
use flash_pay.Prelude.Html.{
  classed, string, flag, number, Html, element, say, when, truthy, if_present, each,
}
use flash_pay.Batch.{BatchPaymentStatus, BatchStatusCount, BatchPayment, BatchDetail}
use flash_pay.Details.{
  BatchProgressState, BatchStreamState, BatchDetailsState, create_initial_progress_state,
  create_initial_stream_state,
}
use flash_pay.Details.Reducer.{
  select_batch_detail, select_batch_progress, select_batch_stream_state,
}
use flash_pay.Failure.{Failure, batch_error_message}
use flash_pay.Export.{failed_payments, visible_payments}
use flash_pay.Export.Card.Parts.{stream_summary, progress_panel, counter, counters, payment_table}

pub record CardProps : Type 0 where
  pub batch_id : Text
  pub detail : Option BatchDetail
  pub progress : BatchProgressState
  pub stream : BatchStreamState
  pub is_loading : Bool
  pub error_message : Option Text
  pub admin_view : Bool

-- The filter and the export, for administrators.
abbrev pub admin_tools : Bool → Bool → Html
admin_tools show_only_failed has_failed =
    element (text "div")
      ((text "class", string (text "batch-detail-tools"))
        ∷ (text "aria-label", string (text "Ferramentas administrativas"))
        ∷ [])
      (element (text "label") (classed (text "batch-detail-filter")) (
          element (text "input")
            ((text "type", string (text "checkbox"))
              ∷ (text "checked", flag show_only_failed)
              ∷ (text "disabled", flag (not has_failed))
              ∷ [])
            []
          ++ element (text "span") [] (say (text "Mostrar apenas erros")))
        ++ element (text "button")
            ((text "class", string (text "ghost-button"))
              ∷ (text "type", string (text "button"))
              ∷ (text "disabled", flag (not has_failed))
              ∷ [])
            (say (text "Exportar erros CSV")))

abbrev pub meta : Text → Html
meta t = element (text "p") (classed (text "upload-meta")) (say t)

abbrev pub no_failed_message : Text
no_failed_message = text "Nenhum pagamento com erro encontrado."

abbrev pub no_payments_message : Text
no_payments_message = text "Nenhum pagamento carregado para este lote."

-- The end of the card: the message of an empty filter, and the table or its message.
unfoldable pub payment_list : Bool → Bool → List BatchPayment → Html
unfolding payment_table
payment_list admin_view show_only_failed visible =
    when (admin_view && (show_only_failed && (length visible == 0))) (
      element (text "p") (classed (text "upload-meta batch-payment-empty")) (say no_failed_message))
    ++ (if ltb 0 (length visible)
        then payment_table admin_view visible
        else meta no_payments_message)

unfoldable pub detail_part : CardProps → Bool → BatchDetail → Html
unfolding progress_panel counters payment_list failed_payments visible_payments
detail_part p show_only_failed d =
    element (text "p") (classed (text "upload-meta"))
      (element (text "strong") [] (say (text "Arquivo:")) ++ say (text " ") ++ say d.file_name)
    ++ (progress_panel p.progress
        ++ (when p.admin_view
              (admin_tools show_only_failed (ltb 0 (length (failed_payments p.detail))))
            ++ (if_present (truthy p.stream.last_error) meta
                ++ (counters d.total_payments d.status_count
                    ++ payment_list p.admin_view show_only_failed
                        (visible_payments p.admin_view show_only_failed p.detail)))))

unfoldable pub any_detail_part : CardProps → Bool → Option BatchDetail → Html
unfolding detail_part
any_detail_part p show_only_failed none = []
any_detail_part p show_only_failed (some d) = detail_part p show_only_failed d

-- `format` is `Intl.DateTimeFormat('pt-BR', …).format(new Date(value))`.
unfoldable pub batch_progress_card : (Text → Text) → CardProps → Bool → Html
unfolding any_detail_part stream_summary
batch_progress_card format p show_only_failed =
    element (text "section")
      ((text "class", string (text "status-card batch-progress-card"))
        ∷ (text "aria-label", string (text "Progresso do lote"))
        ∷ [])
      (element (text "div") (classed (text "card-header")) (
          element (text "div") [] (
            element (text "p") (classed (text "section-kicker")) (say (text "Lote atual"))
            ++ element (text "h2") []
                (say (if is_nonempty p.batch_id then p.batch_id else text "sem-id")))
          ++ stream_summary format p.stream)
        ++ ((if_present (truthy p.error_message) λ message.
              element (text "p")
                ((text "class", string (text "submit-error"))
                  ∷ (text "role", string (text "alert"))
                  ∷ [])
                (say message))
            ++ (when (p.is_loading && not (is_some p.detail)) (meta (text "Carregando lote..."))
                ++ any_detail_part p show_only_failed p.detail)))

-- `id ?? ''`
abbrev pub page_batch_id : Option Text → Text
page_batch_id id = id or_else []

unfoldable pub any_error : Option Failure → Option Text
unfolding batch_error_message
any_error none = none
any_error (some failure) = some (batch_error_message failure)

-- What both pages hand to the card: `id` is the route's parameter, `fetched` and `error` are the
-- results of the query, which is skipped where the id is empty.
unfoldable pub details_page_props :
    Bool → Option Text → BatchDetailsState → Option BatchDetail → Option Failure → Bool → CardProps
unfolding select_batch_detail select_batch_progress select_batch_stream_state any_error
details_page_props admin_view id state fetched error is_loading =
    let batch_id = page_batch_id id in
    let given = is_nonempty batch_id in
    let from_state = if given then select_batch_detail state batch_id else none in
    record {
      batch_id = batch_id;
      detail = elim from_state [ some d ↦ some d | none ↦ fetched ];
      progress =
          if given then select_batch_progress state batch_id else create_initial_progress_state;
      stream =
          if given then select_batch_stream_state state batch_id else create_initial_stream_state;
      is_loading = is_loading;
      error_message = any_error error;
      admin_view = admin_view;
    }
