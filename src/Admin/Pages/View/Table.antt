-- ===== src/Admin/Pages/View/Table.antt =====
-- AdminBatchesPage.tsx: the table of the batches, grouped by their users.
use flash_pay.Prelude.{Text, text, List, [], ◌∷◌, ◌++◌, ◌==◌, if◌then◌else◌, length, decimal, Map}
use flash_pay.Prelude.Html.{
  number, Html, element, say, truthy, if_present, each, classed, th, td, link,
}
use flash_pay.Batch.{
  BatchPaymentStatus, pending, processing, success, failed, BatchStatusCount, AdminBatchSummary,
}
use flash_pay.Admin.{AdminUser}
use flash_pay.Admin.Groups.{Group, UserDisplay, get_user_display, group_batches_by_user}

abbrev pub admin_status_label : BatchPaymentStatus → Text
admin_status_label pending = text "Pendente"
admin_status_label processing = text "Em processamento"
admin_status_label success = text "Concluido"
admin_status_label failed = text "Falha"

abbrev pub status_pill_class_name : BatchPaymentStatus → Text
status_pill_class_name pending = text "payment-status-badge--pending"
status_pill_class_name processing = text "payment-status-badge--processing"
status_pill_class_name success = text "payment-status-badge--success"
status_pill_class_name failed = text "payment-status-badge--failed"

unfoldable pub get_status_summary : BatchStatusCount → Text
unfolding decimal
get_status_summary c =
    text "Pendente "
    ++ (decimal c.pending
        ++ (text " | Processando "
            ++ (decimal c.processing
                ++ (text " | Sucesso "
                    ++ (decimal c.success ++ (text " | Falha " ++ decimal c.failed))))))

unfoldable pub group_heading : Group → Html
unfolding decimal
group_heading group = element (text "tr") (classed (text "admin-batches-group-row")) (
    element (text "th") ((text "colspan", number 6) ∷ []) (
      element (text "div") (classed (text "admin-batches-group-heading")) (
        element (text "span") (classed (text "admin-batches-group-label")) (say group.user_label)
        ++ ((if_present (truthy group.user_email) λ email.
              element (text "span") (classed (text "admin-batches-group-meta")) (say email))
            ++ element (text "span") (classed (text "admin-batches-group-count")) (
                say (decimal (length group.batches))
                ++ say (text " lote")
                ++ say (if length group.batches == 1 then [] else text "s"))))))

-- `format` is `dateFormatter.format(new Date(value))`.
unfoldable pub batch_row : (Text → Text) → UserDisplay → AdminBatchSummary → Html
unfolding get_status_summary decimal
batch_row format user batch = element (text "tr") [] (
    element (text "td") [] (
      element (text "div") (classed (text "admin-batches-user-cell"))
        (element (text "strong") [] (say user.label) ++ element (text "span") [] (say user.email)))
    ++ (element (text "td") [] (
          element (text "div") (classed (text "admin-batches-file-cell")) (
            link (text "/admin/batches/" ++ batch.id) (classed (text "admin-batches-file-link"))
              (say batch.file_name)
            ++ (element (text "span")
                  (classed (text "payment-status-badge " ++ status_pill_class_name batch.status))
                  (say (admin_status_label batch.status))
                ++ element (text "span") (classed (text "admin-batches-row-meta"))
                    (say (get_status_summary batch.status_count)))))
        ++ (td (decimal batch.total_payments)
            ++ (td (decimal batch.status_count.success)
                ++ (td (decimal batch.status_count.failed) ++ td (format batch.created_at))))))

unfoldable pub group_part : (Text → Text) → Map AdminUser → Group → Html
unfolding group_heading batch_row get_user_display
group_part format users group =
    group_heading group
    ++ each (λ batch. batch_row format (get_user_display batch users) batch) group.batches

unfoldable pub batches_table : (Text → Text) → Map AdminUser → List AdminBatchSummary → Html
unfolding group_part group_batches_by_user
batches_table format users batches =
    element (text "div") (classed (text "preview-table-wrapper admin-batches-table-wrapper")) (
      element (text "table") (classed (text "preview-table admin-batches-table")) (
        element (text "thead") [] (
          element (text "tr") [] (
            th (text "Usuário")
            ++ (th (text "Arquivo")
                ++ (th (text "Total de pagamentos")
                    ++ (th (text "Sucesso") ++ (th (text "Falha") ++ th (text "Data")))))))
        ++ element (text "tbody") []
            (each (group_part format users) (group_batches_by_user batches users))))
