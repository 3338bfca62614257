-- ===== src/Upload/Card.antt =====
-- BatchUploadCard.tsx: what the card renders, and the sending of the selected file.
pub mod Laws
use flash_pay.Prelude.{
  ℕ, suc, Text, text, Bool, true, false, ◌||◌, not, Option, none, some, List, [], ◌∷◌, ◌++◌,
  if◌then◌else◌, ◌or_else◌, is_some, get_elem?, decimal,
}
use flash_pay.Prelude.Html.{
  string, flag, Html, element, say, truthy, if_present, each, classed, th, td,
}
use flash_pay.Failure.{Failure, upload_error_message}
use flash_pay.Csv.{CsvPreviewRow, CsvPreviewData}
use flash_pay.Upload.{File, UploadState}

-- `handleSubmit`: the file that is sent, and the page that follows a response with a batch id.
unfoldable pub submit_request : UploadState → Option File
submit_request s = s.selected_file

unfoldable pub after_upload : Option Text → Option Text
after_upload none = none
after_upload (some batch_id) = some (text "/batches/" ++ batch_id)

-- The error of the file before that of the upload.
unfoldable pub shown_error : UploadState → Option Failure → Option Text
unfolding upload_error_message decimal
shown_error s upload_error = elim s.validation_error [
  | some message ↦ some message
  | none ↦ elim upload_error [
    | none ↦ none
    | some failure ↦ some (upload_error_message decimal failure)
  ]
]

-- The cells of a row, one for each header from the given column on.
abbrev pub preview_cells : List Text → ℕ → List Text → Html
preview_cells [] column values = []
preview_cells (header ∷ headers) column values =
    td (get_elem? values column or_else text "-") ++ preview_cells headers (suc column) values

abbrev pub preview_row : List Text → CsvPreviewRow → Html
preview_row headers row = element (text "tr") [] (preview_cells headers 0 row.values)

abbrev pub preview_table : CsvPreviewData → Html
preview_table p = element (text "div") (classed (text "preview-table-wrapper")) (
    element (text "table") (classed (text "preview-table")) (
      element (text "thead") [] (element (text "tr") [] (each th p.headers))
      ++ element (text "tbody") [] (each (preview_row p.headers) p.rows)))

abbrev pub labelled : Text → Text → Html
labelled label value =
    element (text "p") (classed (text "upload-meta"))
      (element (text "strong") [] (say label) ++ (say (text " ") ++ say value))

-- A `selectedFileName` that is null is rendered as no text.
unfoldable pub preview_part : Option Text → Option CsvPreviewData → Html
unfolding decimal
preview_part name none = []
preview_part name (some p) = element (text "div") (classed (text "upload-summary")) (
    labelled (text "Arquivo:") (name or_else [])
    ++ (labelled (text "Pagamentos no arquivo:") (decimal p.total_rows) ++ preview_table p))

abbrev pub dropzone : Bool → Bool → Html
dropzone is_dragging is_loading =
    element (text "label")
      (classed (text "upload-dropzone" ++ (if is_dragging then text " is-dragging" else [])))
      (element (text "input")
          ((text "class", string (text "sr-only"))
            ∷ (text "type", string (text "file"))
            ∷ (text "aria-label", string (text "Selecionar arquivo CSV"))
            ∷ (text "accept", string (text ".csv,text/csv"))
            ∷ (text "disabled", flag is_loading)
            ∷ [])
          []
        ++ (element (text "span") (classed (text "upload-title"))
              (say (text "Arraste um CSV aqui ou clique para selecionar"))
            ++ element (text "span") (classed (text "upload-subtitle"))
                (say (text "O preview mostra as primeiras 10 linhas antes do envio."))))

abbrev pub error_alert : Text → Html
error_alert message =
    element (text "p")
      ((text "class", string (text "submit-error")) ∷ (text "role", string (text "alert")) ∷ [])
      (say message)

abbrev pub send_button : UploadState → Bool → Html
send_button s is_loading =
    element (text "button")
      ((text "class", string (text "primary-button"))
        ∷ (text "type", string (text "button"))
        ∷ (
          text "disabled",
          flag (not (is_some s.preview) || (not (is_some s.selected_file) || is_loading)),
        )
        ∷ [])
      (say (if is_loading then text "Enviando lote..." else text "Enviar Lote"))

unfoldable pub upload_card : UploadState → Option Failure → Bool → Html
unfolding preview_part shown_error
upload_card s upload_error is_loading = element (text "section") (classed (text "status-card")) (
    element (text "div") (classed (text "card-header")) (
      element (text "div") [] (
        element (text "p") (classed (text "section-kicker")) (say (text "Lote CSV"))
        ++ element (text "h2") [] (say (text "Upload e pre-visualizacao"))))
    ++ (dropzone s.is_dragging is_loading
        ++ (if_present (truthy (shown_error s upload_error)) error_alert
            ++ (preview_part s.selected_file_name s.preview ++ send_button s is_loading))))
