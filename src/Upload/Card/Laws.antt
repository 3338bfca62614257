-- ===== src/Upload/Card/Laws.antt =====
-- BatchUploadCard.tsx: the controls that the card offers after any events.
use flash_pay.Prelude.{
  arith, ℕ, suc, Text, text, ◌≡◌, refl, ap, ◌∙◌, Bool, true, false, ◌||◌, not, Bool-cases, inl, inr,
  Option, none, some, List, [], ◌∷◌, ◌++◌, is_some, get_elem?, ◌or_else◌, decimal, lookup, text_eq,
}
use mathlib.Core.List.{append_assoc}
use flash_pay.Prelude.Html.{close_tag, element, truthy, if_present, each, th, td, classed}
use flash_pay.Prelude.Html.Controls.{disabled_flags, IsQuiet, IsQuiet-element}
use flash_pay.Prelude.Html.Skipped.{Skips-append, Skips-if_present, Skips-each}
use flash_pay.Failure.{Failure}
use flash_pay.Csv.{CsvPreviewRow, CsvPreviewData, is_csv_file, parse_csv_preview}
use flash_pay.Upload.{
  File, UploadState, initial_upload_state, reject_file, begin_file, accept_file, finish_file,
  remove_at, UploadEvent, drag_over, drag_leave, file_dropped, file_chosen, content_read, begin_any,
  finish_any, upload_step, upload_steps,
}
use flash_pay.Upload.Card.{
  preview_cells, preview_row, preview_table, labelled, preview_part, shown_error, error_alert,
  send_button, upload_card,
}

-- A preview is shown exactly where a file is selected.
abbrev HasBoth : UploadState → Type 0
HasBoth s = is_some s.preview ≡ is_some s.selected_file

HasBoth-begin_any :
    (lower : Text → Text) (s : UploadState) (file : Option File)
    → HasBoth s
    → HasBoth (begin_any lower s file)
unfolding begin_file reject_file
HasBoth-begin_any lower s none h = h
HasBoth-begin_any lower s (some file) h = elim (Bool-cases (is_csv_file lower file.name)) [
  | inl accepted ↦ rw (accepted) h
  | inr refused ↦ rw (refused) refl
]

HasBoth-accept_file :
    (s : UploadState) (file : File) (p : Option CsvPreviewData) → HasBoth (accept_file s file p)
unfolding accept_file reject_file
HasBoth-accept_file s file none = refl
HasBoth-accept_file s file (some p) = refl

HasBoth-finish_any :
    (s : UploadState) (file : Option File) → HasBoth s → HasBoth (finish_any s file)
unfolding finish_file
HasBoth-finish_any s none h = h
HasBoth-finish_any s (some file) h = HasBoth-accept_file s file (parse_csv_preview file.content)

HasBoth-upload_step :
    (lower : Text → Text) (s : UploadState) (event : UploadEvent)
    → HasBoth s
    → HasBoth (upload_step lower s event)
unfolding upload_step
HasBoth-upload_step lower s drag_over h = h
HasBoth-upload_step lower s drag_leave h = h
HasBoth-upload_step lower s (file_dropped true file) h = h
HasBoth-upload_step lower s (file_dropped false file) h =
    HasBoth-begin_any lower (record s { is_dragging = false }) file h
HasBoth-upload_step lower s (file_chosen file) h = HasBoth-begin_any lower s file h
HasBoth-upload_step lower s (content_read n) h =
    HasBoth-finish_any (record s { reading = remove_at n s.reading }) (get_elem? s.reading n) h

HasBoth-upload_steps :
    (lower : Text → Text) (s : UploadState) (events : List UploadEvent)
    → HasBoth s
    → HasBoth (upload_steps lower s events)
unfolding upload_steps
HasBoth-upload_steps lower s [] h = h
HasBoth-upload_steps lower s (event ∷ events) h =
    HasBoth-upload_steps lower (upload_step lower s event) events
      (HasBoth-upload_step lower s event h)

IsQuiet-td : (t : Text) → IsQuiet (td t)
unfolding disabled_flags
IsQuiet-td t rest = refl

IsQuiet-preview_cells :
    (headers : List Text) (column : ℕ) (values : List Text)
    → IsQuiet (preview_cells headers column values)
IsQuiet-preview_cells [] column values rest = refl
IsQuiet-preview_cells (header ∷ headers) column values rest =
    let cell = get_elem? values column or_else text "-" in
    Skips-append disabled_flags (td cell) (preview_cells headers (suc column) values)
      (IsQuiet-td cell) (IsQuiet-preview_cells headers (suc column) values) rest

IsQuiet-preview_row :
    (headers : List Text) (row : CsvPreviewRow) → IsQuiet (preview_row headers row)
unfolding lookup
IsQuiet-preview_row headers row =
    IsQuiet-element (text "tr") [] (preview_cells headers 0 row.values) refl
      (IsQuiet-preview_cells headers 0 row.values)

IsQuiet-head :
    (headers : List Text)
    → IsQuiet (element (text "thead") [] (element (text "tr") [] (each th headers)))
unfolding disabled_flags
IsQuiet-head headers =
    IsQuiet-element (text "thead") [] (element (text "tr") [] (each th headers)) refl (
      IsQuiet-element (text "tr") [] (each th headers) refl
        (Skips-each disabled_flags th (λ t rest. refl) headers))

IsQuiet-body :
    (headers : List Text) (rows : List CsvPreviewRow)
    → IsQuiet (element (text "tbody") [] (each (preview_row headers) rows))
unfolding lookup
IsQuiet-body headers rows =
    IsQuiet-element (text "tbody") [] (each (preview_row headers) rows) refl
      (Skips-each disabled_flags (preview_row headers) (IsQuiet-preview_row headers) rows)

IsQuiet-preview_table : (p : CsvPreviewData) → IsQuiet (preview_table p)
unfolding lookup text_eq
IsQuiet-preview_table p =
    let head = element (text "thead") [] (element (text "tr") [] (each th p.headers)) in
    let body = element (text "tbody") [] (each (preview_row p.headers) p.rows) in
    let table = element (text "table") (classed (text "preview-table")) (head ++ body) in
    IsQuiet-element (text "div") (classed (text "preview-table-wrapper")) table refl (
      IsQuiet-element (text "table") (classed (text "preview-table")) (head ++ body) refl (
        Skips-append disabled_flags head body (IsQuiet-head p.headers)
          (IsQuiet-body p.headers p.rows)))

IsQuiet-labelled : (label value : Text) → IsQuiet (labelled label value)
unfolding disabled_flags
IsQuiet-labelled label value rest = refl

IsQuiet-preview_part :
    (name : Option Text) (p : Option CsvPreviewData) → IsQuiet (preview_part name p)
unfolding preview_part lookup text_eq
IsQuiet-preview_part name none rest = refl
IsQuiet-preview_part name (some p) rest =
    let file = labelled (text "Arquivo:") (name or_else []) in
    let count = labelled (text "Pagamentos no arquivo:") (decimal p.total_rows) in
    IsQuiet-element (text "div") (classed (text "upload-summary"))
      (file ++ (count ++ preview_table p)) refl
      (Skips-append disabled_flags file (count ++ preview_table p)
        (IsQuiet-labelled (text "Arquivo:") (name or_else []))
        (Skips-append disabled_flags count (preview_table p)
          (IsQuiet-labelled (text "Pagamentos no arquivo:") (decimal p.total_rows))
          (IsQuiet-preview_table p)))
      rest

IsQuiet-error_alert : (message : Text) → IsQuiet (error_alert message)
unfolding disabled_flags
IsQuiet-error_alert message rest = refl

flags_of_card :
    (s : UploadState) (upload_error : Option Failure) (is_loading : Bool)
    → disabled_flags (upload_card s upload_error is_loading)
      ≡ is_loading ∷ (not (is_some s.preview) || (not (is_some s.selected_file) || is_loading)) ∷ []
unfolding upload_card disabled_flags
flags_of_card s upload_error is_loading =
    let alert = if_present (truthy (shown_error s upload_error)) error_alert in
    let part = preview_part s.selected_file_name s.preview in
    let button = send_button s is_loading in
    ap (λ l. is_loading ∷ l)
      (ap disabled_flags (append_assoc alert (part ++ button) (close_tag ∷ []))
        ∙ Skips-if_present disabled_flags (truthy (shown_error s upload_error)) error_alert
            IsQuiet-error_alert ((part ++ button) ++ close_tag ∷ [])
        ∙ ap disabled_flags (append_assoc part button (close_tag ∷ []))
        ∙ IsQuiet-preview_part s.selected_file_name s.preview (button ++ close_tag ∷ []))

both_lem : (a b l : Bool) → a ≡ b → (not a || (not b || l)) ≡ (l || not b)
both_lem true true true h = refl
both_lem true true false h = refl
both_lem false false true h = refl
both_lem false false false h = refl
both_lem true false l h = ground arith
both_lem false true l h = ground arith

-- After any events the card has two controls that can be disabled: the choice of a file is
-- disabled while a file is sent, and the button that sends it also where no file is selected.
pub disabled_flags-upload_card :
    (lower : Text → Text) (events : List UploadEvent) (upload_error : Option Failure)
    (is_loading : Bool)
    → let s = upload_steps lower initial_upload_state events in
      disabled_flags (upload_card s upload_error is_loading)
      ≡ is_loading ∷ (is_loading || not (is_some s.selected_file)) ∷ []
disabled_flags-upload_card lower events upload_error is_loading =
    let s = upload_steps lower initial_upload_state events in
    flags_of_card s upload_error is_loading
    ∙ ap (λ b. is_loading ∷ b ∷ [])
        (both_lem (is_some s.preview) (is_some s.selected_file) is_loading
          (HasBoth-upload_steps lower initial_upload_state events refl))
