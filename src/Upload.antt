-- ===== src/Upload.antt =====
-- apps/frontend/src/features/batches/components/BatchUploadCard.tsx: the state of the card and its
-- handlers. `handleFile` is cut at its await: the calls that await the content of their file are
-- part of the state, and they may be answered in any order.
pub mod Laws
pub mod Card
use flash_pay.Prelude.{
  ℕ, zero, suc, Text, text, Bool, true, false, not, Option, none, some, List, [], ◌∷◌, ◌++◌,
  if◌then◌else◌, get_elem?,
}
use flash_pay.Csv.{CsvPreviewData, is_csv_file, parse_csv_preview}

-- A file, with the content that reading it gives.
pub record File : Type 0 where
  pub name : Text
  pub content : Text

pub record UploadState : Type 0 where
  pub selected_file_name : Option Text
  pub selected_file : Option File
  pub preview : Option CsvPreviewData
  pub validation_error : Option Text
  pub is_dragging : Bool
  pub reading : List File

abbrev pub initial_upload_state : UploadState
initial_upload_state = record {
  selected_file_name = none;
  selected_file = none;
  preview = none;
  validation_error = none;
  is_dragging = false;
  reading = [];
}

abbrev pub not_csv : Text
not_csv = text "Selecione um arquivo com extensao .csv."

abbrev pub no_payments : Text
no_payments = text "O CSV precisa ter cabecalho e pelo menos uma linha de pagamento."

-- The writes of the two early returns.
unfoldable pub reject_file : UploadState → Text → UploadState
reject_file s message = record s {
  selected_file_name = none;
  selected_file = none;
  preview = none;
  validation_error = some message;
}

-- `handleFile` up to its await; `lower` is `toLowerCase`.
unfoldable pub begin_file : (Text → Text) → UploadState → File → UploadState
unfolding reject_file is_csv_file
begin_file lower s file =
    if not (is_csv_file lower file.name)
    then reject_file s not_csv
    else record s { reading = s.reading ++ file ∷ [] }

-- `handleFile` from its await on.
unfoldable pub accept_file : UploadState → File → Option CsvPreviewData → UploadState
unfolding reject_file
accept_file s file none = reject_file s no_payments
accept_file s file (some next_preview) = record s {
  selected_file_name = some file.name;
  selected_file = some file;
  preview = some next_preview;
  validation_error = none;
}

unfoldable pub finish_file : UploadState → File → UploadState
unfolding accept_file parse_csv_preview
finish_file s file = accept_file s file (parse_csv_preview file.content)

-- The list without its `n`-th member.
abbrev pub remove_at : ℕ → List File → List File
remove_at n [] = []
remove_at zero (f ∷ fs) = fs
remove_at (suc n) (f ∷ fs) = f ∷ remove_at n fs

pub data UploadEvent : Type 0 where
  drag_over drag_leave : UploadEvent
  file_dropped : (is_loading : Bool) → Option File → UploadEvent
  file_chosen : Option File → UploadEvent
  content_read : ℕ → UploadEvent

abbrev pub begin_any : (Text → Text) → UploadState → Option File → UploadState
begin_any lower s none = s
begin_any lower s (some file) = begin_file lower s file

abbrev pub finish_any : UploadState → Option File → UploadState
finish_any s none = s
finish_any s (some file) = finish_file s file

unfoldable pub upload_step : (Text → Text) → UploadState → UploadEvent → UploadState
unfolding begin_file finish_file
upload_step lower s drag_over = record s { is_dragging = true }
upload_step lower s drag_leave = record s { is_dragging = false }
upload_step lower s (file_dropped is_loading file) =
    let t = record s { is_dragging = false } in if is_loading then t else begin_any lower t file
upload_step lower s (file_chosen file) = begin_any lower s file
upload_step lower s (content_read n) =
    finish_any (record s { reading = remove_at n s.reading }) (get_elem? s.reading n)

unfoldable pub upload_steps : (Text → Text) → UploadState → List UploadEvent → UploadState
unfolding upload_step
upload_steps lower s [] = s
upload_steps lower s (event ∷ events) = upload_steps lower (upload_step lower s event) events
