-- ===== src/Upload/Laws.antt =====
-- BatchUploadCard.tsx: theorems on the selected file and what is shown of it.
use flash_pay.Prelude.{
  ℕ, zero, suc, Text, ◌≡◌, refl, sym, Bool-cases, inl, inr, true, false, Option, none, some, List,
  [], ◌∷◌, All, All-append, get_elem?,
}
use flash_pay.Csv.{CsvPreviewData, is_csv_file, parse_csv_preview}
use flash_pay.Upload.{
  File, UploadState, initial_upload_state, reject_file, begin_file, accept_file, finish_file,
  remove_at, UploadEvent, drag_over, drag_leave, file_dropped, file_chosen, content_read, begin_any,
  finish_any, upload_step, upload_steps,
}

abbrev Shows :
    (Text → Text) → Option File → Option Text → Option CsvPreviewData → Option Text → Type 0
Shows lower none name preview error = (name ≡ none) × (preview ≡ none)
Shows lower (some file) name preview error =
    (is_csv_file lower file.name ≡ true)
    × (name ≡ some file.name)
    × (preview ≡ parse_csv_preview file.content)
    × (error ≡ none)

-- The selected file is a CSV file, its name and the preview of its content are shown, and no error
-- is; without a selected file neither is shown.
abbrev pub IsShown : (Text → Text) → UploadState → Type 0
IsShown lower s = Shows lower s.selected_file s.selected_file_name s.preview s.validation_error

abbrev AllCsv : (Text → Text) → List File → Type 0
AllCsv lower = All λ f. is_csv_file lower f.name ≡ true

abbrev IsChecked : (Text → Text) → UploadState → Type 0
IsChecked lower s = IsShown lower s × AllCsv lower s.reading

module _ (lower : Text → Text) where
  begin_file-IsChecked :
      (s : UploadState) (file : File)
      → IsChecked lower s
      → IsChecked lower (begin_file lower s file)
  unfolding begin_file reject_file
  begin_file-IsChecked s file (shown, csv) = elim (Bool-cases (is_csv_file lower file.name)) [
    | inl accepted ↦ rw (accepted) (
      shown,
      All-append (λ f. is_csv_file lower f.name ≡ true) s.reading (file ∷ []) csv (accepted, tt),
    )
    | inr refused ↦ rw (refused) ((refl, refl), csv)
  ]

  begin_any-IsChecked :
      (s : UploadState) (file : Option File)
      → IsChecked lower s
      → IsChecked lower (begin_any lower s file)
  begin_any-IsChecked s none h = h
  begin_any-IsChecked s (some file) h = begin_file-IsChecked s file h

  accept_file-IsChecked :
      (s : UploadState) (file : File) (p : Option CsvPreviewData)
      → is_csv_file lower file.name ≡ true
      → parse_csv_preview file.content ≡ p
      → AllCsv lower s.reading
      → IsChecked lower (accept_file s file p)
  unfolding accept_file reject_file
  accept_file-IsChecked s file none accepted parsed csv = ((refl, refl), csv)
  accept_file-IsChecked s file (some p) accepted parsed csv =
      ((accepted, refl, sym parsed, refl), csv)

  All-remove_at :
      (n : ℕ) (files : List File) → AllCsv lower files → AllCsv lower (remove_at n files)
  All-remove_at n [] h = tt
  All-remove_at zero (f ∷ fs) (_, h) = h
  All-remove_at (suc n) (f ∷ fs) (csv, h) = (csv, All-remove_at n fs h)

  abbrev IsCsvAt : Option File → Type 0
  IsCsvAt none = Unit
  IsCsvAt (some f) = is_csv_file lower f.name ≡ true

  get_elem-IsCsvAt : (n : ℕ) (files : List File) → AllCsv lower files → IsCsvAt (get_elem? files n)
  get_elem-IsCsvAt n [] h = tt
  get_elem-IsCsvAt zero (f ∷ fs) (csv, _) = csv
  get_elem-IsCsvAt (suc n) (f ∷ fs) (_, h) = get_elem-IsCsvAt n fs h

  finish_any-IsChecked :
      (s : UploadState) (o : Option File)
      → IsCsvAt o
      → IsChecked lower s
      → IsChecked lower (finish_any s o)
  unfolding finish_file
  finish_any-IsChecked s none csv h = h
  finish_any-IsChecked s (some f) csv h =
      accept_file-IsChecked s f (parse_csv_preview f.content) csv refl h.1

  upload_step-IsChecked :
      (s : UploadState) (event : UploadEvent)
      → IsChecked lower s
      → IsChecked lower (upload_step lower s event)
  unfolding upload_step
  upload_step-IsChecked s drag_over h = h
  upload_step-IsChecked s drag_leave h = h
  upload_step-IsChecked s (file_dropped true file) h = h
  upload_step-IsChecked s (file_dropped false file) h =
      begin_any-IsChecked (record s { is_dragging = false }) file h
  upload_step-IsChecked s (file_chosen file) h = begin_any-IsChecked s file h
  upload_step-IsChecked s (content_read n) h =
      finish_any-IsChecked (record s { reading = remove_at n s.reading }) (get_elem? s.reading n)
        (get_elem-IsCsvAt n s.reading h.1) (h.0, All-remove_at n s.reading h.1)

  upload_steps_from-IsChecked :
      (s : UploadState) (events : List UploadEvent)
      → IsChecked lower s
      → IsChecked lower (upload_steps lower s events)
  unfolding upload_steps
  upload_steps_from-IsChecked s [] h = h
  upload_steps_from-IsChecked s (event ∷ events) h =
      upload_steps_from-IsChecked (upload_step lower s event) events
        (upload_step-IsChecked s event h)

  -- Whatever files are dropped and chosen and in whatever order they are read, the file that a
  -- submit would send is a CSV file whose name and whose preview are the ones shown, without an
  -- error; where no file would be sent, no name and no preview is shown.
  pub upload_steps-IsShown :
      (events : List UploadEvent) → IsShown lower (upload_steps lower initial_upload_state events)
  upload_steps-IsShown events =
      (upload_steps_from-IsChecked initial_upload_state events ((refl, refl), tt)).0
