-- ===== src/Csv.antt =====
-- apps/frontend/src/features/batches/utils/csv.ts: the preview of a CSV file before its upload.
pub mod Laws
pub mod LineEndings
use flash_pay.Prelude.{
  ℕ, suc, ◌-◌, Text, text, Bool, true, false, ◌&&◌, Option, none, some, List, [], ◌∷◌, map, ltb,
  ◌==◌, if◌then◌else◌, ◌or_else◌, length, take, drop, get_elem?, keep, is_nonempty, trim, split_at,
  cons_first, ends_with,
}

pub record CsvPreviewRow : Type 0 where
  pub values : List Text

pub record CsvPreviewData : Type 0 where
  pub headers : List Text
  pub rows : List CsvPreviewRow
  pub total_rows : ℕ

abbrev pub preview_limit : ℕ
preview_limit = 10

unfoldable pub normalize_line : Text → List Text
unfolding split_at trim
normalize_line line = map trim (split_at 44 line)

-- `lower` is `toLowerCase`.
unfoldable pub is_csv_file : (Text → Text) → Text → Bool
unfolding ends_with
is_csv_file lower name = ends_with (lower name) (text ".csv")

-- `content.split(/\r?\n/)`
unfoldable pub split_lines : Text → List Text
split_lines [] = [] ∷ []
split_lines (a ∷ []) = if a == 10 then [] ∷ [] ∷ [] else (a ∷ []) ∷ []
split_lines (a ∷ b ∷ s) = elim (a == 10) [
  | true ↦ [] ∷ split_lines (b ∷ s)
  | false ↦ elim ((a == 13) && (b == 10)) [
    | true ↦ [] ∷ split_lines s
    | false ↦ cons_first a (split_lines (b ∷ s))
  ]
]

-- The trimmed lines that are not empty.
unfoldable pub filled_lines : List Text → List Text
unfolding trim
filled_lines lines = keep is_nonempty (map trim lines)

unfoldable pub preview_of : List Text → CsvPreviewData
unfolding normalize_line
preview_of lines = record {
  headers = normalize_line (get_elem? lines 0 or_else []);
  rows = map (λ line. record { values = normalize_line line }) (take preview_limit (drop 1 lines));
  total_rows = length lines - 1;
}

unfoldable pub preview_lines : List Text → Option CsvPreviewData
unfolding preview_of
preview_lines lines = if ltb (length lines) 2 then none else some (preview_of lines)

unfoldable pub parse_csv_preview : Text → Option CsvPreviewData
unfolding split_lines filled_lines preview_lines
parse_csv_preview content = preview_lines (filled_lines (split_lines content))
