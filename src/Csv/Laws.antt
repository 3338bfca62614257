-- ===== src/Csv/Laws.antt =====
-- csv.ts: the size of a preview.
use flash_pay.Prelude.{
  suc, ◌-◌, ◌≤◌, min, Text, ◌≡◌, refl, ap, ◌∙◌, Bool, true, false, none, some, List, map, length,
  length-map, length-take, length-drop, take, drop, ltb, if◌then◌else◌, arith,
}
use mathlib.Core.Path.{subst}
use mathlib.Core.Option.{some-injective}
use flash_pay.Csv.{
  CsvPreviewRow, CsvPreviewData, normalize_line, split_lines, filled_lines, preview_of,
  preview_lines, parse_csv_preview,
}

abbrev row_of : Text → CsvPreviewRow
row_of line = record { values = normalize_line line }

-- What `preview-size` states of a preview of these lines.
abbrev Fits : List Text → CsvPreviewData → Type 0
Fits lines p =
    (suc p.total_rows ≡ length lines) × (1 ≤ length p.rows) × (length p.rows ≡ min 10 p.total_rows)

preview_of-Fits : (lines : List Text) → 2 ≤ length lines → Fits lines (preview_of lines)
unfolding preview_of
preview_of-Fits lines h =
    let rows : length (map row_of (take 10 (drop 1 lines))) ≡ min 10 (length lines - 1) =
      length-map (take 10 (drop 1 lines)) row_of
      ∙ length-take 10 (drop 1 lines)
      ∙ ap (min 10) (length-drop 1 lines) in
    (omega arith, omega (arith, rows), rows)

-- A preview that is given comes from the second branch.
branch-some {ℓ} :
    {A : Type ℓ} (b : Bool) (q p : A)
    → (if b then none else some q) ≡ some p
    → (b ≡ false) × (q ≡ p)
branch-some true q p h = ground arith
branch-some false q p h = (refl, some-injective q p h)

preview_lines-Fits :
    (lines : List Text) (p : CsvPreviewData) → preview_lines lines ≡ some p → Fits lines p
unfolding preview_lines
preview_lines-Fits lines p h =
    let (many, same) = branch-some (ltb (length lines) 2) (preview_of lines) p h in
    subst (Fits lines) same (preview_of-Fits lines (ground (arith, many)))

-- A preview counts the lines that are not blank, the header left out, shows at least one row and
-- at most ten, and all of them where there are at most ten.
pub preview-size :
    (content : Text) (p : CsvPreviewData)
    → parse_csv_preview content ≡ some p
    → (suc p.total_rows ≡ length (filled_lines (split_lines content)))
      × (1 ≤ length p.rows)
      × (length p.rows ≡ min 10 p.total_rows)
unfolding parse_csv_preview preview_lines
preview-size content p h = preview_lines-Fits _ p h
