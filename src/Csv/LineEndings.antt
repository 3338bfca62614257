-- ===== src/Csv/LineEndings.antt =====
-- csv.ts: files with the line endings of Windows and of Unix.
use flash_pay.Prelude.{
  ℕ, Text, text, ◌≡◌, refl, ap, sym, ◌∙◌, false, List, [], ◌∷◌, ◌++◌, ◌==◌, All, join, cons_first,
}
use mathlib.Core.List.{append-nil}
use flash_pay.Csv.{split_lines, preview_lines, filled_lines, parse_csv_preview}

-- Neither a line feed nor a carriage return.
abbrev pub IsLine : Text → Type 0
IsLine = All λ c. ((c == 10) ≡ false) × ((c == 13) ≡ false)

abbrev onto_first : Text → List Text → List Text
onto_first [] parts = parts
onto_first (c ∷ l) parts = cons_first c (onto_first l parts)

onto_first-cons : (l p : Text) (parts : List Text) → onto_first l (p ∷ parts) ≡ (l ++ p) ∷ parts
onto_first-cons [] p parts = refl
onto_first-cons (c ∷ l) p parts = ap (cons_first c) (onto_first-cons l p parts)

split_lines_plain :
    (c : ℕ) (s : Text)
    → (c == 10) ≡ false
    → (c == 13) ≡ false
    → split_lines (c ∷ s) ≡ cons_first c (split_lines s)
unfolding split_lines
split_lines_plain c [] feed return = rw (feed) refl
split_lines_plain c (b ∷ s) feed return = rw (feed, return, split_lines) refl

split_lines_line : (l y : Text) → IsLine l → split_lines (l ++ y) ≡ onto_first l (split_lines y)
split_lines_line [] y h = refl
split_lines_line (c ∷ l) y (plain, h) =
    split_lines_plain c (l ++ y) plain.0 plain.1 ∙ ap (cons_first c) (split_lines_line l y h)

-- An end of line: `\n` or `\r\n`.
data IsEnd : Text → Type 0 where
  unix : IsEnd (10 ∷ [])
  windows : IsEnd (13 ∷ 10 ∷ [])

split_lines-end : (end s : Text) → IsEnd end → split_lines (end ++ s) ≡ [] ∷ split_lines s
unfolding split_lines
split_lines-end _ [] unix = refl
split_lines-end _ (c ∷ s) unix = refl
split_lines-end _ s windows = refl

split_lines-nil : split_lines [] ≡ [] ∷ []
unfolding split_lines
split_lines-nil = refl

-- A text of lines is split into these lines.
split_lines-join :
    (end l : Text) (ls : List Text)
    → IsEnd end
    → All IsLine (l ∷ ls)
    → split_lines (join end (l ∷ ls)) ≡ l ∷ ls
unfolding join
split_lines-join end l [] e (line, _) =
    ap split_lines (sym (append-nil l))
    ∙ split_lines_line l [] line
    ∙ ap (onto_first l) split_lines-nil
    ∙ onto_first-cons l [] []
    ∙ ap (λ t. t ∷ []) (append-nil l)
split_lines-join end l (m ∷ ls) e (line, h) =
    let rest = join end (m ∷ ls) in
    split_lines_line l (end ++ rest) line
    ∙ ap (onto_first l) (split_lines-end end rest e)
    ∙ onto_first-cons l [] (split_lines rest)
    ∙ ap (λ t. t ∷ split_lines rest) (append-nil l)
    ∙ ap (λ r. l ∷ r) (split_lines-join end m ls e h)

-- Lines that are joined by `\r\n` have the preview that they have when joined by `\n`, where no
-- line holds a line feed or a carriage return.
pub parse_csv_preview-join :
    (l : Text) (ls : List Text)
    → All IsLine (l ∷ ls)
    → parse_csv_preview (join (text "\r\n") (l ∷ ls))
      ≡ parse_csv_preview (join (text "\n") (l ∷ ls))
unfolding parse_csv_preview
parse_csv_preview-join l ls h =
    ap (λ lines. preview_lines (filled_lines lines))
      (split_lines-join (13 ∷ 10 ∷ []) l ls windows h
        ∙ sym (split_lines-join (10 ∷ []) l ls unix h))
