-- ===== src/Export/Card/Rows.antt =====
-- BatchProgressCard.tsx: the rows that a reader finds in the list of payments.
use flash_pay.Prelude.{
  ℕ, suc, Text, text, ◌≡◌, refl, ap, ◌∙◌, Bool, true, false, ◌&&◌, Option, none, some, List, [],
  ◌∷◌, ◌++◌, map, if◌then◌else◌, text_eq, ltb, lt→ltb, length, ◌==◌, arith,
}
use mathlib.Core.List.{append_assoc}
use flash_pay.Prelude.Html.{three_ends, open_tag, close_tag, content, Html, each}
use flash_pay.Batch.{BatchPayment}
use flash_pay.Export.{is_failed}
use flash_pay.Export.Card.{payment_list}
use flash_pay.Export.Card.Parts.{error_details, error_cell, payment_row, payment_table}

-- Where a reader of the rows is: outside a row, at its begin, in its first cell.
pub data Place : Type 0 where
  outside at_row in_cell : Place

unfoldable pub after_open : Text → Place → Place
unfolding text_eq
after_open tag at_row = if text_eq tag (text "td") then in_cell else outside
after_open tag _ = if text_eq tag (text "tr") then at_row else outside

-- The texts of the first cells of the rows.
unfoldable pub read_rows : Place → Html → List Text
unfolding after_open
read_rows place [] = []
read_rows place (open_tag tag attributes ∷ html) = read_rows (after_open tag place) html
read_rows place (close_tag ∷ html) = read_rows outside html
read_rows in_cell (content t ∷ html) = t ∷ read_rows outside html
read_rows outside (content t ∷ html) = read_rows outside html
read_rows at_row (content t ∷ html) = read_rows outside html

unfoldable pub first_cells : Html → List Text
unfolding read_rows
first_cells = read_rows outside

read_rows-error_cell :
    (failed : Bool) (message : Option Text) (rest : Html)
    → read_rows outside (error_cell failed message ++ close_tag ∷ close_tag ∷ rest)
      ≡ read_rows outside rest
unfolding read_rows error_cell error_details
read_rows-error_cell true none rest = refl
read_rows-error_cell true (some []) rest = refl
read_rows-error_cell true (some (c ∷ s)) rest = refl
read_rows-error_cell false none rest = refl
read_rows-error_cell false (some m) rest = refl

read_rows-payment_row :
    (admin_view : Bool) (p : BatchPayment) (rest : Html)
    → read_rows outside (payment_row admin_view p ++ rest) ≡ p.id ∷ read_rows outside rest
unfolding read_rows payment_row
read_rows-payment_row admin_view p rest =
    let cell = error_cell (admin_view && is_failed p) p.error_message in
    ap (λ l. p.id ∷ l)
      (ap (read_rows outside) (
          append_assoc (cell ++ close_tag ∷ []) (close_tag ∷ []) rest
          ∙ append_assoc cell (close_tag ∷ []) (close_tag ∷ rest))
        ∙ read_rows-error_cell (admin_view && is_failed p) p.error_message rest)

unfoldable pub ids_of : List BatchPayment → List Text
ids_of = map λ p. p.id

read_rows-each :
    (admin_view : Bool) (ps : List BatchPayment) (rest : Html)
    → read_rows outside (each (payment_row admin_view) ps ++ rest)
      ≡ ids_of ps ++ read_rows outside rest
unfolding ids_of
read_rows-each admin_view [] rest = refl
read_rows-each admin_view (p ∷ ps) rest =
    ap (read_rows outside)
      (append_assoc (payment_row admin_view p) (each (payment_row admin_view) ps) rest)
    ∙ read_rows-payment_row admin_view p (each (payment_row admin_view) ps ++ rest)
    ∙ ap (λ l. p.id ∷ l) (read_rows-each admin_view ps rest)

read_rows-payment_table :
    (admin_view : Bool) (ps : List BatchPayment) (rest : Html)
    → read_rows outside (payment_table admin_view ps ++ rest) ≡ ids_of ps ++ read_rows outside rest
unfolding payment_table read_rows
read_rows-payment_table admin_view ps rest =
    let rows = each (payment_row admin_view) ps in
    ap (λ h. read_rows outside (h ++ rest)) (three_ends rows)
    ∙ ap (read_rows outside) (append_assoc rows (close_tag ∷ close_tag ∷ close_tag ∷ []) rest)
    ∙ read_rows-each admin_view ps (close_tag ∷ close_tag ∷ close_tag ∷ rest)

some_long : {A : Type 0} (xs : List A) → ltb 0 (suc (length xs)) ≡ true
some_long xs = lt→ltb 0 (suc (length xs)) (omega arith)

not_none : (n : ℕ) → (suc n == 0) ≡ false
not_none n = ground arith

-- A list of payments that is not empty is shown as the table alone.
payment_list_some :
    (admin_view show_only_failed : Bool) (p : BatchPayment) (ps : List BatchPayment)
    → payment_list admin_view show_only_failed (p ∷ ps) ≡ payment_table admin_view (p ∷ ps)
unfolding payment_list
payment_list_some false show_only_failed p ps = rw (some_long ps) refl
payment_list_some true false p ps = rw (some_long ps) refl
payment_list_some true true p ps = rw (some_long ps, not_none (length ps)) refl

pub listed :
    (admin_view show_only_failed : Bool) (ps : List BatchPayment) (rest : Html)
    → read_rows outside (payment_list admin_view show_only_failed ps ++ rest)
      ≡ ids_of ps ++ read_rows outside rest
unfolding payment_list read_rows ids_of
listed admin_view show_only_failed (p ∷ ps) rest =
    ap (λ h. read_rows outside (h ++ rest)) (payment_list_some admin_view show_only_failed p ps)
    ∙ read_rows-payment_table admin_view (p ∷ ps) rest
listed false show_only_failed [] rest = refl
listed true false [] rest = refl
listed true true [] rest = refl
