-- ===== src/Export/RoundTrip.antt =====
-- BatchProgressCard.tsx: a reader of quoted CSV, and the export read by it.
use flash_pay.Prelude.{
  ℕ, zero, suc, Text, text, ◌≡◌, ◌≢◌, refl, ap, sym, ◌∙◌, true, false, Bool-cases, inl, inr, Option,
  none, some, List, [], ◌∷◌, ◌++◌, map, length, join, ◌==◌, ==_iff, length-append, if◌then◌else◌,
  arith,
}
use mathlib.Core.List.{append_assoc}
use flash_pay.Export.{double_quotes, escape_csv_value, csv_row}

abbrev pub cons_value : ℕ → Option (Text × Text) → Option (Text × Text)
cons_value c none = none
cons_value c (some (v, rest)) = some (c ∷ v, rest)

-- The rest of a quoted value (RFC 4180): a doubled quote is a quote, a single one ends the value.
unfoldable pub read_value : Text → Option (Text × Text)
read_value [] = none
read_value (a ∷ []) = if a == 34 then some ([], []) else none
read_value (a ∷ b ∷ s) = elim (a == 34) [
  | true ↦ elim (b == 34) [ true ↦ cons_value 34 (read_value s) | false ↦ some ([], b ∷ s) ]
  | false ↦ cons_value a (read_value (b ∷ s))
]

-- What follows a value does not begin with a quote.
abbrev pub NoQuote : Text → Type 0
NoQuote [] = Unit
NoQuote (c ∷ s) = (c == 34) ≡ false

read_value-plain :
    (a : ℕ) (s : Text)
    → (a == 34) ≡ false
    → s ≢ []
    → read_value (a ∷ s) ≡ cons_value a (read_value s)
unfolding read_value
read_value-plain a [] h ne = absurd (ne refl)
read_value-plain a (b ∷ s) h ne = rw (h, read_value) refl

read_value-quote : (s : Text) → read_value (34 ∷ 34 ∷ s) ≡ cons_value 34 (read_value s)
unfolding read_value
read_value-quote s = refl

cons-nonempty : (v : Text) (a : ℕ) (rest : Text) → v ++ a ∷ rest ≢ []
cons-nonempty v a rest h = omega (arith, ap length h ∙ refl, length-append v (a ∷ rest))

pub read_value-double_quotes :
    (v rest : Text) → NoQuote rest → read_value (double_quotes v ++ 34 ∷ rest) ≡ some (v, rest)
unfolding double_quotes
read_value-double_quotes [] [] h = unfold read_value in refl
read_value-double_quotes [] (b ∷ rest) h = unfold read_value in rw (h, read_value) refl
read_value-double_quotes (c ∷ v) rest h = elim (Bool-cases (c == 34)) [
  | inl quote ↦ rw (quote) (
      read_value-quote (double_quotes v ++ 34 ∷ rest)
      ∙ ap (λ r. cons_value 34 r) (read_value-double_quotes v rest h)
      ∙ ap (λ (k : ℕ). some (k ∷ v, rest)) (sym ((==_iff c 34).0 quote)))
  | inr other ↦ rw (other) (
      read_value-plain c (double_quotes v ++ 34 ∷ rest) other
        (cons-nonempty (double_quotes v) 34 rest)
      ∙ ap (cons_value c) (read_value-double_quotes v rest h))
]

abbrev open_value : Text → Option (Text × Text)
open_value [] = none
open_value (c ∷ s) = if c == 34 then read_value s else none

open_value-escape_csv_value :
    (v rest : Text) → NoQuote rest → open_value (escape_csv_value v ++ rest) ≡ some (v, rest)
unfolding escape_csv_value
open_value-escape_csv_value v rest h =
    ap read_value (append_assoc (double_quotes v) (34 ∷ []) rest)
    ∙ read_value-double_quotes v rest h

abbrev last_value : Option (Text × Text) → Option (List Text × Text)
last_value none = none
last_value (some (v, rest)) = some (v ∷ [], rest)

abbrev cons_row : Text → Option (List Text × Text) → Option (List Text × Text)
cons_row v none = none
cons_row v (some (vs, rest)) = some (v ∷ vs, rest)

abbrev next_value :
    (Text → Option (List Text × Text)) → Option (Text × Text) → Option (List Text × Text)
next_value later none = none
next_value later (some (v, [])) = none
next_value later (some (v, c ∷ rest)) = if c == 44 then cons_row v (later rest) else none

-- A row of quoted values with a comma between each two: the first, and as many more as stated.
unfoldable pub read_row : ℕ → Text → Option (List Text × Text)
unfolding read_value
read_row zero s = last_value (open_value s)
read_row (suc n) s = next_value (λ t. read_row n t) (open_value s)

read_row-last :
    (v rest : Text) → NoQuote rest → read_row 0 (escape_csv_value v ++ rest) ≡ some (v ∷ [], rest)
unfolding read_row
read_row-last v rest h = ap last_value (open_value-escape_csv_value v rest h)

read_row-next :
    (n : ℕ) (v tail : Text)
    → read_row (suc n) (escape_csv_value v ++ 44 ∷ tail) ≡ cons_row v (read_row n tail)
unfolding read_row
read_row-next n v tail =
    ap (next_value (λ t. read_row n t)) (open_value-escape_csv_value v (44 ∷ tail) refl)

-- A reader of quoted CSV gets the values of a row back, whatever texts they are: the values of
-- `csv_row` are read, and what follows the row is left, where that does not begin with a quote.
pub read_row-csv_row :
    (v : Text) (vs : List Text) (rest : Text)
    → NoQuote rest
    → read_row (length vs) (csv_row (v ∷ vs) ++ rest) ≡ some (v ∷ vs, rest)
unfolding csv_row
read_row-csv_row v [] rest h = read_row-last v rest h
read_row-csv_row v (w ∷ vs) rest h =
    ap (read_row (suc (length vs))) (
      append_assoc (escape_csv_value v) (44 ∷ join (text ",") (map escape_csv_value (w ∷ vs))) rest)
    ∙ read_row-next (length vs) v (join (text ",") (map escape_csv_value (w ∷ vs)) ++ rest)
    ∙ ap (cons_row v) (read_row-csv_row w vs rest h)
