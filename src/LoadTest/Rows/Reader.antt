-- ===== src/LoadTest/Rows/Reader.antt =====
-- run.mjs: a reader of CSV, and the file of `createCsv` read by it.
use flash_pay.Prelude.{
  ℕ, zero, suc, ◌+◌, Text, text, ◌≡◌, refl, ap, sym, ◌∙◌, Bool, true, false, ◌||◌, Bool-cases, inl,
  inr, Option, none, some, List, [], ◌∷◌, ◌++◌, map, length, All, any, join, ◌==◌, if◌then◌else◌,
  arith,
}
use mathlib.Core.List.{append_assoc, append-nil}
use mathlib.Core.Path.{subst}
use flash_pay.Export.{double_quotes}
use flash_pay.Export.RoundTrip.{NoQuote, read_value, read_value-double_quotes}
use flash_pay.LoadTest.Rows.{
  is_special, escape_if_special, header, row_values, valid_row, rows_from, create_csv,
}

abbrev cons_unit : ℕ → Text × Text → Text × Text
cons_unit c (v, rest) = (c ∷ v, rest)

-- A value without quotes: up to a comma or a line feed.
read_plain : Text → Text × Text
read_plain [] = ([], [])
read_plain (c ∷ s) =
    let rest = read_plain s in if c == 44 || c == 10 then ([], c ∷ s) else cons_unit c rest

-- A cell: a quoted value where it begins with a quote.
abbrev read_cell : Text → Option (Text × Text)
read_cell [] = some ([], [])
read_cell (c ∷ s) = if c == 34 then read_value s else some (read_plain (c ∷ s))

-- A cell ends here.
abbrev IsCellEnd : Text → Type 0
IsCellEnd [] = Unit
IsCellEnd (c ∷ s) = (c == 44 || c == 10) ≡ true

IsCellEnd-NoQuote : (s : Text) → IsCellEnd s → NoQuote s
IsCellEnd-NoQuote [] h = tt
IsCellEnd-NoQuote (c ∷ s) h = ground arith

read_plain-end : (rest : Text) → IsCellEnd rest → read_plain rest ≡ ([], rest)
unfolding read_plain
read_plain-end [] h = refl
read_plain-end (c ∷ s) h = rw h refl

plain_unit :
    (c : ℕ) (b : Bool)
    → (is_special c || b) ≡ false
    → ((c == 34) ≡ false) × ((c == 44 || c == 10) ≡ false) × (b ≡ false)
plain_unit c b h = (ground arith, ground arith, ground arith)

read_plain-append :
    (v rest : Text) → any is_special v ≡ false → IsCellEnd rest → read_plain (v ++ rest) ≡ (v, rest)
unfolding read_plain
read_plain-append [] rest plain h = read_plain-end rest h
read_plain-append (c ∷ v) rest plain h =
    let p = plain_unit c (any is_special v) plain in rw (p.1, read_plain-append v rest p.2 h) refl

read_cell-plain :
    (v rest : Text)
    → any is_special v ≡ false
    → IsCellEnd rest
    → read_cell (v ++ rest) ≡ some (v, rest)
read_cell-plain [] [] plain h = refl
read_cell-plain [] (c ∷ s) plain h =
    rw (IsCellEnd-NoQuote (c ∷ s) h) (ap some (read_plain-end (c ∷ s) h))
read_cell-plain (c ∷ v) rest plain h =
    rw ((plain_unit c (any is_special v) plain).0)
      (ap some (read_plain-append (c ∷ v) rest plain h))

read_cell-escape_if_special :
    (v rest : Text) → IsCellEnd rest → read_cell (escape_if_special v ++ rest) ≡ some (v, rest)
unfolding escape_if_special
read_cell-escape_if_special v rest h = elim (Bool-cases (any is_special v)) [
  | inl special ↦ rw special (
      ap read_value (append_assoc (double_quotes v) (34 ∷ []) rest)
      ∙ read_value-double_quotes v rest (IsCellEnd-NoQuote rest h))
  | inr plain ↦ rw plain (read_cell-plain v rest plain h)
]

abbrev cons_cell : Text → Option (List Text × Text) → Option (List Text × Text)
cons_cell v none = none
cons_cell v (some (vs, rest)) = some (v ∷ vs, rest)

abbrev last_cell : Option (Text × Text) → Option (List Text × Text)
last_cell none = none
last_cell (some (v, rest)) = some (v ∷ [], rest)

abbrev next_cell :
    (Text → Option (List Text × Text)) → Option (Text × Text) → Option (List Text × Text)
next_cell later none = none
next_cell later (some (v, [])) = none
next_cell later (some (v, c ∷ rest)) = if c == 44 then cons_cell v (later rest) else none

-- A record: the first cell, and as many more as stated.
read_record : ℕ → Text → Option (List Text × Text)
read_record zero s = last_cell (read_cell s)
read_record (suc n) s = next_cell (λ t. read_record n t) (read_cell s)

abbrev escaped_row : List Text → Text
escaped_row values = join (text ",") (map escape_if_special values)

read_record-escaped_row :
    (v : Text) (vs : List Text) (rest : Text)
    → IsCellEnd rest
    → read_record (length vs) (escaped_row (v ∷ vs) ++ rest) ≡ some (v ∷ vs, rest)
unfolding read_record join
read_record-escaped_row v [] rest h = ap last_cell (read_cell-escape_if_special v rest h)
read_record-escaped_row v (w ∷ vs) rest h =
    ap (λ s. next_cell (λ t. read_record (length vs) t) (read_cell s))
      (append_assoc (escape_if_special v) (44 ∷ escaped_row (w ∷ vs)) rest)
    ∙ ap (next_cell (λ t. read_record (length vs) t))
        (read_cell-escape_if_special v (44 ∷ (escaped_row (w ∷ vs) ++ rest)) refl)
    ∙ ap (cons_cell v) (read_record-escaped_row w vs rest h)

abbrev cons_values : List Text → Option (List (List Text)) → Option (List (List Text))
cons_values vs none = none
cons_values vs (some later) = some (vs ∷ later)

-- The records of a file of which each has six cells: the first, and as many more as stated, each
-- after a line feed; nothing may be left.
abbrev and_records :
    (Text → Option (List (List Text))) → Option (List Text × Text) → Option (List (List Text))
and_records later none = none
and_records later (some (vs, [])) = none
and_records later (some (vs, c ∷ rest)) = if c == 10 then cons_values vs (later rest) else none

abbrev only_record : Option (List Text × Text) → Option (List (List Text))
only_record none = none
only_record (some (vs, [])) = some (vs ∷ [])
only_record (some (vs, _ ∷ _)) = none

pub read_file : ℕ → Text → Option (List (List Text))
unfolding read_record
read_file zero s = only_record (read_record 5 s)
read_file (suc n) s = and_records (λ t. read_file n t) (read_record 5 s)

-- Six cells.
abbrev IsSix : List Text → Type 0
IsSix [] = ⊥
IsSix (v ∷ vs) = length vs ≡ 5

read_record-six :
    (vs : List Text) (rest : Text)
    → IsSix vs
    → IsCellEnd rest
    → read_record 5 (escaped_row vs ++ rest) ≡ some (vs, rest)
read_record-six [] rest six h = elim six [ ]
read_record-six (v ∷ vs) rest six h =
    subst (λ n. read_record n (escaped_row (v ∷ vs) ++ rest) ≡ some (v ∷ vs, rest)) six
      (read_record-escaped_row v vs rest h)

abbrev file_of : List (List Text) → Text
file_of rows = join (text "\n") (map escaped_row rows)

read_file-file_of :
    (vs : List Text) (rows : List (List Text))
    → All IsSix (vs ∷ rows)
    → read_file (length rows) (file_of (vs ∷ rows)) ≡ some (vs ∷ rows)
unfolding read_file join
read_file-file_of vs [] (six, _) =
    ap (λ s. only_record (read_record 5 s)) (sym (append-nil (escaped_row vs)))
    ∙ ap only_record (read_record-six vs [] six tt)
read_file-file_of vs (ws ∷ rows) (six, h) =
    ap (and_records (λ t. read_file (length rows) t))
      (read_record-six vs (10 ∷ file_of (ws ∷ rows)) six refl)
    ∙ ap (cons_values vs) (read_file-file_of ws rows h)

abbrev pub header_values : List Text
header_values =
    text "id"
    ∷ text "amount"
    ∷ text "recipient"
    ∷ text "description"
    ∷ text "payment_method"
    ∷ text "last_4_digits"
    ∷ []

header-escaped_row : header ≡ escaped_row header_values
unfolding escape_if_special join
header-escaped_row = refl

module _ (stamp : ℕ → Text) where
  -- The values of the rows, from an index on.
  abbrev pub all_values : (left index : ℕ) → List (List Text)
  unfolding row_values
  all_values zero index = []
  all_values (suc left) index = row_values stamp index ∷ all_values left (index + 1)

  length-all_values : (left index : ℕ) → length (all_values left index) ≡ left
  unfolding all_values
  length-all_values zero index = refl
  length-all_values (suc left) index = ap suc (length-all_values left (index + 1))

  all_values-IsSix : (left index : ℕ) → All IsSix (all_values left index)
  unfolding all_values
  all_values-IsSix zero index = tt
  all_values-IsSix (suc left) index = (refl, all_values-IsSix left (index + 1))

  rows_from-valid :
      (left index : ℕ) → rows_from stamp false left index ≡ map escaped_row (all_values left index)
  unfolding rows_from valid_row all_values
  rows_from-valid zero index = refl
  rows_from-valid (suc left) index =
      ap (λ l. valid_row stamp index ∷ l) (rows_from-valid left (index + 1))

  -- A reader of CSV gets the header and the values of all rows back from a valid file, whatever
  -- the ids are, texts with commas, quotes and line feeds included.
  pub read_file-create_csv :
      (rows : ℕ)
      → read_file rows (create_csv stamp rows false) ≡ some (header_values ∷ all_values rows 0)
  unfolding create_csv
  read_file-create_csv rows =
      ap (λ l. read_file rows (join (text "\n") (header ∷ l))) (rows_from-valid rows 0)
      ∙ subst
          (λ n.
            read_file n (file_of (header_values ∷ all_values rows 0))
            ≡ some (header_values ∷ all_values rows 0))
          (length-all_values rows 0)
          (read_file-file_of header_values (all_values rows 0) (refl, all_values-IsSix rows 0))
