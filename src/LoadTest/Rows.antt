-- ===== src/LoadTest/Rows.antt =====
-- run.mjs: `createCsv` and `escapeCsvValue`.
pub mod Reader
use flash_pay.Prelude.{
  ℕ, zero, suc, ◌+◌, ◌*◌, ◌/◌, ◌%◌, Text, text, Bool, true, false, ◌&&◌, ◌||◌, List, [], ◌∷◌, ◌++◌,
  map, ◌==◌, if◌then◌else◌, any, join, decimal,
}
use flash_pay.Export.{double_quotes}

-- `/[",\n]/.test(value)`
abbrev pub is_special : ℕ → Bool
is_special c = c == 34 || c == 44 || c == 10

unfoldable pub escape_if_special : Text → Text
unfolding double_quotes
escape_if_special value =
    if any is_special value then 34 ∷ (double_quotes value ++ 34 ∷ []) else value

abbrev pub header : Text
header = text "id,amount,recipient,description,payment_method,last_4_digits"

-- A number of cents as `toFixed(2)` prints it.
unfoldable pub cents_text : ℕ → Text
unfolding decimal
cents_text c = decimal (c / 100) ++ 46 ∷ (48 + c % 100 / 10) ∷ (48 + c % 10) ∷ []

-- `(10 + (index % 17) * 3.17).toFixed(2)`: each of the seventeen doubles is within 10 ^ -13 of its
-- number of cents, which `toFixed` rounds to.
unfoldable pub amount_text : ℕ → Text
unfolding cents_text
amount_text index = cents_text (1000 + index % 17 * 317)

abbrev pub payment_method : ℕ → Text
payment_method index = if index % 2 == 0 then text "pix" else text "credit_card"

-- `String(1000 + (index % 9000)).padStart(4, '0')`, which has four digits unpadded.
abbrev pub last_four_digits : ℕ → Text
last_four_digits index = decimal (1000 + index % 9000)

-- `stamp` gives `${Date.now()}-${Math.random().toString(16).slice(2, 10)}` for each row.
module _ (stamp : ℕ → Text) where
  abbrev pub load_id : ℕ → Text
  load_id index = text "load-" ++ (stamp index ++ (text "-" ++ decimal (index + 1)))

  abbrev pub row_values : ℕ → List Text
  unfolding amount_text
  row_values index =
      load_id index
      ∷ amount_text index
      ∷ (text "Load Recipient " ++ decimal (index + 1))
      ∷ (text "Batch row " ++ decimal (index + 1))
      ∷ payment_method index
      ∷ last_four_digits index
      ∷ []

  unfoldable pub valid_row : ℕ → Text
  unfolding row_values escape_if_special join
  valid_row index = join (text ",") (map escape_if_special (row_values index))

  -- No value is escaped here.
  unfoldable pub invalid_row : ℕ → Text
  unfolding join
  invalid_row index = join (text ",") (
      load_id index
      ∷ text "-1"
      ∷ (text "Load Recipient " ++ decimal (index + 1))
      ∷ (text "Batch row " ++ decimal (index + 1))
      ∷ payment_method index
      ∷ text "12AB"
      ∷ [])

  -- The loop, with the rounds that are left; the last round is at `rows - 1`.
  unfoldable pub rows_from : Bool → (left index : ℕ) → List Text
  unfolding valid_row invalid_row
  rows_from invalid zero index = []
  rows_from invalid (suc left) index =
      (if invalid && (left == 0) then invalid_row index else valid_row index)
      ∷ rows_from invalid left (index + 1)

  unfoldable pub create_csv : ℕ → Bool → Text
  unfolding rows_from join
  create_csv rows invalid = join (text "\n") (header ∷ rows_from invalid rows 0)
