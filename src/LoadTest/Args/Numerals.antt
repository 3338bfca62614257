-- ===== src/LoadTest/Args/Numerals.antt =====
-- run.mjs: the numbers that a command line gives.
use flash_pay.Prelude.{
  ℕ, zero, suc, ◌+◌, ◌*◌, ◌^◌, ◌<◌, ◌/◌, ◌%◌, Text, ◌≡◌, refl, ap, ◌∙◌, true, false, Bool-cases,
  inl, inr, some, [], ◌∷◌, ltb, lt→ltb, le→leb, ◌==◌, is_space, trim_start, digits_before, decimal,
  arith,
}
use flash_pay.Prelude.Double.{round_even, halvings}
use flash_pay.LoadTest.Outcome.{done}
use flash_pay.LoadTest.Args.{
  plus, is_digit, digits_value, nearest, unsigned_int, signed_int, parse_int, parse_positive_int,
  parse_non_negative_int,
}

halvings_small : (fuel n : ℕ) → n < 2 ^ 53 → halvings fuel n ≡ 0
unfolding halvings
halvings_small zero n h = refl
halvings_small (suc fuel) n h = rw (lt→ltb n (2 ^ 53) h) refl

round_even_one : (n : ℕ) → round_even n 1 ≡ n
unfolding round_even
round_even_one n = ground arith

nearest_exact : (n : ℕ) → n < 2 ^ 53 → nearest n ≡ some n
unfolding nearest
nearest_exact n h =
    rw (halvings_small 1100 n h, round_even_one n, lt→ltb (n * 1) (2 ^ 1024) (omega arith))
      (ap some (omega arith))

digits_value-digits_before :
    (fuel n : ℕ) (rest : Text)
    → n < fuel
    → digits_value 0 (digits_before fuel n rest) ≡ digits_value n rest
unfolding digits_value digits_before
digits_value-digits_before zero n rest h = elim h [ ]
digits_value-digits_before (suc fuel) n rest h = elim (Bool-cases (ltb n 10)) [
  | inl one ↦
      rw (one, le→leb 48 (48 + n) (omega arith), le→leb (48 + n) 57 (ground arith))
        (ap (λ m. digits_value m rest) (omega arith))
  | inr more ↦ rw more (
      digits_value-digits_before fuel (n / 10) ((48 + n % 10) ∷ rest) (ground arith)
      ∙ rw (le→leb 48 (48 + n % 10) (omega arith), le→leb (48 + n % 10) 57 (omega arith))
          (ap (λ m. digits_value m rest) (omega arith)))
]

-- The digits of a number.
abbrev IsDigits : Text → Type 0
IsDigits [] = ⊥
IsDigits (c ∷ s) = (is_digit c ≡ true)

IsDigits-digits_before :
    (fuel n : ℕ) (rest : Text) → n < fuel → IsDigits (digits_before fuel n rest)
unfolding digits_before
IsDigits-digits_before zero n rest h = elim h [ ]
IsDigits-digits_before (suc fuel) n rest h = elim (Bool-cases (ltb n 10)) [
  | inl one ↦ rw one (ground arith)
  | inr more ↦ rw more (IsDigits-digits_before fuel (n / 10) ((48 + n % 10) ∷ rest) (ground arith))
]

is_space_digit : (c : ℕ) → is_digit c ≡ true → is_space c ≡ false
unfolding is_space
is_space_digit c d = ground arith

no_sign : (c : ℕ) → is_digit c ≡ true → ((c == 45) ≡ false) × ((c == 43) ≡ false)
no_sign c d = (ground arith, ground arith)

parse_int-digits :
    (s : Text) (n : ℕ)
    → IsDigits s
    → digits_value 0 s ≡ n
    → n < 2 ^ 53
    → parse_int s ≡ some (plus n)
unfolding parse_int signed_int unsigned_int trim_start
parse_int-digits [] n d value small = elim d [ ]
parse_int-digits (c ∷ s) n d value small =
    rw (is_space_digit c d, (no_sign c d).0, (no_sign c d).1, d, value, nearest_exact n small) refl

-- The number that a numeral below 2 ^ 53 stands for is read back.
parse_int-decimal : (n : ℕ) → n < 2 ^ 53 → parse_int (decimal n) ≡ some (plus n)
unfolding decimal digits_value
parse_int-decimal n small =
    parse_int-digits (decimal n) n (IsDigits-digits_before (suc n) n [] (omega arith))
      (digits_value-digits_before (suc n) n [] (omega arith)) small

pub parse_positive_int-decimal :
    (n : ℕ) (arg : Text) → 0 < n → n < 2 ^ 53 → parse_positive_int (decimal n) arg ≡ done n
unfolding parse_positive_int
parse_positive_int-decimal zero arg pos small = elim pos [ ]
parse_positive_int-decimal (suc n) arg pos small = rw (parse_int-decimal (suc n) small) refl

pub parse_non_negative_int-decimal :
    (n : ℕ) (arg : Text) → n < 2 ^ 53 → parse_non_negative_int (decimal n) arg ≡ done n
unfolding parse_non_negative_int
parse_non_negative_int-decimal n arg small = rw (parse_int-decimal n small) refl
