-- ===== src/LoadTest/Durations/Rank.antt =====
-- run.mjs: the places in a sorted list that `percentile` takes.
use flash_pay.Prelude.{
  ℕ, zero, suc, ◌+◌, ◌-◌, ◌*◌, ◌/◌, ◌^◌, ◌≤◌, ◌<◌, ◌≡◌, refl, sym, ◌∙◌, Bool-cases, ◌⊎◌, inl, inr,
  ltb, arith,
}
use native.Mathlib.Nat.{one-le-pow, pow-suc, le-div_iff_mul-le, div-mul-le_self}
use flash_pay.Prelude.Double.{Double, round_even, halvings}
use flash_pay.Prelude.Double.Fuel.{round_even-near}
use flash_pay.LoadTest.Durations.{times_length, ceil, rank, half, ninety_five_percent}

half_parts : (half.significand ≡ 2 ^ 52) × (half.shift ≡ 53)
unfolding half
half_parts = (refl, refl)

ninety_five_parts :
    (ninety_five_percent.significand ≡ 8556839292003942) × (ninety_five_percent.shift ≡ 53)
unfolding ninety_five_percent
ninety_five_parts = (refl, refl)

unit_of_half : (n h : ℕ) → 2 ^ 53 ≤ n → (h ≡ 0) ⊎ (2 ^ 52 * 2 ^ h ≤ n / 2) → 2 ^ 52 * 2 ^ suc h ≤ n
unit_of_half n h large (inl none_more) = rw (none_more) (omega arith)
unit_of_half n h large (inr below) = omega (arith, pow-suc 2 h, below)

-- The unit of the rounding is 1, or at most the part `2 ^ 52` of the number.
halvings-unit : (fuel n : ℕ) → (halvings fuel n ≡ 0) ⊎ (2 ^ 52 * 2 ^ halvings fuel n ≤ n)
unfolding halvings
halvings-unit zero n = inl refl
halvings-unit (suc fuel) n = elim (Bool-cases (ltb n (2 ^ 53))) [
  | inl small ↦ rw small (inl refl)
  | inr large ↦
      rw large
        (inr (unit_of_half n (halvings fuel (n / 2)) (ground arith) (halvings-unit fuel (n / 2))))
]

abbrev rounding_unit : ℕ → ℕ
rounding_unit n = 2 ^ halvings 54 n

abbrev rounded_product : ℕ → ℕ
rounded_product n = round_even n (rounding_unit n) * rounding_unit n

rounding_unit-le : (n m : ℕ) → 0 < m → n ≤ 2 ^ 52 * m → rounding_unit n ≤ m
rounding_unit-le n m pos h = elim (halvings-unit 54 n) [
  | inl whole ↦ rw whole (omega arith)
  | inr part ↦ omega (arith, part, h)
]

half_below : (n : ℕ) → 0 < n → 2 * rounded_product (2 ^ 52 * n) ≤ 2 * (2 ^ 52 * n) + n
half_below n pos = omega (
  arith,
  (round_even-near (2 ^ 52 * n) (rounding_unit (2 ^ 52 * n))
      (one-le-pow (halvings 54 (2 ^ 52 * n)) 2 (omega arith))).1,
  rounding_unit-le (2 ^ 52 * n) n pos (omega arith),
)

ninety_five_above :
    (n : ℕ)
    → 0 < n
    → 2 * (8556839292003942 * n) ≤ 2 * rounded_product (8556839292003942 * n) + 2 * n
ninety_five_above n pos =
    let e = 8556839292003942 * n in
    omega (
      arith,
      (round_even-near e (rounding_unit e) (one-le-pow (halvings 54 e) 2 (omega arith))).0,
      rounding_unit-le e (2 * n) (omega arith) (omega arith),
    )

rounded_product-le :
    (n : ℕ) → 0 < n → rounded_product (2 ^ 52 * n) ≤ rounded_product (8556839292003942 * n)
rounded_product-le n pos = omega (arith, half_below n pos, ninety_five_above n pos)

times_length-le :
    (n : ℕ)
    → 0 < n
    → (times_length half n).significand ≤ (times_length ninety_five_percent n).significand
unfolding times_length
times_length-le n pos = rw (half_parts.0, ninety_five_parts.0) (rounded_product-le n pos)

ceil_mono : (x y : Double) → x.shift ≡ y.shift → x.significand ≤ y.significand → ceil x ≤ ceil y
unfolding ceil
ceil_mono x y e h = rw e (
    (le-div_iff_mul-le (one-le-pow y.shift 2 (omega arith))).1
      (omega (arith, div-mul-le_self (x.significand + (2 ^ y.shift - 1)) (2 ^ y.shift), h)))

same_shift : (n : ℕ) → (times_length half n).shift ≡ (times_length ninety_five_percent n).shift
unfolding times_length
same_shift n = half_parts.1 ∙ sym ninety_five_parts.1

-- The place of the median is not after that of the 95th percentile.
pub rank-le : (n : ℕ) → 0 < n → rank half n ≤ rank ninety_five_percent n
unfolding rank
rank-le n pos = omega (
  arith,
  ceil_mono (times_length half n) (times_length ninety_five_percent n) (same_shift n)
      (times_length-le n pos),
)

-- Each place lies in the list.
pub rank-lt : (p : Double) (n : ℕ) → 0 < n → rank p n < n
unfolding rank
rank-lt p n pos = omega arith
