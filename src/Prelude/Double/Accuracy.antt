-- ===== src/Prelude/Double/Accuracy.antt =====
-- How far the rounded percentage of two counts is off the exact one.
use Prim.Native.Nat.{ℕ, suc, ◌+◌, ◌*◌, ◌^◌, ◌<◌, ◌≤◌}
use mathlib.Core.Path.{◌≡◌, refl, subst}
use native.Mathlib.Omega.{arith}
use native.Mathlib.Nat.{
  one-le-pow, mul-le-mul_left, mul-lt-mul_of_pos_left, lt_of_mul-lt-mul_left, le_of_mul-le-mul_left,
  div-add-mod, mod-lt, pow-le-pow_right,
}
use flash_pay.Prelude.Double.{Double, round_even, doublings, halvings, divide, multiply, round}
use flash_pay.Prelude.Double.Fuel.{doublings-full, doublings-stop, halvings-le, round_even-near}

-- `K` is the power of 2 of the quotient, `s` its significand, `m` that of the product and `p` the
-- rounded percentage.
module _ (n t K s m p : ℕ) (pos : 0 < t) (large : 228 < K) where
  near_above :
      2 * (s * t) ≤ 2 * (n * K) + t
      → 2 * m ≤ 2 * (s * 100) + 128
      → p * (2 * K) ≤ 2 * m + K
      → p * t < 100 * n + t
  near_above quotient product rounded =
      lt_of_mul-lt-mul_left (2 * K) {m = p * t} {n = 100 * n + t} (
        omega (
          arith,
          mul-le-mul_left t rounded,
          mul-le-mul_left t product,
          mul-lt-mul_of_pos_left {k = t} large pos,
          quotient,
        ))

  near_below :
      2 * (n * K) ≤ 2 * (s * t) + t
      → 2 * (s * 100) ≤ 2 * m + 128
      → 2 * m + K < p * (2 * K) + 2 * K
      → 100 * n < p * t + t
  near_below quotient product rounded =
      lt_of_mul-lt-mul_left (2 * K) {m = 100 * n} {n = p * t + t} (
        omega (
          arith,
          mul-lt-mul_of_pos_left {k = t} rounded pos,
          mul-le-mul_left t product,
          mul-lt-mul_of_pos_left {k = t} large pos,
          quotient,
        ))

-- The product with 100 is rounded to a multiple of at most 2 ^ 7.
multiply-near :
    (x : Double)
    → x.significand ≤ 2 ^ 53
    → (2 * (multiply x 100).significand ≤ 2 * (x.significand * 100) + 128)
      × (2 * (x.significand * 100) ≤ 2 * (multiply x 100).significand + 128)
unfolding multiply
multiply-near x small =
    let e = x.significand * 100 in
    let g = halvings 12 e in
    let unit : 2 ^ g ≤ 2 ^ 7 =
      pow-le-pow_right {n = 2} (omega arith) (halvings-le 12 e 7 (omega arith)) in
    let near = round_even-near e (2 ^ g) (one-le-pow g 2 (omega arith)) in
    (omega (arith, near.0, near.1, unit), omega (arith, near.0, near.1, unit))

round-near :
    (x : Double)
    → (round x * (2 * 2 ^ x.shift) ≤ 2 * x.significand + 2 ^ x.shift)
      × (2 * x.significand + 2 ^ x.shift < round x * (2 * 2 ^ x.shift) + 2 * 2 ^ x.shift)
unfolding round
round-near x =
    let K = 2 ^ x.shift in
    let pos : 0 < K = one-le-pow x.shift 2 (omega arith) in
    (
      omega (arith, div-add-mod (2 * x.significand + K) (2 * K)),
      omega (
        arith,
        div-add-mod (2 * x.significand + K) (2 * K),
        mod-lt (2 * x.significand + K) {m = 2 * K} (omega arith),
      ),
    )

below : (n t : ℕ) → 0 < n → n ≤ t → n < 2 ^ 53 * t
below n t pos le = omega arith

-- What is asked of a quotient: its significand is at most 2 ^ 53, its shift at least 52, and it is
-- near `n / t`.
abbrev IsQuotient : ℕ → ℕ → ℕ → ℕ → Type 0
IsQuotient n t k s =
    (s ≤ 2 ^ 53)
    × (2 ^ 52 ≤ 2 ^ k)
    × (2 * (n * 2 ^ k) ≤ 2 * (s * t) + t)
    × (2 * (s * t) ≤ 2 * (n * 2 ^ k) + t)

round_even-IsQuotient :
    (n t k : ℕ)
    → 0 < n
    → n ≤ t
    → 2 ^ 52 * t ≤ n * 2 ^ k
    → n * 2 ^ k < 2 ^ 53 * t
    → IsQuotient n t k (round_even (n * 2 ^ k) t)
round_even-IsQuotient n t k pos le full stop =
    let near = round_even-near (n * 2 ^ k) t (omega arith) in
    let s = round_even (n * 2 ^ k) t in
    (
      ground
          (arith, lt_of_mul-lt-mul_left t {m = s} {n = suc (2 ^ 53)} (omega (arith, near.1, stop))),
      le_of_mul-le-mul_left {m = 2 ^ 52} {n = 2 ^ k} {k = t}
          (omega (arith, full, mul-le-mul_left (2 ^ k) le)) (omega arith),
      near.0,
      near.1,
    )

divide-IsQuotient :
    (n t : ℕ)
    → 0 < n
    → n ≤ t
    → t < 2 ^ 53
    → IsQuotient n t (divide n t).shift (divide n t).significand
unfolding divide
divide-IsQuotient n t pos le small =
    round_even-IsQuotient n t (doublings 106 n t) pos le (doublings-full n t pos small)
      (doublings-stop 106 n t (below n t pos le))

multiply-shift : (x : Double) (m : ℕ) → (multiply x m).shift ≡ x.shift
unfolding multiply
multiply-shift x m = refl

-- The rounded percentage of `n` in `t` is less than 1 off `100 * n / t`.
pub round-percent :
    (n t : ℕ)
    → 0 < n
    → n ≤ t
    → t < 2 ^ 53
    → (round (multiply (divide n t) 100) * t < 100 * n + t)
      × (100 * n < round (multiply (divide n t) 100) * t + t)
round-percent n t pos le small =
    let x = divide n t in
    let m = multiply x 100 in
    let (fits, large, above, below) = divide-IsQuotient n t pos le small in
    let product = multiply-near x fits in
    let rounded = round-near m in
    (
      near_above n t (2 ^ x.shift) x.significand m.significand (round m) (omega arith)
          (omega (arith, large)) below product.0
          (subst (λ k. round m * (2 * 2 ^ k) ≤ 2 * m.significand + 2 ^ k) (multiply-shift x 100)
            rounded.0),
      near_below n t (2 ^ x.shift) x.significand m.significand (round m) (omega arith)
          (omega (arith, large)) above product.1
          (subst (λ k. 2 * m.significand + 2 ^ k < round m * (2 * 2 ^ k) + 2 * 2 ^ k)
            (multiply-shift x 100) rounded.1),
    )
