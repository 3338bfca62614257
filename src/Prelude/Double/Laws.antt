-- ===== src/Prelude/Double/Laws.antt =====
-- Scaling both counts of a quotient.
use Prim.Native.Nat.{ℕ, zero, suc, ◌*◌, ◌%◌, ◌^◌, ◌<◌, ◌≤◌}
use mathlib.Core.Path.{◌≡◌, refl, ap, ◌∙◌}
use native.Mathlib.Omega.{arith}
use native.Mathlib.Nat.{
  mul-div-mul_left, mul_left_comm, mul_assoc, div-add-mod, le_of_mul-le-mul_left, mul-le-mul_left,
  lt_of_mul-lt-mul_left, mul-lt-mul_of_pos_left, mul-one,
}
use flash_pay.Prelude.Tests.{ltb, leb}
use flash_pay.Prelude.Double.{round_even, doublings, divide, multiply, round}

module _ (g : ℕ) (pos : 0 < g) where
  leb-scale : (a b : ℕ) → leb (g * a) (g * b) ≡ leb a b
  leb-scale a b = ground (
    arith,
    λ (h : g * a ≤ g * b). le_of_mul-le-mul_left {m = a} {n = b} {k = g} h pos,
    λ (h : a ≤ b). mul-le-mul_left g h,
  )

  ltb-scale : (a b : ℕ) → ltb (g * a) (g * b) ≡ ltb a b
  ltb-scale a b = ground (
    arith,
    λ (h : g * a < g * b). lt_of_mul-lt-mul_left g {m = a} {n = b} h,
    λ (h : a < b). mul-lt-mul_of_pos_left {k = g} h pos,
  )

  mod-scale : (n d : ℕ) → g * n % (g * d) ≡ g * (n % d)
  mod-scale n d = omega (
    arith,
    ap (λ (t : ℕ). g * t) (div-add-mod n d),
    div-add-mod (g * n) (g * d),
    ap (λ (t : ℕ). g * d * t) (mul-div-mul_left n d pos),
  )

  round_even-scale : (n d : ℕ) → round_even (g * n) (g * d) ≡ round_even n d
  unfolding round_even
  round_even-scale n d =
      rw
        (
          mod-scale n d,
          mul-div-mul_left n d pos,
          mul_left_comm 2 g (n % d),
          ltb-scale (2 * (n % d)) d,
          ltb-scale d (2 * (n % d)),
        )
        refl

  doublings-scale : (fuel n d : ℕ) → doublings fuel (g * n) (g * d) ≡ doublings fuel n d
  unfolding doublings
  doublings-scale zero n d = refl
  doublings-scale (suc fuel) n d =
      rw
        (
          mul_left_comm 2 g n,
          mul_left_comm (2 ^ 52) g d,
          doublings-scale fuel (2 * n) d,
          leb-scale (2 ^ 52 * d) n,
        )
        refl

  pub divide-scale : (n d : ℕ) → divide (g * n) (g * d) ≡ divide n d
  unfolding divide
  divide-scale n d =
      rw
        (
          doublings-scale 106 n d,
          mul_assoc g n (2 ^ doublings 106 n d),
          round_even-scale (n * 2 ^ doublings 106 n d) d,
        )
        refl

-- A count over itself is exactly 1.
pub divide_self : (n : ℕ) → 0 < n → divide n n ≡ divide 1 1
divide_self n pos = rw (mul-one n) at (divide-scale n pos 1 1)

percent_of_one : round (multiply (divide 1 1) 100) ≡ 100
unfolding round multiply divide
percent_of_one = refl

pub percent_of_equal : (n : ℕ) → 0 < n → round (multiply (divide n n) 100) ≡ 100
percent_of_equal n pos = ap (λ x. round (multiply x 100)) (divide_self n pos) ∙ percent_of_one
