-- ===== src/Prelude/Double.antt =====
-- Non-negative IEEE 754 doubles, as far as the quotient of two counts below 2 ^ 53 and its multiple
-- by 100 need: every such value is zero or in the normal range, so that rounding is to 53 bits.
pub mod Laws
pub mod Fuel
pub mod Accuracy
use Prim.Native.Nat.{ℕ, zero, suc, ◌+◌, ◌*◌, ◌/◌, ◌%◌, ◌^◌}
use flash_pay.Prelude.Tests.{ltb, leb, ◌==◌, if◌then◌else◌}

-- The number `significand / 2 ^ shift`.
pub record Double : Type 0 where
  pub significand : ℕ
  pub shift : ℕ

-- `n / d` to the nearest integer, a tie to the even one.
unfoldable pub round_even : ℕ → ℕ → ℕ
round_even n d =
    if ltb (2 * (n % d)) d
    then n / d
    else if ltb d (2 * (n % d))
    then n / d + 1
    else if n / d % 2 == 0
    then n / d
    else n / d + 1

-- How often `n / d` is doubled until it is at least 2 ^ 52 (fuel first).
unfoldable pub doublings : ℕ → ℕ → ℕ → ℕ
doublings zero n d = 0
doublings (suc fuel) n d =
    let rest = doublings fuel (2 * n) d in if leb (2 ^ 52 * d) n then 0 else suc rest

-- How often `n` is halved until it is below 2 ^ 53 (fuel first).
unfoldable pub halvings : ℕ → ℕ → ℕ
halvings zero n = 0
halvings (suc fuel) n = let rest = halvings fuel (n / 2) in if ltb n (2 ^ 53) then 0 else suc rest

-- `n / d` of two counts. At most 105 doublings are needed where `0 < n` and `d < 2 ^ 53`.
unfoldable pub divide : ℕ → ℕ → Double
unfolding round_even doublings
divide n d =
    let k = doublings 106 n d in record { significand = round_even (n * 2 ^ k) d; shift = k }

-- `x * m`, for a factor `m` of at most 2 ^ 11.
unfoldable pub multiply : Double → ℕ → Double
unfolding round_even halvings
multiply x m =
    let exact = x.significand * m in
    let drop = halvings 12 exact in
    record { significand = round_even exact (2 ^ drop) * 2 ^ drop; shift = x.shift }

-- `Math.round(x)`: the nearest integer, a tie upwards.
unfoldable pub round : Double → ℕ
round x = (2 * x.significand + 2 ^ x.shift) / (2 * 2 ^ x.shift)
