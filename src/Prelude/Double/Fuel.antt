-- ===== src/Prelude/Double/Fuel.antt =====
-- The fuel of the doublings and halvings, and the rounding of a quotient.
use Prim.Native.Nat.{ℕ, zero, suc, ◌+◌, ◌*◌, ◌/◌, ◌%◌, ◌^◌, ◌<◌, ◌≤◌}
use mathlib.Core.Path.{◌≡◌, refl, ap, ◌∙◌}
use mathlib.Core.Logic.{◌⊎◌, inl, inr}
use native.Mathlib.Omega.{arith}
use native.Mathlib.Nat.{pow-suc, div-add-mod, mod-lt}
use flash_pay.Prelude.Tests.{◌==◌, ltb, leb, leb→le, lt→ltb, not-leb→lt, Bool-cases}
use flash_pay.Prelude.Double.{round_even, doublings, halvings}

double_power : (n k : ℕ) → n * 2 ^ suc k ≡ 2 * n * 2 ^ k
double_power n k = ap (λ (p : ℕ). n * p) (pow-suc 2 k) ∙ omega arith

doublings-reach :
    (fuel n d : ℕ) → 2 ^ 52 * d ≤ n * 2 ^ fuel → 2 ^ 52 * d ≤ n * 2 ^ doublings fuel n d
unfolding doublings
doublings-reach zero n d h = h
doublings-reach (suc fuel) n d h = elim (Bool-cases (leb (2 ^ 52 * d) n)) [
  | inl reached ↦ rw (reached) (omega (arith, leb→le (2 ^ 52 * d) n reached))
  | inr below ↦ rw (below) (
      omega (
        arith,
        doublings-reach fuel (2 * n) d (omega (arith, h, double_power n fuel)),
        double_power n (doublings fuel (2 * n) d),
      ))
]

pub doublings-stop : (fuel n d : ℕ) → n < 2 ^ 53 * d → n * 2 ^ doublings fuel n d < 2 ^ 53 * d
unfolding doublings
doublings-stop zero n d h = omega arith
doublings-stop (suc fuel) n d h = elim (Bool-cases (leb (2 ^ 52 * d) n)) [
  | inl reached ↦ rw (reached) (omega arith)
  | inr below ↦ rw (below) (
      omega (
        arith,
        doublings-stop fuel (2 * n) d (omega (arith, not-leb→lt (2 ^ 52 * d) n below)),
        double_power n (doublings fuel (2 * n) d),
      ))
]

halvings-reach : (fuel n : ℕ) → n < 2 ^ 53 * 2 ^ fuel → n < 2 ^ 53 * 2 ^ halvings fuel n
unfolding halvings
halvings-reach zero n h = h
halvings-reach (suc fuel) n h = elim (Bool-cases (ltb n (2 ^ 53))) [
  | inl reached ↦ rw (reached) (ground arith)
  | inr above ↦ rw (above) (
      omega (
        arith,
        halvings-reach fuel (n / 2) (omega (arith, h, pow-suc 2 fuel)),
        pow-suc 2 (halvings fuel (n / 2)),
      ))
]

-- Where `n` is not 0, 105 doublings are enough for a divisor below 2 ^ 53.
pub doublings-full : (n d : ℕ) → 0 < n → d < 2 ^ 53 → 2 ^ 52 * d ≤ n * 2 ^ doublings 106 n d
doublings-full n d pos small = doublings-reach 106 n d (omega arith)

-- Down where the remainder is at most half of the divisor, up where it is at least that.
round_even-cases :
    (n d : ℕ)
    → ((round_even n d ≡ n / d) × (2 * (n % d) ≤ d))
      ⊎ ((round_even n d ≡ n / d + 1) × (d ≤ 2 * (n % d)))
unfolding round_even
round_even-cases n d = elim (Bool-cases (ltb (2 * (n % d)) d)) [
  | inl low ↦ inl (rw (low) refl, ground arith)
  | inr not_low ↦ elim (Bool-cases (ltb d (2 * (n % d)))) [
    | inl high ↦ inr (rw (not_low, high) refl, ground arith)
    | inr not_high ↦ elim (Bool-cases (n / d % 2 == 0)) [
      | inl even ↦ inl (rw (not_low, not_high, even) refl, ground arith)
      | inr odd ↦ inr (rw (not_low, not_high, odd) refl, ground arith)
    ]
  ]
]

-- The rounding is within half of the divisor.
pub round_even-near :
    (n d : ℕ)
    → 0 < d
    → (2 * n ≤ 2 * (round_even n d * d) + d) × (2 * (round_even n d * d) ≤ 2 * n + d)
round_even-near n d pos = elim (round_even-cases n d) [
  | inl (e, low) ↦ rw (e) (omega (arith, div-add-mod n d), omega (arith, div-add-mod n d))
  | inr (e, high) ↦
      rw (e) (omega (arith, div-add-mod n d), omega (arith, div-add-mod n d, mod-lt n pos))
]

pub halvings-le : (fuel n j : ℕ) → n < 2 ^ 53 * 2 ^ j → halvings fuel n ≤ j
unfolding halvings
halvings-le zero n j h = omega arith
halvings-le (suc fuel) n zero h = rw (lt→ltb n (2 ^ 53) (omega arith)) (omega arith)
halvings-le (suc fuel) n (suc j) h = elim (Bool-cases (ltb n (2 ^ 53))) [
  | inl reached ↦ rw (reached) (omega arith)
  | inr above ↦
      rw (above) (omega (arith, halvings-le fuel (n / 2) j (omega (arith, h, pow-suc 2 j))))
]
