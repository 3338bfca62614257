-- ===== src/Details/Precision.antt =====
-- batchDetailsSlice.ts: how far the percentage, computed in doubles, is off the exact one.
use flash_pay.Prelude.{ℕ, zero, suc, ◌+◌, ◌*◌, ◌^◌, ◌≤◌, ◌<◌, min, ◌≡◌, refl, false, ◌==◌, arith}
use native.Mathlib.Nat.{lt_of_mul-lt-mul_left}
use flash_pay.Prelude.Double.{divide, multiply, round}
use flash_pay.Prelude.Double.Accuracy.{round-percent}
use flash_pay.Details.{percent_of}
use flash_pay.Details.Progress.{percent_of_none}

positive_not_zero : (t : ℕ) → 0 < t → (t == 0) ≡ false
positive_not_zero t pos = ground arith

-- What the theorem states of a percentage.
abbrev IsNear : ℕ → ℕ → ℕ → Type 0
IsNear total done p = (p * total < 100 * done + total) × (100 * done < p * total + total)

near_le : (total done p : ℕ) → done ≤ total → IsNear total done p → min 100 p ≡ p
near_le total done p le near =
    ground (arith, lt_of_mul-lt-mul_left total {m = p} {n = 101} (omega (arith, near.0)))

percent_of-round :
    (total done : ℕ)
    → 0 < total
    → percent_of total done ≡ min 100 (round (multiply (divide done total) 100))
unfolding percent_of
percent_of-round total done pos = rw (positive_not_zero total pos) refl

-- Where at most all of fewer than 2 ^ 53 payments are complete, the percentage shown is less than
-- 1 off the exact one, from above and from below.
pub percent_of-near :
    (total done : ℕ)
    → 0 < total
    → done ≤ total
    → total < 2 ^ 53
    → (percent_of total done * total < 100 * done + total)
      × (100 * done < percent_of total done * total + total)
percent_of-near total zero pos le small = rw (percent_of_none total) (omega arith, omega arith)
percent_of-near total (suc d) pos le small =
    let near = round-percent (suc d) total (omega arith) le small in
    rw (percent_of-round total (suc d) pos, near_le total (suc d) _ le near) near
