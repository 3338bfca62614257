-- ===== src/Prelude/Numerals.antt =====
-- `String(n)` of a non-negative integer below 10 ^ 21: its decimal digits.
use Prim.Native.Nat.{ℕ, zero, suc, ◌+◌, ◌/◌, ◌%◌}
use mathlib.Core.List.{[], ◌∷◌}
use flash_pay.Prelude.Tests.{ltb, if◌then◌else◌}
use flash_pay.Prelude.Texts.{Text}

-- The digits of `n` before those of `rest` (fuel first). More than `n` rounds are never needed.
unfoldable pub digits_before : ℕ → ℕ → Text → Text
digits_before zero n rest = rest
digits_before (suc fuel) n rest =
    let more = digits_before fuel (n / 10) ((48 + n % 10) ∷ rest) in
    if ltb n 10 then (48 + n) ∷ rest else more

unfoldable pub decimal : ℕ → Text
unfolding digits_before
decimal n = digits_before (suc n) n []
