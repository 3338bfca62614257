-- ===== src/LoadTest/Outcome.antt =====
-- run.mjs: a result, or the message of the error that is thrown.
use flash_pay.Prelude.{Text}

pub data Outcome {ℓ} (A : Type ℓ) : Type ℓ where
  done : A → Outcome A
  thrown : Text → Outcome A
