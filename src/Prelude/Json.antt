-- ===== src/Prelude/Json.antt =====
-- The values that `JSON.parse` gives. A number is a non-negative integer here.
use Prim.Native.Nat.{ℕ}
use mathlib.Core.Bool.{Bool}
use mathlib.Core.Option.{Option, none, some}
use flash_pay.Prelude.Tests.{if◌then◌else◌}
use flash_pay.Prelude.Texts.{Text, text_eq}

mutual
  pub data Json : Type 0 where
    null : Json
    boolean : Bool → Json
    number : ℕ → Json
    string : Text → Json
    array : Items → Json
    object : Fields → Json

  pub data Items : Type 0 where
    nil : Items
    item : Json → Items → Items

  pub data Fields : Type 0 where
    end : Fields
    field : Text → Json → Fields → Fields

-- The field `k` of an object literal. `JSON.parse` keeps the last of two equal keys.
unfoldable pub get_field : Text → Fields → Option Json
get_field k end = none
get_field k (field j v fs) = elim (get_field k fs) [
  | some w ↦ some w
  | none ↦ if text_eq j k then some v else none
]

-- `v[k]` at a key that is no inherited property: `none` is `undefined`.
unfoldable pub property : Text → Json → Option Json
unfolding get_field
property k (object fs) = get_field k fs
property k _ = none
