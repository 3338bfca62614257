-- ===== src/LoadTest/Args.antt =====
-- run.mjs: `DEFAULTS`, `parseArgs`, `parsePositiveInt` and `parseNonNegativeInt`.
pub mod Laws
pub mod Usable
pub mod Numerals
use flash_pay.Prelude.{
  ℕ, zero, suc, ◌+◌, ◌-◌, ◌*◌, ◌^◌, Text, text, Bool, true, false, ◌&&◌, Option, none, some, List,
  [], ◌∷◌, ◌++◌, leb, ltb, ◌==◌, if◌then◌else◌, text_eq, is_nonempty, trim_start,
}
use flash_pay.Prelude.Double.{round_even, halvings}
use flash_pay.LoadTest.Outcome.{Outcome, done, thrown}

-- The field `help` is absent from the defaults, which reads as false.
pub record Options : Type 0 where
  pub base_url : Text
  pub users : ℕ
  pub batches_per_user : ℕ
  pub rows : ℕ
  pub timeout_ms : ℕ
  pub stagger_ms : ℕ
  pub invalid_every : ℕ
  pub open_stream : Bool
  pub password : Text
  pub verbose : Bool
  pub help : Bool

abbrev pub defaults : Options
defaults = record {
  base_url = text "http://localhost:8080";
  users = 3;
  batches_per_user = 2;
  rows = 50;
  timeout_ms = 120000;
  stagger_ms = 250;
  invalid_every = 0;
  open_stream = true;
  password = text "FlashPay.LoadTest.123!";
  verbose = false;
  help = false;
}

-- An integer that is a double: `minus n` is -n, so that `minus 0` is the negative zero.
pub data Integer : Type 0 where
  plus : ℕ → Integer
  minus : ℕ → Integer

abbrev pub is_digit : ℕ → Bool
is_digit c = leb 48 c && leb c 57

-- The value of the digits that a text begins with, after those that have the value `n`.
unfoldable pub digits_value : ℕ → Text → ℕ
digits_value n [] = n
digits_value n (c ∷ s) =
    let rest = digits_value (n * 10 + (c - 48)) s in if is_digit c then rest else n

abbrev pub has_digits : Text → Bool
has_digits [] = false
has_digits (c ∷ s) = is_digit c

-- The double nearest to an integer; `none` is infinity. A number of 2 ^ 1153 or more, for which
-- 1100 halvings are not enough, is infinite whatever its significand is rounded to.
unfoldable pub nearest : ℕ → Option ℕ
unfolding round_even halvings
nearest n =
    let k = halvings 1100 n in
    let m = round_even n (2 ^ k) * 2 ^ k in if ltb m (2 ^ 1024) then some m else none

abbrev pub signed : (ℕ → Integer) → Option ℕ → Option Integer
signed sign none = none
signed sign (some n) = some (sign n)

unfoldable pub unsigned_int : (ℕ → Integer) → Text → Option Integer
unsigned_int sign s = if has_digits s then signed sign (nearest (digits_value 0 s)) else none

abbrev pub signed_int : Text → Option Integer
unfolding unsigned_int
signed_int [] = none
signed_int (c ∷ s) =
    if c == 45
    then unsigned_int minus s
    else if c == 43
    then unsigned_int plus s
    else unsigned_int plus (c ∷ s)

-- `Number.parseInt(value, 10)`; `none` where that is no integer, `NaN` or an infinity.
unfoldable pub parse_int : Text → Option Integer
unfolding signed_int unsigned_int trim_start
parse_int value = signed_int (trim_start value)

abbrev pub positive : Text → Option Integer → Outcome ℕ
positive flag (some (plus (suc n))) = done (suc n)
positive flag _ = thrown (flag ++ text " must be a positive integer")

unfoldable pub parse_positive_int : Text → Text → Outcome ℕ
unfolding parse_int
parse_positive_int value flag = positive flag (parse_int value)

-- The negative zero is not below 0, and is used as 0.
abbrev pub non_negative : Text → Option Integer → Outcome ℕ
non_negative flag (some (plus n)) = done n
non_negative flag (some (minus zero)) = done 0
non_negative flag _ = thrown (flag ++ text " must be a non-negative integer")

unfoldable pub parse_non_negative_int : Text → Text → Outcome ℕ
unfolding parse_int
parse_non_negative_int value flag = non_negative flag (parse_int value)

-- What one round of the loop does: it takes an argument, or an argument and its value.
pub data Taken : Type 0 where
  flag : Options → Taken
  pair : Options → Taken
  refused : Text → Taken

abbrev pub with_int : (ℕ → Options) → Outcome ℕ → Taken
with_int set (done n) = pair (set n)
with_int set (thrown message) = refused message

-- The `switch`.
unfoldable pub take_value : Options → Text → Text → Taken
unfolding parse_positive_int parse_non_negative_int
take_value o arg next =
    if text_eq arg (text "--base-url")
    then pair (record o { base_url = next })
    else if text_eq arg (text "--users")
    then with_int (λ n. record o { users = n }) (parse_positive_int next arg)
    else if text_eq arg (text "--batches-per-user")
    then with_int (λ n. record o { batches_per_user = n }) (parse_positive_int next arg)
    else if text_eq arg (text "--rows")
    then with_int (λ n. record o { rows = n }) (parse_positive_int next arg)
    else if text_eq arg (text "--timeout-ms")
    then with_int (λ n. record o { timeout_ms = n }) (parse_positive_int next arg)
    else if text_eq arg (text "--stagger-ms")
    then with_int (λ n. record o { stagger_ms = n }) (parse_non_negative_int next arg)
    else if text_eq arg (text "--invalid-every")
    then with_int (λ n. record o { invalid_every = n }) (parse_non_negative_int next arg)
    else if text_eq arg (text "--password")
    then pair (record o { password = next })
    else refused (text "Unknown argument: " ++ arg)

abbrev pub need_value : Options → Text → Option Text → Taken
unfolding take_value
need_value o arg none = refused (text "Missing value for " ++ arg)
need_value o arg (some next) = take_value o arg next

unfoldable pub take_arg : Options → Text → Option Text → Taken
unfolding need_value
take_arg o arg next =
    if text_eq arg (text "--help")
    then flag (record o { help = true })
    else if text_eq arg (text "--no-stream")
    then flag (record o { open_stream = false })
    else if text_eq arg (text "--verbose")
    then flag (record o { verbose = true })
    else need_value o arg next

-- The loop, from the arguments that are left. A value is taken only where there is one.
unfoldable pub parse_from : Options → List Text → Outcome Options
unfolding take_arg
parse_from o [] = done o
parse_from o (arg ∷ []) = elim (take_arg o arg none) [
  | flag o' ↦ done o'
  | pair o' ↦ done o'
  | refused message ↦ thrown message
]
parse_from o (arg ∷ next ∷ rest) = elim (take_arg o arg (some next)) [
  | flag o' ↦ parse_from o' (next ∷ rest)
  | pair o' ↦ parse_from o' rest
  | refused message ↦ thrown message
]

unfoldable pub parse_args : List Text → Outcome Options
unfolding parse_from
parse_args argv = parse_from defaults argv
