-- ===== src/LoadTest/Args/Usable.antt =====
-- run.mjs: what holds of the options whatever the command line is.
use flash_pay.Prelude.{
  ℕ, zero, suc, ◌<◌, Text, ◌≡◌, refl, Bool, true, false, Option, none, some, List, [], ◌∷◌,
  if◌then◌else◌, arith,
}
use mathlib.Core.Path.{subst}
use flash_pay.LoadTest.Outcome.{Outcome, done, thrown}
use flash_pay.LoadTest.Args.{
  Options, defaults, Integer, plus, minus, positive, parse_positive_int, parse_non_negative_int,
  Taken, flag, pair, refused, with_int, take_value, need_value, take_arg, parse_from, parse_args,
  parse_int,
}

-- There is something to do, and time to wait for it.
pub record IsUsable (o : Options) : Type 0 where
  pub some_users : 0 < o.users
  pub some_batches : 0 < o.batches_per_user
  pub some_rows : 0 < o.rows
  pub some_time : 0 < o.timeout_ms

data Keeps : Taken → Type 0 where
  by_flag : (o : Options) → IsUsable o → Keeps (flag o)
  by_pair : (o : Options) → IsUsable o → Keeps (pair o)
  by_refusal : (message : Text) → Keeps (refused message)

Keeps-if : (b : Bool) (s t : Taken) → Keeps s → Keeps t → Keeps (if b then s else t)
Keeps-if true s t h k = h
Keeps-if false s t h k = k

positive-pos : (name : Text) (i : Option Integer) (n : ℕ) → positive name i ≡ done n → 0 < n
positive-pos name none n h = cc
positive-pos name (some (plus zero)) n h = cc
positive-pos name (some (plus (suc k))) n h = ground arith
positive-pos name (some (minus k)) n h = cc

Keeps-with_int :
    (set : ℕ → Options) (m : Outcome ℕ)
    → ((n : ℕ) → m ≡ done n → IsUsable (set n))
    → Keeps (with_int set m)
Keeps-with_int set (done n) h = by_pair (set n) (h n refl)
Keeps-with_int set (thrown message) h = by_refusal message

Keeps-positive :
    (set : ℕ → Options) (name value : Text)
    → ((n : ℕ) → 0 < n → IsUsable (set n))
    → Keeps (with_int set (parse_positive_int value name))
unfolding parse_positive_int
Keeps-positive set name value h =
    Keeps-with_int set (positive name (parse_int value))
      (λ n e. h n (positive-pos name (parse_int value) n e))

Keeps-take_value : (o : Options) (arg next : Text) → IsUsable o → Keeps (take_value o arg next)
unfolding take_value
Keeps-take_value o arg next u =
    Keeps-if _ _ _ (by_pair (record o { base_url = next }) (ground arith)) (
      Keeps-if _ _ _ (Keeps-positive (λ n. record o { users = n }) arg next (λ n pos. ground arith))
        (Keeps-if _ _ _
          (Keeps-positive (λ n. record o { batches_per_user = n }) arg next (λ n pos. ground arith))
          (Keeps-if _ _ _
            (Keeps-positive (λ n. record o { rows = n }) arg next (λ n pos. ground arith))
            (Keeps-if _ _ _
              (Keeps-positive (λ n. record o { timeout_ms = n }) arg next (λ n pos. ground arith))
              (Keeps-if _ _ _
                (Keeps-with_int (λ n. record o { stagger_ms = n }) (parse_non_negative_int next arg)
                  (λ n e. ground arith))
                (Keeps-if _ _ _
                  (Keeps-with_int (λ n. record o { invalid_every = n })
                    (parse_non_negative_int next arg) (λ n e. ground arith))
                  (Keeps-if _ _ _ (by_pair (record o { password = next }) (ground arith))
                    (by_refusal _))))))))

Keeps-need_value :
    (o : Options) (arg : Text) (next : Option Text) → IsUsable o → Keeps (need_value o arg next)
unfolding need_value
Keeps-need_value o arg none u = by_refusal _
Keeps-need_value o arg (some next) u = Keeps-take_value o arg next u

Keeps-take_arg :
    (o : Options) (arg : Text) (next : Option Text) → IsUsable o → Keeps (take_arg o arg next)
unfolding take_arg
Keeps-take_arg o arg next u = Keeps-if _ _ _ (by_flag (record o { help = true }) (ground arith)) (
    Keeps-if _ _ _ (by_flag (record o { open_stream = false }) (ground arith)) (
      Keeps-if _ _ _ (by_flag (record o { verbose = true }) (ground arith))
        (Keeps-need_value o arg next u)))

abbrev Ends : Outcome Options → Type 0
Ends (done o) = IsUsable o
Ends (thrown _) = Unit

Ends-Keeps :
    (f g : Options → Outcome Options) (t : Taken)
    → Keeps t
    → ((o : Options) → IsUsable o → Ends (f o))
    → ((o : Options) → IsUsable o → Ends (g o))
    → Ends (elim t [ flag o ↦ f o | pair o ↦ g o | refused message ↦ thrown message ])
Ends-Keeps f g _ (by_flag o u) h k = h o u
Ends-Keeps f g _ (by_pair o u) h k = k o u
Ends-Keeps f g _ (by_refusal message) h k = tt

Ends-parse_from : (o : Options) (argv : List Text) → IsUsable o → Ends (parse_from o argv)
unfolding parse_from
Ends-parse_from o [] u = u
Ends-parse_from o (arg ∷ []) u =
    Ends-Keeps done done (take_arg o arg none) (Keeps-take_arg o arg none u) (λ o' k. k) (λ o' k. k)
Ends-parse_from o (arg ∷ next ∷ rest) u =
    Ends-Keeps (λ o'. parse_from o' (next ∷ rest)) (λ o'. parse_from o' rest)
      (take_arg o arg (some next)) (Keeps-take_arg o arg (some next) u)
      (λ o' k. Ends-parse_from o' (next ∷ rest) k) (λ o' k. Ends-parse_from o' rest k)

-- Whatever the command line is, if it is accepted then there are users, batches and rows, and a
-- timeout that is not 0.
pub parse_args-IsUsable : (argv : List Text) {o : Options} → parse_args argv ≡ done o → IsUsable o
unfolding parse_args
parse_args-IsUsable argv h = subst Ends h (Ends-parse_from defaults argv (omega arith))
