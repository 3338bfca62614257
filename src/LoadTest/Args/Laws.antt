-- ===== src/LoadTest/Args/Laws.antt =====
-- run.mjs: the options that a command line gives.
use flash_pay.Prelude.{
  ℕ, ◌^◌, ◌<◌, Text, text, ◌≡◌, refl, ap, ◌∙◌, true, false, Option, none, some, List, [], ◌∷◌, ◌++◌,
  All, text_eq, decimal,
}
use flash_pay.LoadTest.Outcome.{done}
use flash_pay.LoadTest.Args.{
  Options, defaults, flag, pair, with_int, take_value, need_value, take_arg, parse_from, parse_args,
}
use flash_pay.LoadTest.Args.Numerals.{parse_positive_int-decimal, parse_non_negative_int-decimal}

-- A setting of the command line.
pub data Setting : Type 0 where
  help : Setting
  no_stream : Setting
  verbose : Setting
  base_url : Text → Setting
  users : ℕ → Setting
  batches_per_user : ℕ → Setting
  rows : ℕ → Setting
  timeout_ms : ℕ → Setting
  stagger_ms : ℕ → Setting
  invalid_every : ℕ → Setting
  password : Text → Setting

abbrev pub print_setting : Setting → List Text
print_setting help = text "--help" ∷ []
print_setting no_stream = text "--no-stream" ∷ []
print_setting verbose = text "--verbose" ∷ []
print_setting (base_url v) = text "--base-url" ∷ v ∷ []
print_setting (users n) = text "--users" ∷ decimal n ∷ []
print_setting (batches_per_user n) = text "--batches-per-user" ∷ decimal n ∷ []
print_setting (rows n) = text "--rows" ∷ decimal n ∷ []
print_setting (timeout_ms n) = text "--timeout-ms" ∷ decimal n ∷ []
print_setting (stagger_ms n) = text "--stagger-ms" ∷ decimal n ∷ []
print_setting (invalid_every n) = text "--invalid-every" ∷ decimal n ∷ []
print_setting (password v) = text "--password" ∷ v ∷ []

abbrev pub command_line : List Setting → List Text
command_line [] = []
command_line (s ∷ settings) = print_setting s ++ command_line settings

abbrev pub apply_setting : Options → Setting → Options
apply_setting o help = record o { help = true }
apply_setting o no_stream = record o { open_stream = false }
apply_setting o verbose = record o { verbose = true }
apply_setting o (base_url v) = record o { base_url = v }
apply_setting o (users n) = record o { users = n }
apply_setting o (batches_per_user n) = record o { batches_per_user = n }
apply_setting o (rows n) = record o { rows = n }
apply_setting o (timeout_ms n) = record o { timeout_ms = n }
apply_setting o (stagger_ms n) = record o { stagger_ms = n }
apply_setting o (invalid_every n) = record o { invalid_every = n }
apply_setting o (password v) = record o { password = v }

abbrev pub apply_settings : Options → List Setting → Options
apply_settings o [] = o
apply_settings o (s ∷ settings) = apply_settings (apply_setting o s) settings

abbrev IsPositive : ℕ → Type 0
IsPositive n = (0 < n) × (n < 2 ^ 53)

-- The numbers are below 2 ^ 53, and positive where the program wants that.
abbrev pub IsValid : Setting → Type 0
IsValid (users n) = IsPositive n
IsValid (batches_per_user n) = IsPositive n
IsValid (rows n) = IsPositive n
IsValid (timeout_ms n) = IsPositive n
IsValid (stagger_ms n) = n < 2 ^ 53
IsValid (invalid_every n) = n < 2 ^ 53
IsValid _ = Unit

parse_from-flag :
    (o o' : Options) (arg : Text) (rest : List Text)
    → ((next : Option Text) → take_arg o arg next ≡ flag o')
    → parse_from o (arg ∷ rest) ≡ parse_from o' rest
unfolding parse_from
parse_from-flag o o' arg [] taken = rw (taken none, parse_from) refl
parse_from-flag o o' arg (next ∷ rest) taken = rw (taken (some next), parse_from) refl

parse_from-pair :
    (o o' : Options) (arg next : Text) (rest : List Text)
    → take_arg o arg (some next) ≡ pair o'
    → parse_from o (arg ∷ next ∷ rest) ≡ parse_from o' rest
unfolding parse_from
parse_from-pair o o' arg next rest taken = rw (taken, parse_from) refl

parse_from-print_setting :
    (o : Options) (s : Setting) (rest : List Text)
    → IsValid s
    → parse_from o (print_setting s ++ rest) ≡ parse_from (apply_setting o s) rest
unfolding take_arg need_value take_value text_eq
parse_from-print_setting o help rest v = parse_from-flag o _ _ rest (λ next. refl)
parse_from-print_setting o no_stream rest v = parse_from-flag o _ _ rest (λ next. refl)
parse_from-print_setting o verbose rest v = parse_from-flag o _ _ rest (λ next. refl)
parse_from-print_setting o (base_url t) rest v = parse_from-pair o _ _ t rest refl
parse_from-print_setting o (users n) rest (pos, small) = parse_from-pair o _ _ (decimal n) rest (
    ap (with_int (λ k. record o { users = k }))
      (parse_positive_int-decimal n (text "--users") pos small))
parse_from-print_setting o (batches_per_user n) rest (pos, small) =
    parse_from-pair o _ _ (decimal n) rest (
      ap (with_int (λ k. record o { batches_per_user = k }))
        (parse_positive_int-decimal n (text "--batches-per-user") pos small))
parse_from-print_setting o (rows n) rest (pos, small) = parse_from-pair o _ _ (decimal n) rest (
    ap (with_int (λ k. record o { rows = k }))
      (parse_positive_int-decimal n (text "--rows") pos small))
parse_from-print_setting o (timeout_ms n) rest (pos, small) =
    parse_from-pair o _ _ (decimal n) rest (
      ap (with_int (λ k. record o { timeout_ms = k }))
        (parse_positive_int-decimal n (text "--timeout-ms") pos small))
parse_from-print_setting o (stagger_ms n) rest small = parse_from-pair o _ _ (decimal n) rest (
    ap (with_int (λ k. record o { stagger_ms = k }))
      (parse_non_negative_int-decimal n (text "--stagger-ms") small))
parse_from-print_setting o (invalid_every n) rest small = parse_from-pair o _ _ (decimal n) rest (
    ap (with_int (λ k. record o { invalid_every = k }))
      (parse_non_negative_int-decimal n (text "--invalid-every") small))
parse_from-print_setting o (password t) rest v = parse_from-pair o _ _ t rest refl

parse_from-command_line :
    (o : Options) (settings : List Setting)
    → All IsValid settings
    → parse_from o (command_line settings) ≡ done (apply_settings o settings)
parse_from-command_line o [] h = unfold parse_from in refl
parse_from-command_line o (s ∷ settings) (v, h) =
    parse_from-print_setting o s (command_line settings) v
    ∙ parse_from-command_line (apply_setting o s) settings h

-- A command line of settings is read as these settings, applied in their order to the defaults,
-- so that a later one overrides an earlier one, where each number is below 2 ^ 53, and positive
-- for the users, the batches, the rows and the timeout.
pub parse_args-command_line :
    (settings : List Setting)
    → All IsValid settings
    → parse_args (command_line settings) ≡ done (apply_settings defaults settings)
unfolding parse_args
parse_args-command_line settings h = parse_from-command_line defaults settings h
