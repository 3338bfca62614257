-- ===== src/Prelude/Html/Controls.antt =====
-- The controls of a document that can be disabled.
use mathlib.Core.Path.{◌≡◌, ap, ◌∙◌}
use mathlib.Core.Bool.{Bool}
use mathlib.Core.Option.{Option, some}
use mathlib.Core.List.{List, [], ◌∷◌, ◌++◌, append_assoc}
use flash_pay.Prelude.Texts.{Text, text, text_eq}
use flash_pay.Prelude.Maps.{Map, lookup}
use flash_pay.Prelude.Html.Skipped.{Skips}
use flash_pay.Prelude.Html.{Value, flag, open_tag, close_tag, Html, element}

abbrev flag_value : Option Value → List Bool
flag_value (some (flag b)) = b ∷ []
flag_value _ = []

-- Whether they are disabled, in the order of the document.
unfoldable pub disabled_flags : Html → List Bool
unfolding lookup text_eq
disabled_flags [] = []
disabled_flags (open_tag tag attributes ∷ html) =
    flag_value (lookup (text "disabled") attributes) ++ disabled_flags html
disabled_flags (_ ∷ html) = disabled_flags html

-- A part of a document without such a control, wherever it stands.
abbrev pub IsQuiet : Html → Type 0
IsQuiet = Skips disabled_flags

pub IsQuiet-element :
    (tag : Text) (attributes : Map Value) (children : Html)
    → flag_value (lookup (text "disabled") attributes) ≡ []
    → IsQuiet children
    → IsQuiet (element tag attributes children)
unfolding disabled_flags
IsQuiet-element tag attributes children plain quiet rest =
    ap (λ l. l ++ disabled_flags ((children ++ close_tag ∷ []) ++ rest)) plain
    ∙ ap disabled_flags (append_assoc children (close_tag ∷ []) rest)
    ∙ quiet (close_tag ∷ rest)
