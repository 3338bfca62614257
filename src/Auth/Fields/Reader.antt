-- ===== src/Auth/Fields/Reader.antt =====
-- LoginForm.tsx and RegisterForm.tsx: what a reader of a form finds.
use flash_pay.Prelude.{
  Text, text, Bool, false, ◌&&◌, Option, none, some, List, [], ◌∷◌, ◌++◌, if◌then◌else◌, text_eq,
  lookup,
}
use flash_pay.Prelude.Html.{Value, string, flag, open_tag, content, Html}

unfoldable pub has_text : Text → Option Value → Bool
unfolding text_eq
has_text t (some (string s)) = text_eq s t
has_text t _ = false

abbrev pub is_flagged : Option Value → Bool
is_flagged (some (flag b)) = b
is_flagged _ = false

abbrev pub first_text : Html → Option Text
first_text (content t ∷ html) = some t
first_text _ = none

-- The text with which the first alert with this id begins.
unfoldable pub alert_at : Text → Html → Option Text
unfolding lookup has_text
alert_at id [] = none
alert_at id (open_tag tag attributes ∷ html) =
    let rest = alert_at id html in
    if has_text id (lookup (text "id") attributes)
      && has_text (text "alert") (lookup (text "role") attributes)
    then first_text html
    else rest
alert_at id (_ ∷ html) = alert_at id html

-- What an input is described by, in the whole document.
unfoldable pub described : Html → Option Value → Option Text
unfolding alert_at
described whole (some (string id)) = alert_at id whole
described whole _ = none

-- Whether each input is invalid, and the alert that describes it.
unfoldable pub inputs : Html → Html → List (Bool × Option Text)
unfolding lookup text_eq described
inputs whole [] = []
inputs whole (open_tag tag attributes ∷ html) =
    let rest = inputs whole html in
    if text_eq tag (text "input")
    then (
      is_flagged (lookup (text "aria-invalid") attributes),
      described whole (lookup (text "aria-describedby") attributes),
    )
      ∷ rest
    else rest
inputs whole (_ ∷ html) = inputs whole html

abbrev pub present : Option Text → List Text
present none = []
present (some t) = t ∷ []

-- The texts with which the alerts begin.
unfoldable pub alerts : Html → List Text
unfolding lookup has_text
alerts [] = []
alerts (open_tag tag attributes ∷ html) =
    let rest = alerts html in
    if has_text (text "alert") (lookup (text "role") attributes)
    then present (first_text html) ++ rest
    else rest
alerts (_ ∷ html) = alerts html
