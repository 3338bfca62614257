-- ===== src/Prelude/Html.antt =====
-- What a component renders: the document in the order of its text, so that siblings are appended
-- and `null` is empty. The handlers of events are left out, and the keys of list items.
pub mod Controls
pub mod Skipped
use Prim.Native.Nat.{ℕ}
use mathlib.Core.Bool.{Bool, true, false}
use mathlib.Core.Option.{Option, none, some}
use mathlib.Core.List.{List, [], ◌∷◌, ◌++◌}
use mathlib.Core.Path.{◌≡◌, ◌∙◌}
use mathlib.Core.List.{append_assoc}
use flash_pay.Prelude.Texts.{Text, text}
use flash_pay.Prelude.Maps.{Map}

-- The value of an attribute; one that is `undefined` is left out of the list.
pub data Value : Type 0 where
  string : Text → Value
  flag : Bool → Value
  number : ℕ → Value

pub data Token : Type 0 where
  open_tag : Text → Map Value → Token
  close_tag : Token
  content : Text → Token

abbrev pub Html : Type 0
Html = List Token

abbrev pub element : Text → Map Value → Html → Html
element tag attributes children = open_tag tag attributes ∷ (children ++ close_tag ∷ [])

abbrev pub say : Text → Html
say t = content t ∷ []

-- `condition ? html : null`, `condition && html`
abbrev pub when : Bool → Html → Html
when true html = html
when false html = []

-- A text that is present and not empty, as a condition reads it.
abbrev pub truthy : Option Text → Option Text
truthy none = none
truthy (some []) = none
truthy (some (c ∷ s)) = some (c ∷ s)

abbrev pub if_present : Option Text → (Text → Html) → Html
if_present none html = []
if_present (some t) html = html t

abbrev pub each {ℓ} : {A : Type ℓ} → (A → Html) → List A → Html
each html [] = []
each html (x ∷ xs) = html x ++ each html xs

abbrev pub classed : Text → Map Value
classed c = (text "class", string c) ∷ []

abbrev pub th : Text → Html
th t = element (text "th") [] (say t)

abbrev pub td : Text → Html
td t = element (text "td") [] (say t)

-- `Link` of the router's library, as an element.
abbrev pub link : Text → Map Value → Html → Html
link to attributes = element (text "Link") ((text "to", string to) ∷ attributes)

-- The ends of three nested elements.
pub three_ends :
    (h : Html)
    → ((h ++ close_tag ∷ []) ++ close_tag ∷ []) ++ close_tag ∷ []
      ≡ h ++ close_tag ∷ close_tag ∷ close_tag ∷ []
three_ends h =
    append_assoc (h ++ close_tag ∷ []) (close_tag ∷ []) (close_tag ∷ [])
    ∙ append_assoc h (close_tag ∷ []) (close_tag ∷ close_tag ∷ [])
