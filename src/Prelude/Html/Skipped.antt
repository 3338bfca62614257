-- ===== src/Prelude/Html/Skipped.antt =====
-- Parts of a document that a reader of it passes over.
use mathlib.Core.Path.{◌≡◌, refl, ap, ◌∙◌}
use mathlib.Core.Bool.{Bool, true, false}
use mathlib.Core.Option.{Option, none, some}
use mathlib.Core.List.{List, [], ◌∷◌, ◌++◌, append_assoc}
use flash_pay.Prelude.Texts.{Text}
use flash_pay.Prelude.Html.{Html, when, if_present, each}

module _ {X : Type 0} (f : Html → X) where
  -- Wherever the part stands, the reader gives what it gives without it.
  abbrev pub Skips : Html → Type 0
  Skips html = (rest : Html) → f (html ++ rest) ≡ f rest

  pub Skips-append : (g h : Html) → Skips g → Skips h → Skips (g ++ h)
  Skips-append g h skips_g skips_h rest =
      ap f (append_assoc g h rest) ∙ skips_g (h ++ rest) ∙ skips_h rest

  -- What the reader gives of a part and what follows it.
  pub after_skipped :
      (g h rest : Html) {x : X} → Skips g → f (h ++ rest) ≡ x → f ((g ++ h) ++ rest) ≡ x
  after_skipped g h rest skips e = ap f (append_assoc g h rest) ∙ skips (h ++ rest) ∙ e

  pub Skips-when : (b : Bool) (html : Html) → Skips html → Skips (when b html)
  Skips-when true html skips rest = skips rest
  Skips-when false html skips rest = refl

  pub Skips-if_present :
      (t : Option Text) (html : Text → Html)
      → ((s : Text) → Skips (html s))
      → Skips (if_present t html)
  Skips-if_present none html skips rest = refl
  Skips-if_present (some s) html skips rest = skips s rest

  pub Skips-each :
      {A : Type 0} (html : A → Html)
      → ((x : A) → Skips (html x))
      → (xs : List A) → Skips (each html xs)
  Skips-each html skips [] rest = refl
  Skips-each html skips (x ∷ xs) rest =
      Skips-append (html x) (each html xs) (skips x) (Skips-each html skips xs) rest
