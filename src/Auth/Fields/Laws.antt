-- ===== src/Auth/Fields/Laws.antt =====
-- LoginForm.tsx and RegisterForm.tsx: the alerts that a reader of the page is given, and the inputs
-- that refer to them.
use flash_pay.Prelude.{
  ℕ, Text, text, ◌≡◌, refl, ap, sym, ◌∙◌, Bool, false, Option, none, some, List, [], ◌∷◌, ◌++◌, map,
  is_some, text_eq, text_eq_iff, All,
}
use mathlib.Core.Path.{subst}
use mathlib.Core.List.{append_assoc, append-nil}
use flash_pay.Prelude.Html.{close_tag, Html, element, truthy}
use flash_pay.Auth.Submit.{RegisterState}
use flash_pay.Auth.Fields.{
  labelled_field, submit_alert, submit_button, typed, form_attributes, register_form,
}
use flash_pay.Auth.Fields.Reader.{alert_at, present, inputs, alerts}

-- The arguments of a field.
pub record Field : Type 0 where
  pub label : Text
  pub type : Text
  pub complete : Text
  pub limit : Option ℕ
  pub value : Text
  pub id : Text
  pub error : Option Text

abbrev field_html : Field → Html
field_html f = labelled_field f.label (typed f.type f.complete f.limit) f.value f.id f.error

-- Fields, and what comes after them.
abbrev fields_html : List Field → Html → Html
fields_html [] tail = tail
fields_html (f ∷ fs) tail = field_html f ++ fields_html fs tail

-- What an input with this error is to say.
abbrev pub shown_error : Option Text → Bool × Option Text
shown_error error = (is_some (truthy error), truthy error)

-- What the reader finds of the field's alert.
abbrev resolved : Html → Field → Option Text
resolved whole f = elim (truthy f.error) [ none ↦ none | some _ ↦ alert_at f.id whole ]

inputs-field :
    (whole : Html) (label type complete : Text) (limit : Option ℕ) (value id : Text)
    (error : Option Text) (rest : Html)
    → inputs whole (labelled_field label (typed type complete limit) value id error ++ rest)
      ≡ (is_some (truthy error), elim (truthy error) [ none ↦ none | some _ ↦ alert_at id whole ])
        ∷ inputs whole rest
unfolding inputs
inputs-field whole label type complete none value id none rest = refl
inputs-field whole label type complete none value id (some []) rest = refl
inputs-field whole label type complete none value id (some (c ∷ s)) rest = refl
inputs-field whole label type complete (some n) value id none rest = refl
inputs-field whole label type complete (some n) value id (some []) rest = refl
inputs-field whole label type complete (some n) value id (some (c ∷ s)) rest = refl

alerts-field :
    (label type complete : Text) (limit : Option ℕ) (value id : Text) (error : Option Text)
    (rest : Html)
    → alerts (labelled_field label (typed type complete limit) value id error ++ rest)
      ≡ present (truthy error) ++ alerts rest
unfolding alerts
alerts-field label type complete none value id none rest = refl
alerts-field label type complete none value id (some []) rest = refl
alerts-field label type complete none value id (some (c ∷ s)) rest = refl
alerts-field label type complete (some n) value id none rest = refl
alerts-field label type complete (some n) value id (some []) rest = refl
alerts-field label type complete (some n) value id (some (c ∷ s)) rest = refl

-- The alert of a field is passed over where another id is looked for,
alert_at-field_ne :
    (label type complete : Text) (limit : Option ℕ) (value id other : Text) (error : Option Text)
    (rest : Html)
    → text_eq id other ≡ false
    → alert_at other (labelled_field label (typed type complete limit) value id error ++ rest)
      ≡ alert_at other rest
unfolding alert_at
alert_at-field_ne label type complete none value id other none rest ne = refl
alert_at-field_ne label type complete none value id other (some []) rest ne = refl
alert_at-field_ne label type complete none value id other (some (c ∷ s)) rest ne = rw (ne) refl
alert_at-field_ne label type complete (some n) value id other none rest ne = refl
alert_at-field_ne label type complete (some n) value id other (some []) rest ne = refl
alert_at-field_ne label type complete (some n) value id other (some (c ∷ s)) rest ne = rw (ne) refl

-- and found by its own.
resolved-field :
    (label type complete : Text) (limit : Option ℕ) (value id : Text) (error : Option Text)
    (rest : Html)
    → elim (truthy error) [
      | none ↦ none
      | some _ ↦
          alert_at id (labelled_field label (typed type complete limit) value id error ++ rest)
    ]
      ≡ truthy error
unfolding alert_at
resolved-field label type complete limit value id none rest = refl
resolved-field label type complete limit value id (some []) rest = refl
resolved-field label type complete none value id (some (c ∷ s)) rest =
    rw ((text_eq_iff id id).1 refl) refl
resolved-field label type complete (some n) value id (some (c ∷ s)) rest =
    rw ((text_eq_iff id id).1 refl) refl

-- No two fields have the same id.
abbrev AreDistinct : List Field → Type 0
AreDistinct [] = Unit
AreDistinct (f ∷ fs) = All (λ g. text_eq f.id g.id ≡ false) fs × AreDistinct fs

AreResolved : Html → List Field → Type 0
AreResolved whole = All λ f. resolved whole f ≡ truthy f.error

same_resolved :
    (t : Option Text) (a b : Option Text)
    → a ≡ b
    → elim t [ none ↦ none | some _ ↦ a ]
      ≡ elim t as (λ _. Option Text) [ none ↦ none | some _ ↦ b ]
same_resolved none a b e = refl
same_resolved (some s) a b e = e

AreResolved-after :
    (f : Field) (fs : List Field) (rest : Html)
    → All (λ g. text_eq f.id g.id ≡ false) fs
    → AreResolved rest fs
    → AreResolved (field_html f ++ rest) fs
unfolding AreResolved
AreResolved-after f [] rest h k = tt
AreResolved-after f (g ∷ fs) rest (ne, h) (found, k) = (
  same_resolved (truthy g.error) (alert_at g.id (field_html f ++ rest)) (alert_at g.id rest)
        (alert_at-field_ne f.label f.type f.complete f.limit f.value f.id g.id f.error rest ne)
      ∙ found,
  AreResolved-after f fs rest h k,
)

AreResolved-fields :
    (fs : List Field) (tail rest : Html)
    → AreDistinct fs
    → AreResolved (fields_html fs tail ++ rest) fs
unfolding AreResolved
AreResolved-fields [] tail rest h = tt
AreResolved-fields (f ∷ fs) tail rest (ne, h) =
    let more = fields_html fs tail ++ rest in
    subst (λ h. AreResolved h (f ∷ fs))
      (sym (append_assoc (field_html f) (fields_html fs tail) rest))
      (
        resolved-field f.label f.type f.complete f.limit f.value f.id f.error more,
        AreResolved-after f fs more ne (AreResolved-fields fs tail rest h),
      )

errors_of : List Field → List (Bool × Option Text)
errors_of = map λ f. shown_error f.error

inputs-fields :
    (whole : Html) (fs : List Field) (tail rest : Html)
    → AreResolved whole fs
    → inputs whole (fields_html fs tail ++ rest) ≡ errors_of fs ++ inputs whole (tail ++ rest)
unfolding AreResolved errors_of
inputs-fields whole [] tail rest h = refl
inputs-fields whole (f ∷ fs) tail rest (found, h) =
    ap (inputs whole) (append_assoc (field_html f) (fields_html fs tail) rest)
    ∙ inputs-field whole f.label f.type f.complete f.limit f.value f.id f.error
        (fields_html fs tail ++ rest)
    ∙ ap (λ e. (is_some (truthy f.error), e) ∷ inputs whole (fields_html fs tail ++ rest)) found
    ∙ ap (λ l. shown_error f.error ∷ l) (inputs-fields whole fs tail rest h)

messages_of : List Field → List Text → List Text
messages_of [] more = more
messages_of (f ∷ fs) more = present (truthy f.error) ++ messages_of fs more

alerts-fields :
    (fs : List Field) (tail rest : Html)
    → alerts (fields_html fs tail ++ rest) ≡ messages_of fs (alerts (tail ++ rest))
unfolding messages_of
alerts-fields [] tail rest = refl
alerts-fields (f ∷ fs) tail rest =
    ap alerts (append_assoc (field_html f) (fields_html fs tail) rest)
    ∙ alerts-field f.label f.type f.complete f.limit f.value f.id f.error
        (fields_html fs tail ++ rest)
    ∙ ap (λ l. present (truthy f.error) ++ l) (alerts-fields fs tail rest)

-- What a form shows: these alerts, and for each input whether it is invalid and the alert that it
-- is described by, if any.
pub record IsAccessible (html : Html) (messages : List Text) (fields : List (Bool × Option Text))
    : Type 0 where
  pub messages_lem : alerts html ≡ messages
  pub fields_lem : inputs html html ≡ fields

abbrev end_html : Option Text → Bool → Text → Text → Html
end_html error is_loading busy idle = submit_alert error ++ submit_button is_loading busy idle

alerts-end :
    (error : Option Text) (is_loading : Bool) (busy idle : Text)
    → alerts (end_html error is_loading busy idle ++ close_tag ∷ []) ≡ present (truthy error) ++ []
unfolding alerts
alerts-end none is_loading busy idle = refl
alerts-end (some []) is_loading busy idle = refl
alerts-end (some (c ∷ s)) is_loading busy idle = refl

inputs-end :
    (whole : Html) (error : Option Text) (is_loading : Bool) (busy idle : Text)
    → inputs whole (end_html error is_loading busy idle ++ close_tag ∷ []) ≡ []
unfolding inputs
inputs-end whole none is_loading busy idle = refl
inputs-end whole (some []) is_loading busy idle = refl
inputs-end whole (some (c ∷ s)) is_loading busy idle = refl

abbrev form_html : List Field → Html → Html
form_html fs tail = element (text "form") form_attributes (fields_html fs tail)

AreResolved-form :
    (fs : List Field) (tail : Html) → AreDistinct fs → AreResolved (form_html fs tail) fs
unfolding AreResolved alert_at
AreResolved-form fs tail distinct = AreResolved-fields fs tail (close_tag ∷ []) distinct

IsAccessible-form :
    (fs : List Field) (error : Option Text) (is_loading : Bool) (busy idle : Text)
    → AreDistinct fs
    → IsAccessible
        (form_html fs (end_html error is_loading busy idle))
        (messages_of fs (present (truthy error) ++ []))
        (errors_of fs)
unfolding alerts inputs
IsAccessible-form fs error is_loading busy idle distinct =
    let tail = end_html error is_loading busy idle in
    let whole = form_html fs tail in
    record {
      messages_lem =
          alerts-fields fs tail (close_tag ∷ [])
          ∙ ap (messages_of fs) (alerts-end error is_loading busy idle);
      fields_lem =
          inputs-fields whole fs tail (close_tag ∷ []) (AreResolved-form fs tail distinct)
          ∙ ap (λ l. errors_of fs ++ l) (inputs-end whole error is_loading busy idle)
          ∙ append-nil (errors_of fs);
    }

-- The form of the registration shows an alert for each error that is not empty, in the order of
-- the fields, and then for the error of the request. Of its four inputs, exactly those with an
-- error that is not empty are invalid and are described by an alert, which is the one that begins
-- with that error.
pub register_form-IsAccessible :
    (s : RegisterState) (is_loading : Bool)
    → IsAccessible
        (register_form s is_loading)
        (present (truthy s.errors.name)
          ++ (present (truthy s.errors.email)
              ++ (present (truthy s.errors.password)
                  ++ (present (truthy s.errors.confirm_password)
                      ++ (present (truthy s.submit_error) ++ [])))))
        (shown_error s.errors.name
          ∷ shown_error s.errors.email
          ∷ shown_error s.errors.password
          ∷ shown_error s.errors.confirm_password
          ∷ [])
unfolding register_form messages_of errors_of text_eq
register_form-IsAccessible s is_loading =
    IsAccessible-form
      (record {
        label = text "Nome";
        type = text "text";
        complete = text "name";
        limit = some 100;
        value = s.values.name;
        id = text "register-name-error";
        error = s.errors.name;
      }
        ∷ record {
          label = text "Email";
          type = text "email";
          complete = text "email";
          limit = none;
          value = s.values.email;
          id = text "register-email-error";
          error = s.errors.email;
        }
        ∷ record {
          label = text "Senha";
          type = text "password";
          complete = text "new-password";
          limit = none;
          value = s.values.password;
          id = text "register-password-error";
          error = s.errors.password;
        }
        ∷ record {
          label = text "Confirmar senha";
          type = text "password";
          complete = text "off";
          limit = none;
          value = s.values.confirm_password;
          id = text "register-confirm-password-error";
          error = s.errors.confirm_password;
        }
        ∷ [])
      s.submit_error is_loading (text "Criando conta...") (text "Criar conta")
      ((refl, (refl, (refl, tt))), ((refl, (refl, tt)), ((refl, tt), (tt, tt))))
