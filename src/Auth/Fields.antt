-- ===== src/Auth/Fields.antt =====
-- apps/frontend/src/features/auth/components/LoginForm.tsx and RegisterForm.tsx: what the forms of
-- the login and the registration render.
pub mod Reader
pub mod Laws
use flash_pay.Prelude.{
  ℕ, Text, text, Bool, true, false, not, Option, none, some, List, [], ◌∷◌, ◌++◌, if◌then◌else◌,
  is_some, Map,
}
use flash_pay.Prelude.Html.{Value, string, flag, number, Html, element, say, truthy, if_present}
use flash_pay.Auth.Submit.{LoginState, RegisterState}

-- `aria-describedby={error ? id : undefined}`
abbrev pub described_by : Text → Option Text → Map Value
described_by id none = []
described_by id (some message) = (text "aria-describedby", string id) ∷ []

-- A field of a form with its error, if that is not empty: its label, the attributes that only it
-- has, its value, and the id of the error's element.
abbrev pub labelled_field : Text → Map Value → Text → Text → Option Text → Html
labelled_field label attributes value id error =
    element (text "label") ((text "class", string (text "field")) ∷ []) (
      element (text "span") [] (say label)
      ++ (element (text "input")
            (attributes
              ++ ((text "value", string value)
                  ∷ (text "aria-invalid", flag (is_some (truthy error)))
                  ∷ described_by id (truthy error)))
            []
          ++ if_present (truthy error) λ message.
            element (text "small")
              ((text "id", string id)
                ∷ (text "class", string (text "field-error"))
                ∷ (text "role", string (text "alert"))
                ∷ [])
              (say message)))

abbrev pub submit_alert : Option Text → Html
submit_alert error = if_present (truthy error) λ message.
    element (text "p")
      ((text "class", string (text "submit-error")) ∷ (text "role", string (text "alert")) ∷ [])
      (say message)

abbrev pub submit_button : Bool → Text → Text → Html
submit_button is_loading busy idle =
    element (text "button")
      ((text "class", string (text "primary-button"))
        ∷ (text "type", string (text "submit"))
        ∷ (text "disabled", flag is_loading)
        ∷ [])
      (say (if is_loading then busy else idle))

-- The type and the completion of a field, and its `maxLength` if it has one.
abbrev pub typed : Text → Text → Option ℕ → Map Value
typed type complete none = (text "type", string type) ∷ (text "autocomplete", string complete) ∷ []
typed type complete (some limit) =
    (text "type", string type)
    ∷ (text "autocomplete", string complete)
    ∷ (text "maxlength", number limit)
    ∷ []

abbrev pub form_attributes : Map Value
form_attributes = (text "class", string (text "auth-form")) ∷ (text "novalidate", flag true) ∷ []

unfoldable pub login_form : LoginState → Bool → Html
login_form s is_loading = element (text "form") form_attributes (
    labelled_field (text "Email") (typed (text "email") (text "email") none) s.values.email
      (text "login-email-error") s.errors.email
    ++ (labelled_field (text "Senha") (typed (text "password") (text "current-password") none)
          s.values.password (text "login-password-error") s.errors.password
        ++ (submit_alert s.submit_error
            ++ submit_button is_loading (text "Entrando...") (text "Entrar"))))

unfoldable pub register_form : RegisterState → Bool → Html
register_form s is_loading = element (text "form") form_attributes (
    labelled_field (text "Nome") (typed (text "text") (text "name") (some 100)) s.values.name
      (text "register-name-error") s.errors.name
    ++ (labelled_field (text "Email") (typed (text "email") (text "email") none) s.values.email
          (text "register-email-error") s.errors.email
        ++ (labelled_field (text "Senha") (typed (text "password") (text "new-password") none)
              s.values.password (text "register-password-error") s.errors.password
            ++ (labelled_field (text "Confirmar senha") (typed (text "password") (text "off") none)
                  s.values.confirm_password (text "register-confirm-password-error")
                  s.errors.confirm_password
                ++ (submit_alert s.submit_error
                    ++ submit_button is_loading (text "Criando conta...") (text "Criar conta"))))))
