-- ===== src/Auth/Forms.antt =====
-- apps/frontend/src/features/auth/utils/forms.ts. `lower` is `toLowerCase`, whose Unicode tables
-- are left open.
pub mod Email
pub mod Laws
use flash_pay.Prelude.{
  ℕ, suc, ◌+◌, Text, text, Bool, true, false, ◌&&◌, ◌||◌, not, Option, none, some, List, [], ◌∷◌,
  leb, ltb, ◌==◌, if◌then◌else◌, ◌or_else◌, length, is_nonempty, is_some, text_eq, trim,
}
use flash_pay.Prelude.Json.{Json, string, object, Fields, end, field, get_field, property}
use flash_pay.Failure.{
  ErrorStatus, http, named, FetchError, Failure, fetch_error, unknown, get_text,
}
use flash_pay.Auth.Forms.Email.{email_pattern}

pub record LoginFormValues : Type 0 where
  pub email : Text
  pub password : Text

pub record RegisterFormValues : Type 0 where
  pub name : Text
  pub email : Text
  pub password : Text
  pub confirm_password : Text

-- A `Partial<Record<…>>`: the messages of the fields that have one.
pub record LoginErrors : Type 0 where
  pub email : Option Text
  pub password : Option Text

pub record RegisterErrors : Type 0 where
  pub name : Option Text
  pub email : Option Text
  pub password : Option Text
  pub confirm_password : Option Text

abbrev is_high_surrogate : ℕ → Bool
is_high_surrogate c = leb 0xd800 c && leb c 0xdbff

abbrev is_low_surrogate : ℕ → Bool
is_low_surrogate c = leb 0xdc00 c && leb c 0xdfff

unfoldable pub is_pair : ℕ → ℕ → Bool
is_pair a b = is_high_surrogate a && is_low_surrogate b

-- The bytes of a code unit by itself; a lone surrogate is written as U+FFFD.
abbrev pub unit_bytes : ℕ → ℕ
unit_bytes c = if ltb c 0x80 then 1 else if ltb c 0x800 then 2 else 3

-- `new TextEncoder().encode(value).length`: a surrogate pair takes four bytes.
unfoldable pub count_utf8_bytes : Text → ℕ
count_utf8_bytes [] = 0
count_utf8_bytes (a ∷ []) = unit_bytes a
count_utf8_bytes (a ∷ b ∷ s) = elim (is_pair a b) [
  | true ↦ 4 + count_utf8_bytes s
  | false ↦ unit_bytes a + count_utf8_bytes (b ∷ s)
]

unfoldable pub bad_email : Text
bad_email = text "Informe um email valido."

unfoldable pub no_password : Text
no_password = text "Informe sua senha."

unfoldable pub long_password : Text
long_password = text "A senha deve ter no maximo 72 bytes."

unfoldable pub short_password : Text
short_password = text "A senha deve ter pelo menos 8 caracteres."

unfoldable pub bad_name : Text
bad_name = text "O nome deve ter entre 2 e 100 caracteres."

unfoldable pub no_confirmation : Text
no_confirmation = text "Confirme sua senha."

unfoldable pub other_confirmation : Text
other_confirmation = text "As senhas precisam ser iguais."

module _ (lower : Text → Text) where
  unfoldable pub email_error : Text → Option Text
  email_error email = if email_pattern (lower (trim email)) then none else some bad_email

  unfoldable pub validate_login_form : LoginFormValues → LoginErrors
  unfolding email_error
  validate_login_form values = record {
    email = email_error values.email;
    password =
        if not (is_nonempty (trim values.password))
        then some no_password
        else if ltb 72 (count_utf8_bytes values.password)
        then some long_password
        else none;
  }

  unfoldable pub validate_register_form : RegisterFormValues → RegisterErrors
  unfolding email_error
  validate_register_form values = record {
    name =
        if ltb (length (trim values.name)) 2 || ltb 100 (length (trim values.name))
        then some bad_name
        else none;
    email = email_error values.email;
    password =
        if ltb (length values.password) 8
        then some short_password
        else if ltb 72 (count_utf8_bytes values.password)
        then some long_password
        else none;
    confirm_password =
        if not (is_nonempty values.confirm_password)
        then some no_confirmation
        else if not (text_eq values.confirm_password values.password)
        then some other_confirmation
        else none;
  }

-- `Object.keys(errors).length > 0`
abbrev pub has_login_errors : LoginErrors → Bool
has_login_errors e = is_some e.email || is_some e.password

abbrev pub has_register_errors : RegisterErrors → Bool
has_register_errors e =
    is_some e.name || is_some e.email || is_some e.password || is_some e.confirm_password

unfoldable pub build_field_error : Text → Text → Text
build_field_error message fallback = if is_nonempty (trim message) then message else fallback

-- The first of `Object.values(errors)`, where it is a truthy text.
abbrev pub first_field_message : Option Json → Option Text
first_field_message (some (object (field k v fs))) = elim (get_text (get_field k (field k v fs))) [
  | none ↦ none
  | some message ↦ if is_nonempty message then some message else none
]
first_field_message _ = none

abbrev pub truthy_text : Option Json → Option Text
truthy_text (some (string s)) = if is_nonempty s then some s else none
truthy_text _ = none

abbrev pub get_body : Text → Option Json → Option Json
get_body k none = none
get_body k (some v) = property k v

unfoldable pub get_auth_error_message : Failure → Text → Text
unfolding build_field_error
get_auth_error_message unknown fallback = fallback
get_auth_error_message (fetch_error e) fallback =
    elim (first_field_message (get_body (text "errors") e.payload)) [
      | some message ↦ build_field_error message fallback
      | none ↦ elim (truthy_text (get_body (text "message") e.payload)) [
        | some message ↦ build_field_error message fallback
        | none ↦ fallback
      ]
    ]

unfoldable pub has_status_code : Failure → ℕ → Bool
has_status_code (fetch_error e) code = elim e.status [ http n ↦ n == code | named _ ↦ false ]
has_status_code unknown code = false
