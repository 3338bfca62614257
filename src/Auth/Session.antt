-- ===== src/Auth/Session.antt =====
-- apps/frontend/src/features/auth/store/authSlice.ts and types/index.ts.
pub mod Laws
use flash_pay.Prelude.{
  ℕ, ◌+◌, ◌-◌, ◌%◌, Text, text, Bool, true, false, ◌&&◌, ◌||◌, not, Option, none, some, List, [],
  ◌∷◌, ◌++◌, map, leb, ◌==◌, if◌then◌else◌, ◌or_else◌, is_some, length, replicate, get_elem?,
  is_nonempty, text_eq, split_at, Map, lookup, insert, remove,
}
use flash_pay.Prelude.Json.{Json, null, boolean, number, string, array, object, property}

pub data Role : Type 0 where
  admin operator : Role

abbrev pub role_text : Role → Text
role_text admin = text "admin"
role_text operator = text "operator"

pub record User : Type 0 where
  pub id : Text
  pub name : Text
  pub email : Text
  pub role : Role

pub record AuthState : Type 0 where
  pub token : Option Text
  pub user : Option User
  pub is_authenticated : Bool

pub record AuthResponse : Type 0 where
  pub token : Text
  pub user : User

abbrev pub token_key : Text
token_key = text "flashpay_token"

abbrev pub user_key : Text
user_key = text "flashpay_user"

-- `localStorage`.
abbrev pub Storage : Type 0
Storage = Map Text

-- What the platform gives: `JSON.parse` (none where it throws) and `JSON.stringify` of a user,
-- `atob` (none where it throws), and `Math.floor(Date.now() / 1000)`.
pub record Platform : Type 0 where
  pub json_parse : Text → Option Json
  pub stringify_user : User → Text
  pub atob : Text → Option Text
  pub now : ℕ

abbrev pub get_string : Option Json → Option Text
get_string (some (string s)) = some s
get_string _ = none

abbrev pub get_role : Option Json → Option Role
get_role (some (string s)) =
    if text_eq s (text "admin")
    then some admin
    else if text_eq s (text "operator")
    then some operator
    else none
get_role _ = none

infixl 5 ◌>>=◌
abbrev pub ◌>>=◌ {ℓ κ} : {A : Type ℓ} {B : Type κ} → Option A → (A → Option B) → Option B
none >>= k = none
some a >>= k = k a

-- `isValidUser`, with the value as a user where it is one. A value that is no object has no
-- properties here; the source answers false for it.
unfoldable pub valid_user : Json → Option User
valid_user value = do
  id ← get_string (property (text "id") value)
  name ← get_string (property (text "name") value)
  email ← get_string (property (text "email") value)
  role ← get_role (property (text "role") value)
  some (record { id = id; name = name; email = email; role = role })

-- `s.replace(/a/g, b)` for single code units.
unfoldable pub replace_unit : ℕ → ℕ → Text → Text
replace_unit a b = map λ c. if c == a then b else c

-- `-` and `_` of base64url for `+` and `/`, then `=` up to a multiple of four.
unfoldable pub pad_base64 : Text → Text
unfolding replace_unit
pad_base64 payload =
    let normalized = replace_unit 95 47 (replace_unit 45 43 payload) in
    normalized ++ replicate ((4 - length normalized % 4) % 4) 61

abbrev get_number : Option Json → Option ℕ
get_number (some (number n)) = some n
get_number _ = none

unfoldable pub clear_stored_credentials : Storage → Storage
clear_stored_credentials storage = remove user_key (remove token_key storage)

abbrev pub signed_out : AuthState
signed_out = record { token = none; user = none; is_authenticated = false }

-- The reducer writes `localStorage` too.
unfoldable pub logout : AuthState × Storage → AuthState × Storage
unfolding clear_stored_credentials
logout (state, storage) = (signed_out, clear_stored_credentials storage)

module _ (p : Platform) where
  unfoldable pub parse_stored_user : Option Text → Option User
  unfolding valid_user
  parse_stored_user none = none
  parse_stored_user (some raw) =
      if not (is_nonempty raw) then none else (do value ← p.json_parse raw; valid_user value)

  -- `const [, payload] = token.split('.')` and the test `!payload`
  abbrev pub token_payload : Text → Option Text
  token_payload token = do
    payload ← get_elem? (split_at 46 token) 1
    if is_nonempty payload then some payload else none

  unfoldable pub parse_jwt_exp : Text → Option ℕ
  unfolding pad_base64 split_at
  parse_jwt_exp token = do
    payload ← token_payload token
    decoded ← p.atob (pad_base64 payload)
    value ← p.json_parse decoded
    get_number (property (text "exp") value)

  unfoldable pub is_token_expired : Text → Bool
  unfolding parse_jwt_exp
  is_token_expired token = elim (parse_jwt_exp token) [ none ↦ true | some exp ↦ leb exp p.now ]

  -- The hydration from what was found: the token and the stored user.
  unfoldable pub hydrate_from : Storage → Option Text → Option User → AuthState × Storage
  unfolding is_token_expired clear_stored_credentials
  hydrate_from storage none user = (signed_out, clear_stored_credentials storage)
  hydrate_from storage (some token) none = (signed_out, clear_stored_credentials storage)
  hydrate_from storage (some token) (some user) =
      if not (is_nonempty token) || is_token_expired token
      then (signed_out, clear_stored_credentials storage)
      else (record { token = some token; user = some user; is_authenticated = true }, storage)

  unfoldable pub hydrate_auth_state : Storage → AuthState × Storage
  unfolding hydrate_from parse_stored_user
  hydrate_auth_state storage =
      hydrate_from storage (lookup token_key storage) (parse_stored_user (lookup user_key storage))

  -- The reducer writes `localStorage` too.
  unfoldable pub set_credentials : AuthResponse → AuthState × Storage → AuthState × Storage
  set_credentials r (state, storage) = (
    record { token = some r.token; user = some r.user; is_authenticated = true },
    insert user_key (p.stringify_user r.user) (insert token_key r.token storage),
  )

unfoldable pub select_is_admin : AuthState → Bool
select_is_admin state = elim state.user [
  | none ↦ false
  | some user ↦ elim user.role [ admin ↦ true | operator ↦ false ]
]
