-- ===== src/Tests/AuthTests.antt =====
-- The theorems on sessions, forms and routes at concrete inputs.
use flash_pay.Prelude.{
  trim, is_space, ◌+◌, Text, text, ◌≡◌, ◌↔◌, refl, true, false, not, ◌||◌, ◌&&◌, map, leb, none,
  some, [], ◌∷◌, ◌++◌, is_nonempty, if◌then◌else◌,
}
use flash_pay.Prelude.Json.{Json}
use flash_pay.Auth.Session.{
  AuthResponse, token_key, is_token_expired, signed_out, clear_stored_credentials,
  hydrate_auth_state, set_credentials,
}
use flash_pay.Auth.Session.Laws.{
  sign_in, sign_out, run_actions, IsCoherent, hydrate-set_credentials, session-IsCoherent,
}
use flash_pay.Auth.Forms.{
  LoginFormValues, RegisterFormValues, validate_register_form, has_register_errors,
}
use flash_pay.Auth.Forms.Email.{IsEmail, email_pattern, email_pattern_iff}
use flash_pay.Auth.Forms.Laws.{IsLogin, IsRegistration, validate_register_form_iff}
use flash_pay.Auth.Routing.{
  login_form, admins, render, navigate, login_path, protected_route, Page, home, admin_users, users,
  admin_root, app,
}
use flash_pay.Auth.Routing.Laws.{MaySee, follow, app-MaySee, follow-ends}
use flash_pay.Auth.Submit.{LoginState, accepted, finish_login, submit_login}
use flash_pay.Auth.Submit.Laws.{finish_login-protected_route, submit_login-request}
use flash_pay.Tests.Platform.{test_platform, test_platform-StoresUsers}
use flash_pay.Tests.Samples.{ana, bob, session_of, batch_page}

abbrev login_reply : AuthResponse
login_reply = record { token = text "h.p.s"; user = ana }

hydrate-set_credentials_example :
    hydrate_auth_state test_platform (set_credentials test_platform login_reply (signed_out, [])).1
    ≡ (if not (is_nonempty login_reply.token) || is_token_expired test_platform login_reply.token
        then (
          signed_out,
          clear_stored_credentials (set_credentials test_platform login_reply (signed_out, [])).1,
        )
        else set_credentials test_platform login_reply (signed_out, []))
hydrate-set_credentials_example =
    hydrate-set_credentials test_platform test_platform-StoresUsers login_reply (signed_out, [])

session-IsCoherent_example : IsCoherent test_platform (
    run_actions test_platform
      (sign_in login_reply ∷ sign_out ∷ sign_in login_reply ∷ [])
      (hydrate_auth_state test_platform ((token_key, text "old") ∷ [])))
session-IsCoherent_example =
    session-IsCoherent test_platform test_platform-StoresUsers ((token_key, text "old") ∷ [])
      (sign_in login_reply ∷ sign_out ∷ sign_in login_reply ∷ [])

email_pattern_iff_example : (email_pattern (text "ana@x.br") ≡ true) ↔ IsEmail (text "ana@x.br")
email_pattern_iff_example = email_pattern_iff (text "ana@x.br")

-- `toLowerCase` on the ASCII letters.
abbrev lower : Text → Text
lower = map λ c. if leb 65 c && leb c 90 then c + 32 else c

abbrev login_values : LoginFormValues
login_values = record { email = text " Ana@x.br"; password = text "secret 1" }

abbrev register_values : RegisterFormValues
register_values = record {
  name = text "Ana";
  email = text "ana@x.br";
  password = text "secret 1";
  confirm_password = text "secret 1";
}

validate_register_form_iff_example :
    (has_register_errors (validate_register_form lower register_values) ≡ false)
    ↔ IsRegistration lower register_values
validate_register_form_iff_example = validate_register_form_iff lower register_values

admin_users_shown : app (session_of ana) batch_page users ≡ render admin_users
unfolding app
admin_users_shown = refl

app-MaySee_example : MaySee (session_of ana) admin_users
app-MaySee_example = app-MaySee (session_of ana) batch_page users admin_users admin_users_shown

follow-ends_example : (p : Page) × (follow 2 (session_of bob) batch_page admin_root ≡ some p)
follow-ends_example = follow-ends (session_of bob) batch_page admin_root

abbrev empty_form : LoginState
empty_form = record {
  values = login_values;
  errors = record { email = none; password = none };
  submit_error = none;
}

finish_login-protected_route_example :
    let after = λ (v : Json).
      finish_login test_platform (some v) empty_form (signed_out, []) (accepted login_reply) in
    (v : Json) × (protected_route signed_out batch_page admins home ≡ navigate login_path (some v))
    × ((after v).target ≡ some (text "/batches/a" ++ (text "?tab=1" ++ text "#p")))
    × (protected_route (after v).session.0 batch_page admins home ≡ render home)
    × (app (after v).session.0 batch_page login_form ≡ navigate (text "/dashboard") none)
finish_login-protected_route_example =
    finish_login-protected_route test_platform empty_form (signed_out, []) batch_page admins home
      login_reply refl refl

submit_login-request_example :
    ((submit_login lower empty_form).1
      ≡ some (record { email = text "ana@x.br"; password = text "secret 1" }))
    ↔ IsLogin lower login_values
unfolding trim is_space
submit_login-request_example = submit_login-request lower empty_form
