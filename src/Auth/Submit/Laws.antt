-- ===== src/Auth/Submit/Laws.antt =====
-- LoginPage.tsx with forms.ts and the guards of the routes: theorems on the request that is sent
-- and on the way back after a login.
use flash_pay.Prelude.{
  Text, text, ◌≡◌, refl, ◌↔◌, text_eq, trim, Bool, if◌then◌else◌, arith, true, false, Option, none,
  some, List, ◌++◌,
}
use flash_pay.Prelude.Json.{Json, object, end, field, property}
use flash_pay.Auth.Session.{Role, AuthState, AuthResponse, Storage, Platform}
use flash_pay.Auth.Routing.{
  Location, location_value, render, navigate, login_path, may_enter, protected_route, guest_route,
  default_auth_redirect, login_form, app,
}
use flash_pay.Auth.Forms.{validate_login_form, has_login_errors}
use flash_pay.Auth.Forms.Laws.{IsLogin, validate_login_form_iff}
use flash_pay.Auth.Submit.{LoginState, LoginRequest, submit_login, accepted, finish_login}

-- A guest who is turned away from a route is sent to the login with the location. Where the user
-- who then logs in has one of the route's roles, `handleSubmit` goes to that location, with its
-- search and hash, and the route renders its children there. The route of the login redirects the
-- same session to the dashboard: which of the two navigations comes last is not said.
pub finish_login-protected_route {ℓ} :
    {A : Type ℓ} (p : Platform) (s : LoginState) (session : AuthState × Storage) (at : Location)
    (roles : Option (List Role)) (children : A) (r : AuthResponse)
    → session.0.is_authenticated ≡ false
    → may_enter roles (some r.user) ≡ true
    → (v : Json) × (protected_route session.0 at roles children ≡ navigate login_path (some v))
      × ((finish_login p (some v) s session (accepted r)).target
          ≡ some (at.pathname ++ (at.search ++ at.hash)))
      × (protected_route
            (finish_login p (some v) s session (accepted r)).session.0
            at
            roles
            children
          ≡ render children)
      × (app (finish_login p (some v) s session (accepted r)).session.0 at login_form
          ≡ navigate (text "/dashboard") none)
unfolding protected_route finish_login property text_eq app guest_route default_auth_redirect
finish_login-protected_route p s session at roles children r guest allowed = (
  object (field (text "from") (location_value at) end),
  rw (guest) refl,
  refl,
  rw (allowed) refl,
  refl,
)

sent_iff {ℓ} :
    {A : Type ℓ} (b : Bool) (x : A) → ((if b then none else some x) ≡ some x) ↔ (b ≡ false)
sent_iff true x = (λ h. ground arith, λ h. ground arith)
sent_iff false x = (λ h. refl, λ h. refl)

-- The login form sends its request, with the trimmed and lower-cased email and the password as it
-- was typed, exactly where the trimmed and lower-cased email is one, the password is not blank and
-- it takes at most 72 bytes.
pub submit_login-request :
    (lower : Text → Text) (s : LoginState)
    → ((submit_login lower s).1
        ≡ some (record { email = lower (trim s.values.email); password = s.values.password }))
      ↔ IsLogin lower s.values
unfolding submit_login
submit_login-request lower s =
    let request : LoginRequest = record {
      email = lower (trim s.values.email);
      password = s.values.password;
    } in
    let sent = sent_iff (has_login_errors (validate_login_form lower s.values)) request in
    let valid = validate_login_form_iff lower s.values in
    (λ h. valid.0 (sent.0 h), λ l. sent.1 (valid.1 l))
