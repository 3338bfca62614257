-- ===== src/Auth/Routing/Laws.antt =====
-- The guards of the routes: theorems on who sees which page and on redirects.
use mathlib.Core.Path.{subst}
use flash_pay.Prelude.{
  ℕ, zero, suc, Text, text, ◌≡◌, refl, ap, ◌∙◌, true, false, Option, none, some, text_eq,
  if◌then◌else◌, arith, inl, inr, Bool-cases,
}
use flash_pay.Auth.Session.{admin, User, AuthState}
use flash_pay.Auth.Routing.{
  Location, default_auth_redirect, login_path, View, render, navigate, may_enter, protected_route,
  guest_route, Page, home, admin_home, admin_users, admin_batches, login, register, batch_details,
  admin_batch_details, RoutePath, root, dashboard, admin_root, users, batches, login_form,
  register_form, elsewhere, batch, admin_batch, admins, app,
}

-- Who may see a page: an admin, a signed-in user, or a guest.
abbrev pub MaySee : AuthState → Page → Type 0
MaySee state login = state.is_authenticated ≡ false
MaySee state register = state.is_authenticated ≡ false
MaySee state home = state.is_authenticated ≡ true
MaySee state (batch_details _) = state.is_authenticated ≡ true
MaySee state _ =
    (state.is_authenticated ≡ true) × (u : User) × (state.user ≡ some u) × (u.role ≡ admin)

admin_allowed :
    (user : Option User)
    → may_enter admins user ≡ true
    → (u : User) × (user ≡ some u) × (u.role ≡ admin)
admin_allowed none h = cc
admin_allowed (some u) h = (u, refl, ground arith)

protected_admin :
    (state : AuthState) (at : Location) (p q : Page)
    → protected_route state at admins p ≡ render q
    → (p ≡ q) × (state.is_authenticated ≡ true) × (may_enter admins state.user ≡ true)
unfolding protected_route
protected_admin state at p q h = ground arith

protected_any :
    (state : AuthState) (at : Location) (p q : Page)
    → protected_route state at none p ≡ render q
    → (p ≡ q) × (state.is_authenticated ≡ true)
unfolding protected_route
protected_any state at p q h = ground arith

guest_only :
    (state : AuthState) (p q : Page)
    → guest_route state p ≡ render q
    → (p ≡ q) × (state.is_authenticated ≡ false)
unfolding guest_route
guest_only state p q h = ground arith

open_page :
    (state : AuthState) (at : Location) (p q : Page)
    → (state.is_authenticated ≡ true → MaySee state p)
    → protected_route state at none p ≡ render q
    → MaySee state q
open_page state at p q may h =
    let (same, signed_in) = protected_any state at p q h in
    subst (MaySee state) same (may signed_in)

admin_page :
    (state : AuthState) (at : Location) (p q : Page)
    → ((state.is_authenticated ≡ true) × (u : User) × (state.user ≡ some u) × (u.role ≡ admin)
        → MaySee state p)
    → protected_route state at admins p ≡ render q
    → MaySee state q
admin_page state at p q may h =
    let (same, signed_in, allowed) = protected_admin state at p q h in
    let (u, found, is_admin) = admin_allowed state.user allowed in
    subst (MaySee state) same (may (signed_in, u, found, is_admin))

guest_page :
    (state : AuthState) (p q : Page)
    → (state.is_authenticated ≡ false → MaySee state p)
    → guest_route state p ≡ render q
    → MaySee state q
guest_page state p q may h =
    let (same, signed_out) = guest_only state p q h in subst (MaySee state) same (may signed_out)

-- A page is rendered only for those who may see it: the four admin pages for an authenticated
-- session of an admin, the home page and the details of a batch for an authenticated session, the
-- login and the registration for one that is not.
pub app-MaySee :
    (state : AuthState) (at : Location) (path : RoutePath) (p : Page)
    → app state at path ≡ render p
    → MaySee state p
unfolding app
app-MaySee state at root p h = cc
app-MaySee state at elsewhere p h = cc
app-MaySee state at dashboard p h = open_page state at home p (λ m. m) h
app-MaySee state at (batch id) p h = open_page state at (batch_details id) p (λ m. m) h
app-MaySee state at admin_root p h = admin_page state at admin_home p (λ m. m) h
app-MaySee state at users p h = admin_page state at admin_users p (λ m. m) h
app-MaySee state at batches p h = admin_page state at admin_batches p (λ m. m) h
app-MaySee state at (admin_batch id) p h = admin_page state at (admin_batch_details id) p (λ m. m) h
app-MaySee state at login_form p h = guest_page state login p (λ m. m) h
app-MaySee state at register_form p h = guest_page state register p (λ m. m) h

-- The path of a redirect of the application.
abbrev pub redirect_path : Text → RoutePath
redirect_path target =
    if text_eq target (text "/dashboard")
    then dashboard
    else if text_eq target (text "/login")
    then login_form
    else elsewhere

-- The page that a view shows, a redirect being followed by `onward`.
abbrev pub shown_page : (RoutePath → Option Page) → View Page → Option Page
shown_page onward (render p) = some p
shown_page onward (navigate target _) = onward (redirect_path target)

-- What is shown in the end, by following at most `n` redirects; none if that is not enough.
abbrev pub follow : ℕ → AuthState → Location → RoutePath → Option Page
follow zero state at path = shown_page (λ _. none) (app state at path)
follow (suc n) state at path = shown_page (λ q. follow n state at q) (app state at path)

module _ (state : AuthState) (at : Location) where
  follow_guest :
      (path : RoutePath)
      → state.is_authenticated ≡ false
      → (p : Page) × (follow 2 state at path ≡ some p)
  unfolding app text_eq default_auth_redirect login_path
  follow_guest login_form guest = (login, rw guest refl)
  follow_guest register_form guest = (register, rw guest refl)
  follow_guest root guest = (login, rw guest refl)
  follow_guest dashboard guest = (login, rw guest refl)
  follow_guest (batch id) guest = (login, rw guest refl)
  follow_guest admin_root guest = (login, rw guest refl)
  follow_guest users guest = (login, rw guest refl)
  follow_guest batches guest = (login, rw guest refl)
  follow_guest (admin_batch id) guest = (login, rw guest refl)
  follow_guest elsewhere guest = (login, rw guest refl)

  -- An admin page, or the home page for one who may not enter.
  follow_admin :
      (path : RoutePath) (p : Page)
      → state.is_authenticated ≡ true
      → app state at path ≡ protected_route state at admins p
      → (q : Page) × (follow 2 state at path ≡ some q)
  unfolding app text_eq default_auth_redirect protected_route
  follow_admin path p signed_in e = elim (Bool-cases (may_enter admins state.user)) [
    | inl enters ↦
        let shows : protected_route state at admins p ≡ render p = rw (signed_in, enters) refl in
        (p, ap (shown_page (λ q. follow 1 state at q)) (e ∙ shows))
    | inr turned_away ↦
        let sent : protected_route state at admins p ≡ navigate default_auth_redirect none =
          rw (signed_in, turned_away) refl in
        let home_shown : follow 1 state at dashboard ≡ some home = rw signed_in refl in
        (home, ap (shown_page (λ q. follow 1 state at q)) (e ∙ sent) ∙ home_shown)
  ]

  follow_signed_in :
      (path : RoutePath)
      → state.is_authenticated ≡ true
      → (p : Page) × (follow 2 state at path ≡ some p)
  unfolding app text_eq default_auth_redirect
  follow_signed_in login_form signed_in = (home, rw signed_in refl)
  follow_signed_in register_form signed_in = (home, rw signed_in refl)
  follow_signed_in root signed_in = (home, rw signed_in refl)
  follow_signed_in dashboard signed_in = (home, rw signed_in refl)
  follow_signed_in (batch id) signed_in = (batch_details id, rw signed_in refl)
  follow_signed_in admin_root signed_in = follow_admin admin_root admin_home signed_in refl
  follow_signed_in users signed_in = follow_admin users admin_users signed_in refl
  follow_signed_in batches signed_in = follow_admin batches admin_batches signed_in refl
  follow_signed_in (admin_batch id) signed_in =
      follow_admin (admin_batch id) (admin_batch_details id) signed_in refl
  follow_signed_in elsewhere signed_in = (home, rw signed_in refl)

  -- Two redirects at most, from any path, lead to a page: no session is sent round in circles.
  pub follow-ends : (path : RoutePath) → (p : Page) × (follow 2 state at path ≡ some p)
  follow-ends path = elim (Bool-cases state.is_authenticated) [
    | inl signed_in ↦ follow_signed_in path signed_in
    | inr guest ↦ follow_guest path guest
  ]
