-- ===== src/Auth/Routing.antt =====
-- apps/frontend/src/App.tsx, ProtectedRoute.tsx, GuestRoute.tsx and features/auth/utils/routing.ts:
-- which page a path shows, and where it redirects.
pub mod Laws
use flash_pay.Prelude.{
  Text, text, Bool, true, false, ◌&&◌, not, Option, none, some, List, [], ◌∷◌, ◌++◌, any,
  if◌then◌else◌, ◌or_else◌, text_eq,
}
use flash_pay.Prelude.Json.{Json, string, object, end, field, property}
use flash_pay.Failure.{get_text}
use flash_pay.Auth.Session.{Role, admin, operator, User, AuthState}

-- The part of a router's location that the program reads.
pub record Location : Type 0 where
  pub pathname : Text
  pub search : Text
  pub hash : Text

-- A location as the value that a redirect carries.
abbrev pub location_value : Location → Json
location_value l = object (
    field (text "pathname") (string l.pathname)
      (field (text "search") (string l.search) (field (text "hash") (string l.hash) end)))

unfoldable pub default_auth_redirect : Text
default_auth_redirect = text "/dashboard"

unfoldable pub login_path : Text
login_path = text "/login"

-- `redirectState.from.pathname` and the like; `from` may be missing.
abbrev from_field : Text → Option Json → Option Text
from_field k none = none
from_field k (some from) = get_text (property k from)

-- `state` is the router's state, if there is one.
unfoldable pub resolve_post_login_redirect : Option Json → Text
resolve_post_login_redirect none = default_auth_redirect
resolve_post_login_redirect (some state) =
    let from = property (text "from") state in
    elim (from_field (text "pathname") from) [
      | none ↦ default_auth_redirect
      | some pathname ↦
          pathname
          ++ ((from_field (text "search") from or_else [])
              ++ (from_field (text "hash") from or_else []))
    ]

-- What a route renders: its children, or a `Navigate` with its path and state.
pub data View {ℓ} (A : Type ℓ) : Type ℓ where
  render : A → View A
  navigate : Text → Option Json → View A

abbrev pub same_role : Role → Role → Bool
same_role admin admin = true
same_role operator operator = true
same_role _ _ = false

-- `!allowedRoles || (currentUser && allowedRoles.includes(currentUser.role))`
abbrev pub may_enter : Option (List Role) → Option User → Bool
may_enter none user = true
may_enter (some roles) none = false
may_enter (some roles) (some user) = any (λ r. same_role r user.role) roles

module _ {ℓ} {A : Type ℓ} where
  unfoldable pub protected_route : AuthState → Location → Option (List Role) → A → View A
  protected_route state location allowed_roles children =
      if not state.is_authenticated
      then navigate login_path (some (object (field (text "from") (location_value location) end)))
      else if not (may_enter allowed_roles state.user)
      then navigate default_auth_redirect none
      else render children

  unfoldable pub guest_route : AuthState → A → View A
  guest_route state children =
      if state.is_authenticated then navigate default_auth_redirect none else render children

pub data Page : Type 0 where
  home admin_home admin_users admin_batches login register : Page
  batch_details admin_batch_details : Text → Page

-- A path by the segments that the routes of `App` name; every other path is `elsewhere`.
pub data RoutePath : Type 0 where
  root dashboard admin_root users batches login_form register_form elsewhere : RoutePath
  batch admin_batch : Text → RoutePath

abbrev pub admins : Option (List Role)
admins = some (admin ∷ [])

-- `App`: the element of the route that a path matches.
unfoldable pub app : AuthState → Location → RoutePath → View Page
unfolding protected_route guest_route
app state at root = navigate default_auth_redirect none
app state at dashboard = protected_route state at none home
app state at (batch id) = protected_route state at none (batch_details id)
app state at admin_root = protected_route state at admins admin_home
app state at users = protected_route state at admins admin_users
app state at batches = protected_route state at admins admin_batches
app state at (admin_batch id) = protected_route state at admins (admin_batch_details id)
app state at login_form = guest_route state login
app state at register_form = guest_route state register
app state at elsewhere = navigate default_auth_redirect none
