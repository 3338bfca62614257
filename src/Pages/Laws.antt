-- ===== src/Pages/Laws.antt =====
-- HomePage.tsx and App.tsx: what the home page offers, and what the routes admit.
use flash_pay.Prelude.{
  Text, text, ◌≡◌, refl, ◌↔◌, Bool, true, false, Option, none, some, List, [], ◌∷◌, ◌++◌, text_eq,
  arith, lookup, if◌then◌else◌,
}
use flash_pay.Prelude.Html.{Value, string, open_tag, Html}
use flash_pay.Auth.Session.{Role, admin, operator, User, AuthState}
use flash_pay.Auth.Routing.{
  Location, render, home, admin_home, dashboard, admin_root, app, protected_route,
}
use flash_pay.Pages.{session_card}

abbrev target : Option Value → List Text
target (some (string t)) = t ∷ []
target _ = []

-- The targets of the links of a document.
unfoldable pub links : Html → List Text
unfolding text_eq lookup
links [] = []
links (open_tag tag attributes ∷ html) =
    let rest = links html in
    if text_eq tag (text "Link") then target (lookup (text "to") attributes) ++ rest else rest
links (_ ∷ html) = links html

by_role :
    (token : Option Text) (user : User) (r : Role) (at : Location)
    → let state : AuthState = record {
      token = token;
      user = some (record user { role = r });
      is_authenticated = true;
    } in
      (links (session_card state) ≡ text "/admin" ∷ [])
      ↔ (app state at admin_root ≡ render admin_home)
unfolding session_card links app protected_route
by_role token user admin at = ((λ _. refl), λ _. refl)
by_role token user operator at = ground arith

by_user :
    (token : Option Text) (user : Option User) (is_authenticated : Bool) (at : Location)
    → let state : AuthState = record {
      token = token;
      user = user;
      is_authenticated = is_authenticated;
    } in
      app state at dashboard ≡ render home
      → (links (session_card state) ≡ text "/admin" ∷ [])
        ↔ (app state at admin_root ≡ render admin_home)
unfolding session_card links app protected_route
by_user token user false at shown = cc
by_user token none true at shown = ground arith
by_user token (some user) true at shown = by_role token user user.role at

-- Where the home page is shown, it links to the administration exactly where the route of the
-- administration shows its page to that session.
pub links-session_card :
    (state : AuthState) (at : Location)
    → app state at dashboard ≡ render home
    → (links (session_card state) ≡ text "/admin" ∷ [])
      ↔ (app state at admin_root ≡ render admin_home)
links-session_card state at shown = by_user state.token state.user state.is_authenticated at shown
