-- ===== src/Admin/Users/Overrides.antt =====
-- AdminUsersPage.tsx: which role overrides a new list of users leaves.
use flash_pay.Prelude.{
  Text, ◌≡◌, ◌≢◌, ◌↔◌, refl, ap, ◌∙◌, Bool, Bool-cases, inl, inr, true, false, ◌&&◌, not, Option,
  none, some, List, [], ◌∷◌, any, if◌then◌else◌, is_some, text_eq, text_eq_iff, All, Map, lookup,
  remove, lookup-remove, arith,
}
use flash_pay.Auth.Session.{Role, admin, operator}
use flash_pay.Admin.{AdminUser}
use flash_pay.Admin.Users.{is_role, drop_settled, drop_unlisted, reconcile}

-- Whether the id is that of a listed user.
abbrev pub is_listed : List AdminUser → Text → Bool
is_listed users id = any (λ u. text_eq u.id id) users

-- Nobody with the id has the role.
abbrev pub NoneHas : Text → Role → List AdminUser → Type 0
NoneHas id r = All λ u. u.id ≡ id → u.role ≢ r

is_role_iff : (o : Option Role) (r : Role) → (is_role o r ≡ true) ↔ (o ≡ some r)
is_role_iff none r = (λ h. ground arith, λ h. ground arith)
is_role_iff (some admin) admin = (λ _. refl, λ _. refl)
is_role_iff (some operator) operator = (λ _. refl, λ _. refl)
is_role_iff (some admin) operator = (λ h. ground arith, λ h. ground arith)
is_role_iff (some operator) admin = (λ h. ground arith, λ h. ground arith)

-- What one turn of the first loop keeps.
turn_iff :
    (u : AdminUser) (id : Text) (r : Role) (next : Map Role)
    → (lookup id (if is_role (lookup u.id next) u.role then remove u.id next else next) ≡ some r)
      ↔ ((lookup id next ≡ some r) × (u.id ≡ id → u.role ≢ r))
turn_iff u id r next = elim (Bool-cases (is_role (lookup u.id next) u.role)) [
  | inr kept ↦
      rw (kept)
        (λ e. (e, λ same has. ground (arith, is_role_iff (lookup u.id next) u.role)), λ h. h.0)
  | inl settled ↦ elim (Bool-cases (text_eq u.id id)) [
    | inr different ↦
        rw (settled, lookup-remove u.id id next, different)
          (λ e. (e, λ same. absurd (ground (arith, text_eq_iff u.id id))), λ h. h.0)
    | inl same ↦
        rw (settled, lookup-remove u.id id next, same)
          (
            λ e. absurd (ground arith),
            λ h.
                absurd (ground (arith, text_eq_iff u.id id, is_role_iff (lookup u.id next) u.role)),
          )
  ]
]

drop_settled_iff :
    (users : List AdminUser) (id : Text) (r : Role) (next : Map Role)
    → (lookup id (drop_settled users next) ≡ some r)
      ↔ ((lookup id next ≡ some r) × NoneHas id r users)
unfolding drop_settled
drop_settled_iff [] id r next = (λ e. (e, tt), λ h. h.0)
drop_settled_iff (u ∷ users) id r next =
    let rest =
      drop_settled_iff users id r
        (if is_role (lookup u.id next) u.role then remove u.id next else next) in
    let turn = turn_iff u id r next in
    (
      λ e.
          let (kept, none_has) = rest.0 e in
          let (here, not_u) = turn.0 kept in (here, (not_u, none_has)),
      λ (here, (not_u, none_has)). rest.1 (turn.1 (here, not_u), none_has),
    )

lookup-if :
    (b : Bool) (m n : Map Role) (id : Text)
    → lookup id (if b then m else n) ≡ (if b then lookup id m else lookup id n)
lookup-if true m n id = refl
lookup-if false m n id = refl

-- The choice that one turn of the loop makes: `here` and `listed` are whether the entry's user and
-- the looked up one are listed, `same` whether they are one.
choice :
    (here listed same : Bool) (o : Option Role)
    → (same ≡ true → here ≡ listed)
    → (if here then o else if same then none else o) ≡ (if not listed && same then none else o)
choice here listed same o h = ground arith

lookup-unlisted :
    (users : List AdminUser) (k id : Text) (next : Map Role)
    → lookup id (if is_listed users k then next else remove k next)
      ≡ (if not (is_listed users id) && text_eq k id then none else lookup id next)
lookup-unlisted users k id next =
    lookup-if (is_listed users k) next (remove k next) id
    ∙ ap (λ o. if is_listed users k then lookup id next else o) (lookup-remove k id next)
    ∙ choice (is_listed users k) (is_listed users id) (text_eq k id) (lookup id next)
        (λ same. ap (λ i. is_listed users i) ((text_eq_iff k id).0 same))

two_choices :
    (unlisted same : Bool) (r : Role) (o e : Option Role)
    → (if unlisted && is_some e then none else if unlisted && same then none else o)
      ≡ (if unlisted && is_some (if same then some r else e) then none else o)
two_choices true true r o none = refl
two_choices true true r o (some _) = refl
two_choices true false r o e = refl
two_choices false same r o e = refl

lookup-drop_unlisted :
    (users : List AdminUser) (entries next : Map Role) (id : Text)
    → lookup id (drop_unlisted users entries next)
      ≡ (if not (is_listed users id) && is_some (lookup id entries) then none else lookup id next)
unfolding drop_unlisted lookup
lookup-drop_unlisted users [] next id = ground arith
lookup-drop_unlisted users ((k, r) ∷ entries) next id =
    lookup-drop_unlisted users entries (if is_listed users k then next else remove k next) id
    ∙ ap (λ o. if not (is_listed users id) && is_some (lookup id entries) then none else o)
        (lookup-unlisted users k id next)
    ∙ two_choices (not (is_listed users id)) (text_eq k id) r (lookup id next) (lookup id entries)

listed_choice :
    (b : Bool) (o : Option Role)
    → (if not b && is_some o then none else o) ≡ (if b then o else none)
listed_choice true o = refl
listed_choice false none = refl
listed_choice false (some r) = refl

-- After the second loop a listed user's override is as it was, and another has none.
lookup-drop_all :
    (users : List AdminUser) (next : Map Role) (id : Text)
    → lookup id (drop_unlisted users next next)
      ≡ (if is_listed users id then lookup id next else none)
lookup-drop_all users next id =
    lookup-drop_unlisted users next next id ∙ listed_choice (is_listed users id) (lookup id next)

if_some_iff :
    (b : Bool) (o : Option Role) (r : Role)
    → ((if b then o else none) ≡ some r) ↔ ((b ≡ true) × (o ≡ some r))
if_some_iff true o r = (λ e. (refl, e), λ h. h.1)
if_some_iff false o r = (λ e. absurd (ground arith), λ h. absurd (ground arith))

-- After a new list of users, exactly those overrides are left whose id is listed while nobody with
-- that id has the role of the override already.
pub lookup-reconcile :
    (users : List AdminUser) (current : Map Role) (id : Text) (r : Role)
    → (lookup id (reconcile users current) ≡ some r)
      ↔ ((lookup id current ≡ some r) × (is_listed users id ≡ true) × NoneHas id r users)
unfolding reconcile
lookup-reconcile users current id r =
    let next = drop_settled users current in
    let listed = if_some_iff (is_listed users id) (lookup id next) r in
    let settled = drop_settled_iff users id r current in
    rw (lookup-drop_all users next id) (
      λ e.
          let (here, kept) = listed.0 e in
          let (before, none_has) = settled.0 kept in (before, here, none_has),
      λ (before, here, none_has). listed.1 (here, settled.1 (before, none_has)),
    )
