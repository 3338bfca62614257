-- ===== src/Admin/Users/Page/Laws.antt =====
-- AdminUsersPage.tsx: the controls that the list of users offers.
use flash_pay.Prelude.{
  ◌↔◌, ◌⊎◌, inl, inr, text_eq_iff, arith, Text, ◌≡◌, refl, ap, ◌∙◌, Bool, true, false, ◌||◌, Option,
  none, some, List, [], ◌∷◌, ◌++◌, is_some,
}
use mathlib.Core.List.{append_assoc, append-nil}
use flash_pay.Prelude.Html.{close_tag, Html, each, three_ends}
use flash_pay.Prelude.Html.Controls.{disabled_flags}
use flash_pay.Auth.Session.{Role, User}
use flash_pay.Admin.{AdminUser}
use flash_pay.Admin.Users.{PendingAction, UsersState, displayed_role}
use flash_pay.Admin.Users.Page.{is_current_user, row_status, user_row, listed_row, users_table}

-- The two controls of each row.
abbrev pub twice : (AdminUser → Bool) → List AdminUser → List Bool
twice is_disabled [] = []
twice is_disabled (user ∷ users) = is_disabled user ∷ is_disabled user ∷ twice is_disabled users

disabled-user_row :
    (format : Text → Text) (user : AdminUser) (r : Role) (is_current is_busy : Bool)
    (status : Option Text) (rest : Html)
    → disabled_flags (user_row format user r is_current is_busy status ++ rest)
      ≡ (is_current || is_busy) ∷ (is_current || is_busy) ∷ disabled_flags rest
unfolding disabled_flags user_row
disabled-user_row format user r true is_busy none rest = refl
disabled-user_row format user r true is_busy (some m) rest = refl
disabled-user_row format user r false is_busy none rest = refl
disabled-user_row format user r false is_busy (some m) rest = refl

disabled-each :
    (format : Text → Text) (current : Option User) (s : UsersState) (users : List AdminUser)
    (rest : Html)
    → disabled_flags (each (listed_row format current s) users ++ rest)
      ≡ twice (λ u. is_current_user current u || is_some s.pending_action) users
        ++ disabled_flags rest
unfolding listed_row
disabled-each format current s [] rest = refl
disabled-each format current s (user ∷ users) rest =
    let d = is_current_user current user || is_some s.pending_action in
    ap disabled_flags (
      append_assoc (listed_row format current s user) (each (listed_row format current s) users)
        rest)
    ∙ disabled-user_row format user (displayed_role s.role_overrides user)
        (is_current_user current user) (is_some s.pending_action)
        (row_status s.pending_action user.id) (each (listed_row format current s) users ++ rest)
    ∙ ap (λ l. d ∷ d ∷ l) (disabled-each format current s users rest)

-- The user may not be touched: it is the current user, or an action is pending.
abbrev pub IsLocked : Option User → UsersState → AdminUser → Type 0
IsLocked current s user =
    ((c : User) × (current ≡ some c) × (c.id ≡ user.id))
    ⊎ ((a : PendingAction) × (s.pending_action ≡ some a))

-- The controls of a list of users: two for each, disabled exactly where the user is locked.
pub data AreControls (current : Option User) (s : UsersState)
    : List AdminUser → List Bool → Type 0 where
  no_user : AreControls current s [] []
  next_user :
      {user : AdminUser} {users : List AdminUser} {select button : Bool} {flags : List Bool}
      → ((select ≡ true) ↔ IsLocked current s user)
      → ((button ≡ true) ↔ IsLocked current s user)
      → AreControls current s users flags
      → AreControls current s (user ∷ users) (select ∷ button ∷ flags)

current_iff :
    (current : Option User) (user : AdminUser)
    → (is_current_user current user ≡ true) ↔ ((c : User) × (current ≡ some c) × (c.id ≡ user.id))
unfolding is_current_user
current_iff none user = (λ h. absurd (ground arith), λ (c, e, same). absurd (ground arith))
current_iff (some c) user = (
  λ h. (c, refl, (text_eq_iff c.id user.id).0 h),
  λ (d, e, same). (text_eq_iff c.id user.id).1 (ground arith),
)

pending_iff : (o : Option PendingAction) → (is_some o ≡ true) ↔ ((a : PendingAction) × (o ≡ some a))
pending_iff none = (λ h. absurd (ground arith), λ (a, e). absurd (ground arith))
pending_iff (some a) = (λ h. (a, refl), λ h. refl)

or_iff : (a b : Bool) → ((a || b) ≡ true) ↔ ((a ≡ true) ⊎ (b ≡ true))
or_iff true b = (λ h. inl refl, λ h. refl)
or_iff false b = (λ h. inr h, λ h. elim h [ inl e ↦ absurd (ground arith) | inr e ↦ e ])

control_iff :
    (current : Option User) (s : UsersState) (user : AdminUser)
    → ((is_current_user current user || is_some s.pending_action) ≡ true) ↔ IsLocked current s user
control_iff current s user =
    let either = or_iff (is_current_user current user) (is_some s.pending_action) in
    let own = current_iff current user in
    let pending = pending_iff s.pending_action in
    (
      λ h. elim (either.0 h) [ inl e ↦ inl (own.0 e) | inr e ↦ inr (pending.0 e) ],
      λ h. either.1 (elim h [ inl e ↦ inl (own.1 e) | inr e ↦ inr (pending.1 e) ]),
    )

AreControls-twice :
    (current : Option User) (s : UsersState) (users : List AdminUser)
    → AreControls current s users
        (twice (λ u. is_current_user current u || is_some s.pending_action) users)
AreControls-twice current s [] = no_user
AreControls-twice current s (user ∷ users) =
    next_user (control_iff current s user) (control_iff current s user)
      (AreControls-twice current s users)

disabled-users_table :
    (format : Text → Text) (current : Option User) (s : UsersState) (users : List AdminUser)
    → disabled_flags (users_table format current s users)
      ≡ twice (λ u. is_current_user current u || is_some s.pending_action) users
unfolding users_table disabled_flags
disabled-users_table format current s users =
    let is_disabled = λ (u : AdminUser). is_current_user current u || is_some s.pending_action in
    ap disabled_flags (three_ends (each (listed_row format current s) users))
    ∙ disabled-each format current s users (close_tag ∷ close_tag ∷ close_tag ∷ [])
    ∙ append-nil (twice is_disabled users)

-- Each row of the list of users has two controls that can be disabled, the choice of the role and
-- the removal. Both are disabled exactly where the row's user has the id of the current user, or
-- an action is pending.
pub users_table-AreControls :
    (format : Text → Text) (current : Option User) (s : UsersState) (users : List AdminUser)
    → AreControls current s users (disabled_flags (users_table format current s users))
users_table-AreControls format current s users =
    rw (disabled-users_table format current s users) (AreControls-twice current s users)
