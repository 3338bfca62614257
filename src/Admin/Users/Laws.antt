-- ===== src/Admin/Users/Laws.antt =====
-- AdminUsersPage.tsx: theorems on a role change that fails.
use flash_pay.Prelude.{
  Text, ◌≡◌, ◌≢◌, refl, ap, sym, ◌∙◌, Bool-cases, inl, inr, true, false, Option-cases, none, some,
  List, [], ◌∷◌, is_some, text_eq, text_eq_iff, All, Map, insert, remove, map_laws, arith,
}
use flash_pay.Auth.Session.{Role}
use flash_pay.Admin.{AdminUser}
use flash_pay.Failure.{Failure}
use flash_pay.Admin.Users.{
  UsersState, UsersEvent, displayed_role, change_role, open_delete_dialog, close_delete_dialog,
  delete_user, role_failed, role_change, begin_role_change, undo_role_change, open_dialog,
  close_dialog, begin_deletion, users_step,
}

begin_deletion-busy : (s : UsersState) → is_some s.pending_action ≡ true → begin_deletion s ≡ s
unfolding begin_deletion
begin_deletion-busy s busy = elim (Option-cases s.delete_candidate) [
  | inl nobody ↦ rw (nobody) refl
  | inr (user, chosen) ↦ rw (chosen, busy) refl
]

-- The events that call a handler of the page.
pub data IsClick : UsersEvent → Type 0 where
  role_click : {user : AdminUser} {next_role : Role} → IsClick (change_role user next_role)
  open_click : {user : AdminUser} → IsClick (open_delete_dialog user)
  close_click : IsClick close_delete_dialog
  delete_click : IsClick delete_user

abbrev pub users_steps : UsersState → List UsersEvent → UsersState
users_steps s [] = s
users_steps s (event ∷ events) = users_steps (users_step s event) events

-- While an action is pending, no handler of the page changes anything.
step-busy :
    (s : UsersState) (event : UsersEvent)
    → is_some s.pending_action ≡ true
    → IsClick event
    → users_step s event ≡ s
unfolding users_step begin_role_change open_dialog close_dialog
step-busy s _ busy role_click = rw (busy) refl
step-busy s _ busy open_click = rw (busy) refl
step-busy s _ busy close_click = rw (busy) refl
step-busy s _ busy delete_click = begin_deletion-busy s busy

steps-busy :
    (s : UsersState) (events : List UsersEvent)
    → is_some s.pending_action ≡ true
    → All IsClick events
    → users_steps s events ≡ s
steps-busy s [] busy h = refl
steps-busy s (event ∷ events) busy (handled, h) =
    ap (λ t. users_steps t events) (step-busy s event busy handled) ∙ steps-busy s events busy h

displayed_role-remove :
    (overrides : Map Role) (id : Text) (next_role : Role) (other : AdminUser)
    → (other.id ≡ id
        → displayed_role (remove id (insert id next_role overrides)) other ≡ other.role)
      × (other.id ≢ id
          → displayed_role (remove id (insert id next_role overrides)) other
            ≡ displayed_role overrides other)
unfolding displayed_role
displayed_role-remove overrides id next_role other = elim (Bool-cases (text_eq id other.id)) [
  | inl same ↦ (
    λ _. simp (map_laws, same) refl,
    λ different. absurd (different (sym ((text_eq_iff id other.id).0 same))),
  )
  | inr different ↦ (
    λ same. absurd (ground (arith, text_eq_iff id other.id)),
    λ _. simp (map_laws, different) refl,
  )
]

-- A role change that is begun while no action is pending and then fails drops the override of its
-- user, whatever is clicked in between: the user is then shown with the role of the list, whether
-- or not an override was there before the change. A user with another id is shown with the role of
-- before, the dialog is as before, and no action is pending.
pub users_step-rollback :
    (s : UsersState) (user other : AdminUser) (next_role : Role) (clicks : List UsersEvent)
    (failure : Failure)
    → is_some s.pending_action ≡ false
    → All IsClick clicks
    → let t =
        users_step
          (users_steps (users_step s (change_role user next_role)) clicks)
          (role_failed user failure) in
      (other.id ≡ user.id → displayed_role t.role_overrides other ≡ other.role)
      × (other.id ≢ user.id
          → displayed_role t.role_overrides other ≡ displayed_role s.role_overrides other)
      × (t.delete_candidate ≡ s.delete_candidate)
      × (t.pending_action ≡ none)
unfolding users_step begin_role_change undo_role_change
users_step-rollback s user other next_role clicks failure idle handled =
    let shown = displayed_role-remove s.role_overrides user.id next_role other in
    let begun : UsersState = record s {
      feedback = none;
      pending_action = some (role_change user.id);
      role_overrides = insert user.id next_role s.role_overrides;
    } in
    let begins : begin_role_change s user next_role ≡ begun = rw (idle) refl in
    rw (begins, steps-busy begun clicks refl handled) (shown.0, shown.1, refl, refl)
