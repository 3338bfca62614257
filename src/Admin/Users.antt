-- ===== src/Admin/Users.antt =====
-- apps/frontend/src/pages/AdminUsersPage.tsx: the state of the page, its handlers, each cut at its
-- awaits, and the effect that follows a new list of users.
pub mod Laws
pub mod Overrides
pub mod Page
use flash_pay.Prelude.{
  Text, text, Option, none, some, Bool, true, false, ◌&&◌, ◌||◌, not, List, [], ◌∷◌, ◌++◌, map, any,
  if◌then◌else◌, ◌or_else◌, is_some, text_eq, Map, lookup, insert, remove,
}
use flash_pay.Auth.Session.{Role, admin, operator, role_text}
use flash_pay.Admin.{AdminUser}
use flash_pay.Failure.{Failure, users_error_message}

pub data Feedback : Type 0 where
  succeeded : Text → Feedback
  failed : Text → Feedback

pub data PendingAction : Type 0 where
  role_change : Text → PendingAction
  deletion : Text → PendingAction

pub record UsersState : Type 0 where
  pub role_overrides : Map Role
  pub feedback : Option Feedback
  pub pending_action : Option PendingAction
  pub delete_candidate : Option AdminUser

abbrev pub initial_users_state : UsersState
initial_users_state = record {
  role_overrides = [];
  feedback = none;
  pending_action = none;
  delete_candidate = none;
}

abbrev pub same_role : Role → Role → Bool
same_role admin admin = true
same_role operator operator = true
same_role _ _ = false

abbrev pub role_label : Role → Text
role_label admin = text "Admin"
role_label operator = text "Operator"

abbrev pub is_role : Option Role → Role → Bool
is_role none r = false
is_role (some q) r = same_role q r

-- The first loop of the effect: an override that the server has caught up with is dropped.
unfoldable pub drop_settled : List AdminUser → Map Role → Map Role
unfolding lookup remove
drop_settled [] next = next
drop_settled (user ∷ users) next =
    drop_settled users
      (if is_role (lookup user.id next) user.role then remove user.id next else next)

-- The second loop: an override of a user who is not listed is dropped.
unfoldable pub drop_unlisted : List AdminUser → List (Text × Role) → Map Role → Map Role
unfolding remove
drop_unlisted users [] next = next
drop_unlisted users ((id, r) ∷ rest) next =
    drop_unlisted users rest (if any (λ u. text_eq u.id id) users then next else remove id next)

unfoldable pub reconcile : List AdminUser → Map Role → Map Role
unfolding drop_settled drop_unlisted
reconcile users current = let next = drop_settled users current in drop_unlisted users next next

unfoldable pub displayed_role : Map Role → AdminUser → Role
unfolding lookup
displayed_role overrides user = lookup user.id overrides or_else user.role

-- What happens to the page. The events from `role_changed` on are the answers that a handler that
-- has begun awaits: the mutation and the refetch done, or one of them failed.
pub data UsersEvent : Type 0 where
  change_role : AdminUser → Role → UsersEvent
  open_delete_dialog : AdminUser → UsersEvent
  close_delete_dialog delete_user : UsersEvent
  users_received : List AdminUser → UsersEvent
  role_changed : AdminUser → Role → UsersEvent
  role_failed : AdminUser → Failure → UsersEvent
  user_deleted deletion_done : AdminUser → UsersEvent
  deletion_failed : Failure → UsersEvent

-- `handleRoleChange` up to the call of the mutation; a busy page does nothing.
unfoldable pub begin_role_change : UsersState → AdminUser → Role → UsersState
unfolding insert
begin_role_change s user next_role = if is_some s.pending_action then s else record s {
  feedback = none;
  pending_action = some (role_change user.id);
  role_overrides = insert user.id next_role s.role_overrides;
}

-- The rest of the `try`, and the `finally`.
unfoldable pub finish_role_change : UsersState → AdminUser → Role → UsersState
finish_role_change s user next_role = record s {
  feedback =
      some
        (succeeded (user.name ++ (text " agora esta como " ++ (role_label next_role ++ text "."))));
  pending_action = none;
}

-- The `catch`, and the `finally`.
unfoldable pub undo_role_change : UsersState → AdminUser → Failure → UsersState
unfolding remove users_error_message
undo_role_change s user failure = record s {
  role_overrides = remove user.id s.role_overrides;
  feedback =
      some (
        failed
          (users_error_message (text "Nao foi possivel atualizar a role do usuario.") failure));
  pending_action = none;
}

unfoldable pub open_dialog : UsersState → AdminUser → UsersState
open_dialog s user =
    if is_some s.pending_action
    then s
    else record s { feedback = none; delete_candidate = some user }

unfoldable pub close_dialog : UsersState → UsersState
close_dialog s = if is_some s.pending_action then s else record s { delete_candidate = none }

-- `handleDeleteUser` up to the call of the mutation.
unfoldable pub begin_deletion : UsersState → UsersState
begin_deletion s = elim s.delete_candidate [
  | none ↦ s
  | some user ↦
      if is_some s.pending_action
      then s
      else record s { feedback = none; pending_action = some (deletion user.id) }
]

-- Between the mutation and the refetch.
unfoldable pub forget_user : UsersState → AdminUser → UsersState
unfolding remove
forget_user s user = record s {
  delete_candidate = none;
  role_overrides = remove user.id s.role_overrides;
}

unfoldable pub finish_deletion : UsersState → AdminUser → UsersState
finish_deletion s user = record s {
  feedback = some (succeeded (user.name ++ text " foi removido com sucesso."));
  pending_action = none;
}

unfoldable pub fail_deletion : UsersState → Failure → UsersState
unfolding users_error_message
fail_deletion s failure = record s {
  feedback =
      some (failed (users_error_message (text "Nao foi possivel remover o usuario.") failure));
  pending_action = none;
}

unfoldable pub users_step : UsersState → UsersEvent → UsersState
unfolding begin_role_change finish_role_change undo_role_change open_dialog close_dialog
    begin_deletion forget_user finish_deletion fail_deletion reconcile
users_step s (change_role user next_role) = begin_role_change s user next_role
users_step s (open_delete_dialog user) = open_dialog s user
users_step s close_delete_dialog = close_dialog s
users_step s delete_user = begin_deletion s
users_step s (users_received users) = record s { role_overrides = reconcile users s.role_overrides }
users_step s (role_changed user next_role) = finish_role_change s user next_role
users_step s (role_failed user failure) = undo_role_change s user failure
users_step s (user_deleted user) = forget_user s user
users_step s (deletion_done user) = finish_deletion s user
users_step s (deletion_failed failure) = fail_deletion s failure
