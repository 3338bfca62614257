-- ===== src/Admin/Groups.antt =====
-- apps/frontend/src/pages/AdminBatchesPage.tsx: the batches of a page, grouped by their user.
pub mod Laws
use flash_pay.Prelude.{
  ℕ, Text, text, ◌≡◌, refl, ap, sym, ◌∙◌, Bool, Bool-cases, inl, inr, true, false, Option, none,
  some, List, [], ◌∷◌, ◌++◌, map, if◌then◌else◌, ◌or_else◌, keep, text_eq, text_eq_iff, Map, lookup,
  insert, lookup-insert, arith,
}
use mathlib.Core.List.{append_assoc, append-nil}
use flash_pay.Batch.{BatchPaymentStatus, BatchStatusCount, AdminBatchSummary}
use flash_pay.Admin.{AdminUser}

-- `new Map(users.map((user) => [user.id, user]))`
unfoldable pub users_by_id : List AdminUser → Map AdminUser → Map AdminUser
unfolding insert
users_by_id [] m = m
users_by_id (user ∷ users) m = users_by_id users (insert user.id user m)

pub record UserDisplay : Type 0 where
  pub label : Text
  pub email : Text

unfoldable pub get_user_display : AdminBatchSummary → Map AdminUser → UserDisplay
unfolding lookup
get_user_display batch users = elim (lookup batch.user_id users) [
  | none ↦ record {
    label = batch.user_id;
    email = text "Usuario nao encontrado na lista administrativa.";
  }
  | some user ↦ record { label = user.name; email = user.email }
]

-- A member of `GroupedBatches`.
pub record Group : Type 0 where
  pub user_id : Text
  pub user_label : Text
  pub user_email : Option Text
  pub batches : List AdminBatchSummary

abbrev pub email_of : Option AdminUser → Option Text
email_of none = none
email_of (some user) = some user.email

abbrev pub label_of : Text → Option AdminUser → Text
label_of id none = id
label_of id (some user) = user.name

-- The group of a batch after the loop has met it: `existing` is what the map has of its user.
abbrev pub group_with : AdminBatchSummary → Option AdminUser → Option Group → Group
group_with batch user (some existing) = record existing { batches = existing.batches ++ batch ∷ [] }
group_with batch user none = record {
  user_id = batch.user_id;
  user_label = label_of batch.user_id user;
  user_email = email_of user;
  batches = batch ∷ [];
}

-- The loop, from the groups so far. A push to a group of the map is a write of the group in place.
unfoldable pub add_batches : Map AdminUser → List AdminBatchSummary → Map Group → Map Group
unfolding lookup insert
add_batches users [] groups = groups
add_batches users (batch ∷ batches) groups = add_batches users batches (
    insert batch.user_id
      (group_with batch (lookup batch.user_id users) (lookup batch.user_id groups)) groups)

unfoldable pub group_batches_by_user : List AdminBatchSummary → Map AdminUser → List Group
unfolding add_batches
group_batches_by_user batches users = map (λ e. e.1) (add_batches users batches [])
