-- ===== src/Admin/Groups/Laws.antt =====
-- AdminBatchesPage.tsx: theorems on the grouping of batches by their user.
use flash_pay.Prelude.{
  Text, ◌≡◌, refl, ap, sym, ◌∙◌, Bool, Bool-cases, inl, inr, Option, none, some, List, [], ◌∷◌,
  ◌++◌, map, if◌then◌else◌, keep, find, All, text_eq, text_eq_iff, Map, lookup, insert,
  lookup-insert,
}
use mathlib.Core.Path.{subst}
use mathlib.Core.List.{append_assoc, append-nil}
use flash_pay.Batch.{AdminBatchSummary}
use flash_pay.Admin.{AdminUser}
use flash_pay.Admin.Groups.{Group, group_with, add_batches, group_batches_by_user}

abbrev pub batches_of : Option Group → List AdminBatchSummary
batches_of none = []
batches_of (some g) = g.batches

-- The batches of a user in a list of groups.
abbrev pub batches_in : Text → List Group → List AdminBatchSummary
batches_in user_id groups = batches_of (find (λ g. text_eq g.user_id user_id) groups)

abbrev pub is_of : Text → AdminBatchSummary → Bool
is_of user_id batch = text_eq batch.user_id user_id

-- A group stands under the id of its user.
abbrev IsKeyed : Text × Group → Type 0
IsKeyed e = e.1.user_id ≡ e.0

batches_of-group_with :
    (batch : AdminBatchSummary) (user : Option AdminUser) (existing : Option Group)
    → (group_with batch user existing).batches ≡ batches_of existing ++ batch ∷ []
batches_of-group_with batch user none = refl
batches_of-group_with batch user (some g) = refl

-- One batch: it joins the batches of its user.
place :
    (batch : AdminBatchSummary) (user : Option AdminUser) (groups : Map Group) (id : Text)
    (later : List AdminBatchSummary)
    → batches_of (
          if text_eq batch.user_id id
          then some (group_with batch user (lookup batch.user_id groups))
          else lookup id groups)
        ++ later
      ≡ batches_of (lookup id groups) ++ (if text_eq batch.user_id id then batch ∷ later else later)
place batch user groups id later = elim (Bool-cases (text_eq batch.user_id id)) [
  | inl same ↦ rw (same) (
      ap (λ l. l ++ later) (batches_of-group_with batch user (lookup batch.user_id groups))
      ∙ append_assoc (batches_of (lookup batch.user_id groups)) (batch ∷ []) later
      ∙ ap (λ k. batches_of (lookup k groups) ++ batch ∷ later)
          ((text_eq_iff batch.user_id id).0 same))
  | inr other ↦ rw (other) refl
]

lookup-add_batches :
    (users : Map AdminUser) (batches : List AdminBatchSummary) (groups : Map Group) (id : Text)
    → batches_of (lookup id (add_batches users batches groups))
      ≡ batches_of (lookup id groups) ++ keep (is_of id) batches
unfolding add_batches
lookup-add_batches users [] groups id = sym (append-nil (batches_of (lookup id groups)))
lookup-add_batches users (batch ∷ batches) groups id =
    let g = group_with batch (lookup batch.user_id users) (lookup batch.user_id groups) in
    lookup-add_batches users batches (insert batch.user_id g groups) id
    ∙ ap (λ o. batches_of o ++ keep (is_of id) batches) (lookup-insert batch.user_id id g groups)
    ∙ place batch (lookup batch.user_id users) groups id (keep (is_of id) batches)

lookup-find :
    (id : Text) (groups : Map Group)
    → All IsKeyed groups
    → find (λ g. text_eq g.user_id id) (map (λ e. e.1) groups) ≡ lookup id groups
unfolding lookup
lookup-find id [] h = refl
lookup-find id ((k, g) ∷ groups) (keyed, h) = rw (keyed, lookup-find id groups h) refl

insert-IsKeyed :
    (g : Group) (groups : Map Group) → All IsKeyed groups → All IsKeyed (insert g.user_id g groups)
unfolding insert
insert-IsKeyed g [] h = (refl, tt)
insert-IsKeyed g ((k, f) ∷ groups) (keyed, h) = elim (Bool-cases (text_eq k g.user_id)) [
  | inl same ↦ rw (same) (sym ((text_eq_iff k g.user_id).0 same), h)
  | inr other ↦ rw (other) (keyed, insert-IsKeyed g groups h)
]

abbrev IsOf : Text → Option Group → Type 0
IsOf id none = Unit
IsOf id (some g) = g.user_id ≡ id

lookup-keyed : (id : Text) (groups : Map Group) → All IsKeyed groups → IsOf id (lookup id groups)
unfolding lookup
lookup-keyed id [] h = tt
lookup-keyed id ((k, g) ∷ groups) (keyed, h) = elim (Bool-cases (text_eq k id)) [
  | inl same ↦ rw (same) (keyed ∙ (text_eq_iff k id).0 same)
  | inr other ↦ rw (other) (lookup-keyed id groups h)
]

user_id-of :
    (batch : AdminBatchSummary) (user : Option AdminUser) (existing : Option Group)
    → IsOf batch.user_id existing
    → (group_with batch user existing).user_id ≡ batch.user_id
user_id-of batch user none h = refl
user_id-of batch user (some g) h = h

group_with-user_id :
    (batch : AdminBatchSummary) (user : Option AdminUser) (groups : Map Group)
    → All IsKeyed groups
    → (group_with batch user (lookup batch.user_id groups)).user_id ≡ batch.user_id
group_with-user_id batch user groups h =
    user_id-of batch user (lookup batch.user_id groups) (lookup-keyed batch.user_id groups h)

add_batches-IsKeyed :
    (users : Map AdminUser) (batches : List AdminBatchSummary) (groups : Map Group)
    → All IsKeyed groups
    → All IsKeyed (add_batches users batches groups)
unfolding add_batches
add_batches-IsKeyed users [] groups h = h
add_batches-IsKeyed users (batch ∷ batches) groups h =
    let user = lookup batch.user_id users in
    let g = group_with batch user (lookup batch.user_id groups) in
    add_batches-IsKeyed users batches (insert batch.user_id g groups) (
      subst (λ k. All IsKeyed (insert k g groups)) (group_with-user_id batch user groups h)
        (insert-IsKeyed g groups h))

-- Of each user, the group holds exactly the batches of the response that are the user's, in their
-- order; a user without a group has none in the response.
pub group_batches_by_user-keep :
    (batches : List AdminBatchSummary) (users : Map AdminUser) (user_id : Text)
    → batches_in user_id (group_batches_by_user batches users) ≡ keep (is_of user_id) batches
unfolding group_batches_by_user
group_batches_by_user-keep batches users user_id =
    ap batches_of
      (lookup-find user_id (add_batches users batches []) (add_batches-IsKeyed users batches [] tt))
    ∙ lookup-add_batches users batches [] user_id
    ∙ unfold lookup in refl
