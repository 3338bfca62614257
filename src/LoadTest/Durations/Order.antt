-- ===== src/LoadTest/Durations/Order.antt =====
-- run.mjs: the sort of the durations, by any order that is total and transitive.
use flash_pay.Prelude.{
  ℕ, zero, suc, ◌≤◌, ◌≡◌, Bool, true, false, Bool-cases, inl, inr, some, List, [], ◌∷◌, get_elem?,
  All, arith,
}
use mathlib.Core.List.{Perm}
use mathlib.Core.List.Perm
use flash_pay.LoadTest.Durations.{insert_sorted, sort}

-- A test of an order.
pub record IsOrder {ℓ} {A : Type ℓ} (le : A → A → Bool) : Type ℓ where
  pub total : (x y : A) → le x y ≡ false → le y x ≡ true
  pub trans : (x y z : A) → le x y ≡ true → le y z ≡ true → le x z ≡ true

module _ {ℓ} {A : Type ℓ} (le : A → A → Bool) where
  abbrev pub IsLeast : A → List A → Type 0
  IsLeast x = All λ y. le x y ≡ true

  -- Each value is at most those after it.
  abbrev pub IsSorted : List A → Type 0
  IsSorted [] = Unit
  IsSorted (x ∷ xs) = IsLeast x xs × IsSorted xs

  insert_sorted-perm : (x : A) (ys : List A) → Perm (insert_sorted le x ys) (x ∷ ys)
  unfolding insert_sorted
  insert_sorted-perm x [] = Perm.rfl
  insert_sorted-perm x (y ∷ ys) = elim (Bool-cases (le x y)) [
    | inl first ↦ rw first Perm.rfl
    | inr later ↦ rw later (Perm.trans (Perm.cons y (insert_sorted-perm x ys)) (Perm.swap x y ys))
  ]

  pub sort-perm : (xs : List A) → Perm (sort le xs) xs
  unfolding sort
  sort-perm [] = Perm.rfl
  sort-perm (x ∷ xs) = Perm.trans (insert_sorted-perm x (sort le xs)) (Perm.cons x (sort-perm xs))

  IsLeast-insert_sorted :
      (m x : A) (ys : List A) → le m x ≡ true → IsLeast m ys → IsLeast m (insert_sorted le x ys)
  unfolding insert_sorted
  IsLeast-insert_sorted m x [] h k = (h, tt)
  IsLeast-insert_sorted m x (y ∷ ys) h (k, ks) = elim (Bool-cases (le x y)) [
    | inl first ↦ rw first (h, (k, ks))
    | inr later ↦ rw later (k, IsLeast-insert_sorted m x ys h ks)
  ]

  module _ (order : IsOrder le) where
    IsLeast-trans : (x y : A) (ys : List A) → le x y ≡ true → IsLeast y ys → IsLeast x ys
    IsLeast-trans x y [] h k = tt
    IsLeast-trans x y (z ∷ ys) h (k, ks) = (order.trans x y z h k, IsLeast-trans x y ys h ks)

    insert_sorted-IsSorted : (x : A) (ys : List A) → IsSorted ys → IsSorted (insert_sorted le x ys)
    unfolding insert_sorted
    insert_sorted-IsSorted x [] s = (tt, tt)
    insert_sorted-IsSorted x (y ∷ ys) (below, s) = elim (Bool-cases (le x y)) [
      | inl first ↦ rw first ((first, IsLeast-trans x y ys first below), (below, s))
      | inr later ↦ rw later (
        IsLeast-insert_sorted y x ys (order.total x y later) below,
        insert_sorted-IsSorted x ys s,
      )
    ]

    pub sort-IsSorted : (xs : List A) → IsSorted (sort le xs)
    unfolding sort
    sort-IsSorted [] = tt
    sort-IsSorted (x ∷ xs) = insert_sorted-IsSorted x (sort le xs) (sort-IsSorted xs)

    pub le_refl : (x : A) → le x x ≡ true
    le_refl x = elim (Bool-cases (le x x)) [ inl h ↦ h | inr h ↦ order.total x x h ]

    IsLeast-get_elem? :
        (x : A) (xs : List A) (j : ℕ) {b : A}
        → IsLeast x xs
        → get_elem? xs j ≡ some b
        → le x b ≡ true
    IsLeast-get_elem? x [] j h e = cc
    IsLeast-get_elem? x (y ∷ xs) zero h e = ground (arith, h.0)
    IsLeast-get_elem? x (y ∷ xs) (suc j) h e = IsLeast-get_elem? x xs j h.1 e

    -- In a sorted list a value at an earlier place is at most one at a later place.
    pub get_elem?-IsSorted :
        (xs : List A) (i j : ℕ) {a b : A}
        → IsSorted xs
        → i ≤ j
        → get_elem? xs i ≡ some a
        → get_elem? xs j ≡ some b
        → le a b ≡ true
    get_elem?-IsSorted [] i j s h e f = cc
    get_elem?-IsSorted (x ∷ xs) zero zero s h e f = ground (arith, le_refl x)
    get_elem?-IsSorted (x ∷ xs) zero (suc j) s h e f =
        ground (arith, IsLeast-get_elem? x xs j s.0 f)
    get_elem?-IsSorted (x ∷ xs) (suc i) zero s h e f = absurd (omega arith)
    get_elem?-IsSorted (x ∷ xs) (suc i) (suc j) s h e f =
        get_elem?-IsSorted xs i j s.1 (omega arith) e f
