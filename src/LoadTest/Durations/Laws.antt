-- ===== src/LoadTest/Durations/Laws.antt =====
-- run.mjs: the summary of the durations.
use flash_pay.Prelude.{
  ℕ, zero, suc, ◌*◌, ◌^◌, ◌≤◌, ◌<◌, ◌≡◌, refl, Bool, true, false, Bool-cases, inl, inr, Option,
  none, some, List, [], ◌∷◌, ◌==◌, leb→le, le→leb, ◌or_else◌, length, get_elem?, All, arith,
}
use mathlib.Core.List.{Mem, mem-cons_self, mem-cons_of_mem}
use mathlib.Core.List.Perm
use mathlib.Core.Path.{subst}
use mathlib.Core.Option.{some-injective}
use native.Mathlib.Nat.{one-le-pow, le_of_mul-le-mul_left, mul-le-mul_left}
use flash_pay.Prelude.Double.{Double}
use flash_pay.LoadTest.Durations.{
  insert_sorted, sort, Summary, summary_of, percentile, last_of, rank, half, ninety_five_percent,
  le_double, rounded, finite_values, summarize_durations,
}
use flash_pay.LoadTest.Durations.Order.{
  IsOrder, IsSorted, sort-perm, sort-IsSorted, le_refl, get_elem?-IsSorted,
}
use flash_pay.LoadTest.Durations.Rank.{rank-le, rank-lt}

only_place : (i : ℕ) → i < 1 → i ≡ 0
only_place i h = omega arith

two_or_more : (n : ℕ) → (suc (suc n) == 1) ≡ false
two_or_more n = ground arith

module _ {ℓ} {A : Type ℓ} where
  get_elem?-lt : (xs : List A) (i : ℕ) → i < length xs → (a : A) × (get_elem? xs i ≡ some a)
  get_elem?-lt [] i h = absurd (omega arith)
  get_elem?-lt (x ∷ xs) zero h = (x, refl)
  get_elem?-lt (x ∷ xs) (suc i) h = get_elem?-lt xs i (omega arith)

  get_elem?-mem : (xs : List A) (i : ℕ) {a : A} → get_elem? xs i ≡ some a → Mem a xs
  get_elem?-mem [] i e = cc
  get_elem?-mem (x ∷ xs) zero e = subst (λ a. Mem a (x ∷ xs)) (some-injective _ _ e) mem-cons_self
  get_elem?-mem (x ∷ xs) (suc i) e = mem-cons_of_mem x (get_elem?-mem xs i e)

  or_else_at : (v : A) (o : Option A) {a : A} → o ≡ some a → o ≡ some (o or_else v)
  or_else_at v none e = cc
  or_else_at v (some b) e = refl

  -- The percentile is the value at its place.
  percentile-get :
      (v : A) (values : List A) (p : Double)
      → get_elem? (v ∷ values) (rank p (length (v ∷ values))) ≡ some (percentile v values p)
  unfolding percentile
  percentile-get v [] p = rw (only_place (rank p 1) (rank-lt p 1 (omega arith))) refl
  percentile-get v (w ∷ values) p =
      let n = length (v ∷ w ∷ values) in
      rw (two_or_more (length values)) (
        or_else_at v (get_elem? (v ∷ w ∷ values) (rank p n))
          (get_elem?-lt (v ∷ w ∷ values) (rank p n) (rank-lt p n (omega arith))).1)

  last_of-get :
      (v : A) (values : List A) → get_elem? (v ∷ values) (length values) ≡ some (last_of v values)
  last_of-get v [] = refl
  last_of-get v (w ∷ values) = last_of-get w values

module _ {ℓ} {A : Type ℓ} (le : A → A → Bool) (P : A → Type 0) where
  All-insert_sorted : (x : A) (ys : List A) → All P (insert_sorted le x ys) → P x × All P ys
  unfolding insert_sorted
  All-insert_sorted x [] h = h
  All-insert_sorted x (y ∷ ys) h = elim (Bool-cases (le x y)) [
    | inl first ↦ rw first at h
    | inr later ↦
        let k : P y × All P (insert_sorted le x ys) = rw later at h in
        let (p, rest) = All-insert_sorted x ys k.1 in (p, (k.0, rest))
  ]

  All-sort : (xs : List A) → All P (sort le xs) → All P xs
  unfolding sort
  All-sort [] h = tt
  All-sort (x ∷ xs) h = let (p, rest) = All-insert_sorted x (sort le xs) h in (p, All-sort xs rest)

cross_trans : (a b c x y z : ℕ) → 0 < y → a * y ≤ b * x → b * z ≤ c * y → a * z ≤ c * x
cross_trans a b c x y z pos h k =
    le_of_mul-le-mul_left {m = a * z} {n = c * x} {k = y}
      (omega (arith, mul-le-mul_left z h, mul-le-mul_left x k)) pos

pub le_double-IsOrder : IsOrder le_double
unfolding le_double
le_double-IsOrder = record {
  total = λ x y h. ground arith;
  trans = λ x y z h k. le→leb _ _ (
      cross_trans x.significand y.significand z.significand (2 ^ x.shift) (2 ^ y.shift)
        (2 ^ z.shift) (one-le-pow y.shift 2 (omega arith)) (leb→le _ _ h) (leb→le _ _ k));
}

-- The values that a summary shows of `values`: each is one of them, they ascend, and all values
-- lie between the first and the last.
pub record IsSummary {ℓ} {A : Type ℓ} (le : A → A → Bool) (values : List A) (s : Summary A)
    : Type ℓ where
  pub members : Mem s.min values × Mem s.p50 values × Mem s.p95 values × Mem s.max values
  pub above_min : le s.min s.p50 ≡ true
  pub above_p50 : le s.p50 s.p95 ≡ true
  pub above_p95 : le s.p95 s.max ≡ true
  pub bounds : All (λ x. (le s.min x ≡ true) × (le x s.max ≡ true)) values

module _ {ℓ} {A : Type ℓ} (le : A → A → Bool) (order : IsOrder le) where
  IsGreatest-last_of :
      (v : A) (values : List A)
      → IsSorted le (v ∷ values)
      → All (λ x. le x (last_of v values) ≡ true) (v ∷ values)
  IsGreatest-last_of v [] sorted = (le_refl le order v, tt)
  IsGreatest-last_of v (w ∷ values) sorted =
      let rest = IsGreatest-last_of w values sorted.1 in
      (order.trans v w (last_of w values) sorted.0.0 rest.0, rest)

  All-both : (P Q : A → Type 0) (xs : List A) → All P xs → All Q xs → All (λ x. P x × Q x) xs
  All-both P Q [] h k = tt
  All-both P Q (x ∷ xs) (p, h) (q, k) = ((p, q), All-both P Q xs h k)

  sorted-IsSummary :
      (v : A) (values : List A)
      → IsSorted le (v ∷ values)
      → IsSummary le (v ∷ values) (record {
        min = v;
        p50 = percentile v values half;
        p95 = percentile v values ninety_five_percent;
        max = last_of v values;
      })
  sorted-IsSummary v values sorted =
      let all = v ∷ values in
      let n = length all in
      let at_half = percentile-get v values half in
      let at_95 = percentile-get v values ninety_five_percent in
      let at_end = last_of-get v values in
      record {
        members = (
          mem-cons_self,
          get_elem?-mem all (rank half n) at_half,
          get_elem?-mem all (rank ninety_five_percent n) at_95,
          get_elem?-mem all (length values) at_end,
        );
        above_min =
            get_elem?-IsSorted le order all 0 (rank half n) sorted (omega arith) refl at_half;
        above_p50 =
            get_elem?-IsSorted le order all (rank half n) (rank ninety_five_percent n) sorted
              (rank-le n (omega arith)) at_half at_95;
        above_p95 =
            get_elem?-IsSorted le order all (rank ninety_five_percent n) (length values) sorted
              (omega (arith, rank-lt ninety_five_percent n (omega arith))) at_95 at_end;
        bounds =
            All-both (λ x. le v x ≡ true) (λ x. le x (last_of v values) ≡ true) all
              (le_refl le order v, sorted.0) (IsGreatest-last_of v values sorted);
      }

  -- A summary of a permutation is one of the values.
  IsSummary-sort :
      (values : List A) {s : Summary A} → IsSummary le (sort le values) s → IsSummary le values s
  IsSummary-sort values i =
      let same = sort-perm le values in
      record {
        members = (
          (Perm.mem_iff same).0 i.members.0,
          (Perm.mem_iff same).0 i.members.1,
          (Perm.mem_iff same).0 i.members.2,
          (Perm.mem_iff same).0 i.members.3,
        );
        above_min = i.above_min;
        above_p50 = i.above_p50;
        above_p95 = i.above_p95;
        bounds = All-sort le _ values i.bounds;
      }

  summary_of-IsSummary :
      (values : List A) {s : Summary A}
      → IsSorted le values
      → summary_of values ≡ some s
      → IsSummary le values s
  unfolding summary_of
  summary_of-IsSummary [] sorted h = cc
  summary_of-IsSummary (v ∷ values) sorted h =
      subst (IsSummary le (v ∷ values)) (some-injective _ _ h) (sorted-IsSummary v values sorted)

rounded-some :
    (o : Option (Summary Double)) {shown : Summary Double}
    → rounded o ≡ some shown
    → (s : Summary Double) × (o ≡ some s) × (rounded (some s) ≡ some shown)
unfolding rounded
rounded-some none h = cc
rounded-some (some s) h = (s, refl, h)

-- A summary of the durations of results shows four of these durations, rounded: before the
-- rounding they ascend from the minimum over the median and the 95th percentile to the maximum,
-- and every duration lies between the minimum and the maximum.
pub summarize_durations-IsSummary {ℓ} :
    {A : Type ℓ} (results : List A) (field : A → Option Double) {shown : Summary Double}
    → summarize_durations results field ≡ some shown
    → (s : Summary Double) × (rounded (some s) ≡ some shown)
      × IsSummary le_double (finite_values field results) s
unfolding summarize_durations
summarize_durations-IsSummary results field h =
    let values = finite_values field results in
    let (s, from, shows) = rounded-some (summary_of (sort le_double values)) h in
    (
      s,
      shows,
      IsSummary-sort le_double le_double-IsOrder values (
          summary_of-IsSummary le_double le_double-IsOrder (sort le_double values)
            (sort-IsSorted le_double le_double-IsOrder values) from),
    )
