-- ===== src/LoadTest/Durations.antt =====
-- run.mjs: `summarizeDurations`, `percentile` and `roundMs`.
pub mod Order
pub mod Rank
pub mod Laws
use flash_pay.Prelude.{
  ℕ, zero, suc, ◌+◌, ◌-◌, ◌*◌, ◌/◌, ◌^◌, Bool, true, false, Option, none, some, List, [], ◌∷◌, leb,
  ◌==◌, if◌then◌else◌, ◌or_else◌, length, get_elem?, min, max,
}
use flash_pay.Prelude.Double.{Double, round_even, halvings, divide, multiply, round}

-- `Math.round(value * 100) / 100`
unfoldable pub round_ms : Double → Double
unfolding divide multiply round
round_ms value = divide (round (multiply value 100)) 100

-- `values.length * 0.95`, rounded to 53 bits: the length is below 2 ^ 53.
unfoldable pub times_length : Double → ℕ → Double
unfolding round_even halvings
times_length p n =
    let exact = p.significand * n in
    let drop = halvings 54 exact in
    record { significand = round_even exact (2 ^ drop) * 2 ^ drop; shift = p.shift }

-- `Math.ceil(x)`
unfoldable pub ceil : Double → ℕ
ceil x = (x.significand + (2 ^ x.shift - 1)) / 2 ^ x.shift

unfoldable pub rank : Double → ℕ → ℕ
unfolding ceil times_length
rank p n = min (n - 1) (max 0 (ceil (times_length p n) - 1))

abbrev pub half : Double
unfolding divide
half = divide 1 2

abbrev pub ninety_five_percent : Double
unfolding divide
ninety_five_percent = divide 95 100

module _ {ℓ} {A : Type ℓ} where
  -- `values.sort(compare)`, which is stable, as an insertion sort; `le` is `compare(x, y) <= 0`.
  unfoldable pub insert_sorted : (A → A → Bool) → A → List A → List A
  insert_sorted le x [] = x ∷ []
  insert_sorted le x (y ∷ ys) = if le x y then x ∷ y ∷ ys else y ∷ insert_sorted le x ys

  unfoldable pub sort : (A → A → Bool) → List A → List A
  unfolding insert_sorted
  sort le [] = []
  sort le (x ∷ xs) = insert_sorted le x (sort le xs)

  -- Of a list that is not empty, with its first value.
  unfoldable pub percentile : A → List A → Double → A
  unfolding rank
  percentile v values p =
      if length (v ∷ values) == 1
      then v
      else get_elem? (v ∷ values) (rank p (length (v ∷ values))) or_else v

  abbrev pub last_of : A → List A → A
  last_of v [] = v
  last_of v (w ∷ values) = last_of w values

pub record Summary {ℓ} (A : Type ℓ) : Type ℓ where
  pub min : A
  pub p50 : A
  pub p95 : A
  pub max : A

-- The values of a sorted list that a summary shows.
unfoldable pub summary_of {ℓ} : {A : Type ℓ} → List A → Option (Summary A)
unfolding percentile
summary_of [] = none
summary_of (v ∷ values) = some (record {
  min = v;
  p50 = percentile v values half;
  p95 = percentile v values ninety_five_percent;
  max = last_of v values;
})

-- `x <= y` of two doubles.
unfoldable pub le_double : Double → Double → Bool
le_double x y = leb (x.significand * 2 ^ y.shift) (y.significand * 2 ^ x.shift)

abbrev pub rounded : Option (Summary Double) → Option (Summary Double)
unfolding round_ms
rounded none = none
rounded (some s) = some (record {
  min = round_ms s.min;
  p50 = round_ms s.p50;
  p95 = round_ms s.p95;
  max = round_ms s.max;
})

-- The results that have the field, which is a finite number or absent.
unfoldable pub finite_values {ℓ} : {A : Type ℓ} → (A → Option Double) → List A → List Double
finite_values field [] = []
finite_values field (r ∷ results) = elim (field r) [
  | none ↦ finite_values field results
  | some v ↦ v ∷ finite_values field results
]

unfoldable pub summarize_durations {ℓ} :
    {A : Type ℓ} → List A → (A → Option Double) → Option (Summary Double)
unfolding finite_values sort le_double summary_of rounded
summarize_durations results field =
    rounded (summary_of (sort le_double (finite_values field results)))
