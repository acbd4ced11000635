-- ===== src/Combine/Bounds.antt =====
-- client-lib/src/util/SchemaUtil.ts, `combineValueTypesStatistics`: the maxima and minima in the combined
-- statistics.
use datapm.Common.{
  ℕ, ◌≤◌, true, false, Option, none, some, ltb, ltb-false, ◌≡◌, ◌⊎◌, refl, ap, ◌∙◌, inl, inr,
  Bool-cases, if◌then◌else◌, arith,
}
use datapm.PackageFile.Json.{Number}
use datapm.PackageFile.PropertyTree.{ScalarStatistics}
use datapm.Combine.Values.{
  NumberOrder, max_or_null, min_or_null, larger, smaller, date_max_or_null, date_min_or_null,
  later_date, last_date, join_values, only_number, number_max_or_null, number_min_or_null,
}
use datapm.Combine.Trees.{combine_scalars}

module _ {A : Type 0} (IsBelow : A → A → Type 0) where
  -- A value that is known lies below one that is known too.
  abbrev pub IsBounded : Option A → Option A → Type 0
  IsBounded none c = Unit
  IsBounded (some a) none = ⊥
  IsBounded (some a) (some c) = IsBelow a c

  -- The largest of the values that are known, if there is one, for the order in which `IsBelow` is "at most".
  abbrev pub IsLargest : Option A → Option A → Option A → Type 0
  IsLargest a b c = IsBounded a c × IsBounded b c × ((c ≡ a) ⊎ (c ≡ b))

  join_values-IsLargest :
      (f : A → A → A)
      → ((a : A) → IsBelow a a)
      → ((a b : A) → IsBelow a (f a b) × IsBelow b (f a b) × ((f a b ≡ a) ⊎ (f a b ≡ b)))
      → (a b : Option A) → IsLargest a b (join_values f a b)
  unfolding join_values
  join_values-IsLargest f same picks none none = (tt, tt, inl refl)
  join_values-IsLargest f same picks none (some b) = (tt, same b, inr refl)
  join_values-IsLargest f same picks (some a) none = (same a, tt, inl refl)
  join_values-IsLargest f same picks (some a) (some b) =
      let (left, right, one) = picks a b in
      (left, right, elim one [ inl e ↦ inl (ap some e) | inr e ↦ inr (ap some e) ])

abbrev pub IsAtMost : ℕ → ℕ → Type 0
IsAtMost a b = a ≤ b

abbrev pub IsAtLeast : ℕ → ℕ → Type 0
IsAtLeast a b = b ≤ a

max_or_null-IsLargest : (a b : Option ℕ) → IsLargest IsAtMost a b (max_or_null a b)
unfolding max_or_null
max_or_null-IsLargest =
    join_values-IsLargest IsAtMost larger (λ a. omega arith) (λ a b. ground arith)

min_or_null-IsLargest : (a b : Option ℕ) → IsLargest IsAtLeast a b (min_or_null a b)
unfolding min_or_null
min_or_null-IsLargest =
    join_values-IsLargest IsAtLeast smaller (λ a. omega arith) (λ a b. ground arith)

date_max_or_null-IsLargest : (a b : Option ℕ) → IsLargest IsAtMost a b (date_max_or_null a b)
unfolding date_max_or_null
date_max_or_null-IsLargest =
    join_values-IsLargest IsAtMost later_date (λ a. omega arith) (λ a b. ground arith)

later_than_last : (c : ℕ) → c ≤ last_date → later_date last_date c ≡ last_date
later_than_last c h = elim (Bool-cases (ltb c last_date)) [
  | inl t ↦ rw t
  | inr f ↦ let k = ltb-false _ _ f in rw f (omega arith)
]

module _ (order : NumberOrder) where
  abbrev pub IsNotAbove : Number → Number → Type 0
  IsNotAbove m n = order.below n m ≡ false

  abbrev pub IsNotBelow : Number → Number → Type 0
  IsNotBelow m n = order.below m n ≡ false

  module _ (asymmetric : (m n : Number) → order.below m n ≡ true → order.below n m ≡ false) where
    irreflexive : (n : Number) → order.below n n ≡ false
    irreflexive n = elim (Bool-cases (order.below n n)) [ inl t ↦ asymmetric n n t | inr f ↦ f ]

    number_max_or_null-IsLargest :
        (a b : Option Number)
        → IsLargest IsNotAbove
            (only_number order a)
            (only_number order b)
            (number_max_or_null order a b)
    unfolding number_max_or_null
    number_max_or_null-IsLargest a b =
        join_values-IsLargest IsNotAbove (λ x y. if order.below x y then y else x) irreflexive
          (λ x y. elim (Bool-cases (order.below x y)) [
            | inl t ↦ rw t (asymmetric x y t, irreflexive y, inr refl)
            | inr f ↦ rw f (irreflexive x, f, inl refl)
          ])
          (only_number order a) (only_number order b)

    number_min_or_null-IsLargest :
        (a b : Option Number)
        → IsLargest IsNotBelow
            (only_number order a)
            (only_number order b)
            (number_min_or_null order a b)
    unfolding number_min_or_null
    number_min_or_null-IsLargest a b =
        join_values-IsLargest IsNotBelow (λ x y. if order.below y x then y else x) irreflexive
          (λ x y. elim (Bool-cases (order.below y x)) [
            | inl t ↦ rw t (asymmetric y x t, irreflexive y, inr refl)
            | inr f ↦ rw f (irreflexive x, f, inl refl)
          ])
          (only_number order a) (only_number order b)

    -- If no two numbers are below each other, then in the combined statistics of two value types each of
    -- the following is the largest of the two that it is combined from, or of those of them that are there:
    -- the largest lengths of texts and of arrays, the largest number, precision, scale and millisecond
    -- precision, and the last date. The smallest number and the smallest length of arrays are the
    -- smallest. Numbers that `is-number` refuses count as not there.
    pub combine_scalars-extremes :
        (et nt : ScalarStatistics)
        → let c = combine_scalars order et nt in
          IsLargest IsAtMost et.string_max_length nt.string_max_length c.string_max_length
          × IsLargest IsAtMost et.array_max_length nt.array_max_length c.array_max_length
          × IsLargest IsAtMost et.number_max_precision nt.number_max_precision
              c.number_max_precision
          × IsLargest IsAtMost et.number_max_scale nt.number_max_scale c.number_max_scale
          × IsLargest IsAtMost et.date_max_millseconds_precision nt.date_max_millseconds_precision
              c.date_max_millseconds_precision
          × IsLargest IsAtMost et.date_max_value nt.date_max_value c.date_max_value
          × IsLargest IsNotAbove
              (only_number order et.number_max_value)
              (only_number order nt.number_max_value)
              c.number_max_value
          × IsLargest IsNotBelow
              (only_number order et.number_min_value)
              (only_number order nt.number_min_value)
              c.number_min_value
          × IsLargest IsAtLeast et.array_min_length nt.array_min_length c.array_min_length
    unfolding combine_scalars
    combine_scalars-extremes et nt = (
      max_or_null-IsLargest et.string_max_length nt.string_max_length,
      max_or_null-IsLargest et.array_max_length nt.array_max_length,
      max_or_null-IsLargest et.number_max_precision nt.number_max_precision,
      max_or_null-IsLargest et.number_max_scale nt.number_max_scale,
      max_or_null-IsLargest et.date_max_millseconds_precision nt.date_max_millseconds_precision,
      date_max_or_null-IsLargest et.date_max_value nt.date_max_value,
      number_max_or_null-IsLargest et.number_max_value nt.number_max_value,
      number_min_or_null-IsLargest et.number_min_value nt.number_min_value,
      min_or_null-IsLargest et.array_min_length nt.array_min_length,
    )

  -- If each of two value types has a first date, and both are dates of the language, the first date
  -- of the combined statistics is the last date of the language. Whatever the new value type's
  -- smallest text length is, the combined one is the existing one.
  combine_scalars-lost_minima :
      (et nt : ScalarStatistics) (a b : ℕ)
      → et.date_min_value ≡ some a
      → nt.date_min_value ≡ some b
      → a ≤ last_date
      → b ≤ last_date
      → ((combine_scalars order et nt).date_min_value ≡ some last_date)
        × ((combine_scalars order et nt).string_min_length ≡ et.string_min_length)
  unfolding combine_scalars date_min_or_null
  combine_scalars-lost_minima et nt a b ea eb ha hb = (
    rw (ea, eb) (ap some (ap (λ d. later_date d b) (later_than_last a ha) ∙ later_than_last b hb)),
    same_twice et.string_min_length,
  )
    where
      same_twice : (o : Option ℕ) → min_or_null o o ≡ o
      same_twice none = unfold min_or_null in refl
      same_twice (some n) = unfold min_or_null in (ground arith)
