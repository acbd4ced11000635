-- ===== src/Stats/Lost.antt =====
-- client-lib/src/transforms/StatsTransform.ts, `inspectValue`: statistics of numbers that are lost.
use datapm.Common.{true, false, some, [], ◌∷◌, ◌≡◌, refl, ◌∙◌, ok, arith, Bool-cases, inl, inr}
use datapm.PackageFile.Json.{Number}
use datapm.PackageFile.PropertyTree.{
  DpmPropertyType, same_type, ValueTypes, no_types, value_type, ValueTypeStatistics,
}
use datapm.Combine.Values.{NumberOrder}
use datapm.Combine.Trees.{lookup_type, has_type, append_types}
use datapm.Deconflict.Values.{
  number, Language, discover_value_type, convert_value_by_value_type, converted, to_double,
  to_integer,
}
use datapm.Stats.Updates.{Measures}
use datapm.Stats.Types.{
  Nothing, fresh, ensure_type, put_type, delete_type, inspect_typed, inspect_value, inspect_values,
  updated,
}

abbrev integer_type : DpmPropertyType
integer_type = DpmPropertyType.integer

abbrev number_type : DpmPropertyType
number_type = DpmPropertyType.number

lookup_type-put_type :
    (t : DpmPropertyType) (s : ValueTypeStatistics) (types : ValueTypes)
    → has_type t types ≡ true
    → lookup_type t (put_type t s types) ≡ some s
unfolding has_type lookup_type put_type
lookup_type-put_type t s no_types h = cc
lookup_type-put_type t s (value_type u r types) h = elim (Bool-cases (same_type u t)) [
  | inl e ↦ rw (e, lookup_type) (rw e refl)
  | inr n ↦ rw (n, lookup_type) (rw n (lookup_type-put_type t s types (ground (arith, n))))
]

has_type-put_type :
    (t v : DpmPropertyType) (s : ValueTypeStatistics) (types : ValueTypes)
    → has_type v (put_type t s types) ≡ has_type v types
unfolding has_type put_type
has_type-put_type t v s no_types = refl
has_type-put_type t v s (value_type u r types) = ground (arith, has_type-put_type t v s types)

-- Deleting the integers leaves the numbers.
lookup_number-delete_integer :
    (types : ValueTypes)
    → lookup_type number_type (delete_type integer_type types) ≡ lookup_type number_type types
unfolding lookup_type delete_type
lookup_number-delete_integer no_types = refl
lookup_number-delete_integer (value_type u r types) =
    ground (arith, lookup_number-delete_integer types)

same_type_refl : (t : DpmPropertyType) → same_type t t ≡ true
same_type_refl t = ground arith

has_type-append_types :
    (t : DpmPropertyType) (types : ValueTypes)
    → has_type t (append_types types (value_type t fresh no_types)) ≡ true
unfolding has_type append_types
has_type-append_types t no_types = rw (same_type_refl t) refl
has_type-append_types t (value_type u r types) = ground (arith, has_type-append_types t types)

has_type-eq_some :
    (t : DpmPropertyType) (types : ValueTypes) (s : ValueTypeStatistics)
    → lookup_type t types ≡ some s
    → has_type t types ≡ true
unfolding has_type lookup_type
has_type-eq_some t no_types s h = cc
has_type-eq_some t (value_type u r types) s h = elim (Bool-cases (same_type u t)) [
  | inl e ↦ rw e refl
  | inr n ↦ rw n (has_type-eq_some t types s (ground (arith, n, h)))
]

lookup_integer-append_number :
    (types : ValueTypes)
    → lookup_type integer_type (append_types types (value_type number_type fresh no_types))
      ≡ lookup_type integer_type types
unfolding lookup_type append_types
lookup_integer-append_number no_types = refl
lookup_integer-append_number (value_type u r types) =
    ground (arith, lookup_integer-append_number types)

has_type-ensure_type :
    (t : DpmPropertyType) (types : ValueTypes) → has_type t (ensure_type t types) ≡ true
unfolding ensure_type
has_type-ensure_type t types = elim (Bool-cases (has_type t types)) [
  | inl e ↦ rw (e, ensure_type) e
  | inr n ↦ rw (n, ensure_type) (has_type-append_types t types)
]

lookup_integer-ensure_number :
    (types : ValueTypes)
    → lookup_type integer_type (ensure_type number_type types) ≡ lookup_type integer_type types
unfolding ensure_type
lookup_integer-ensure_number types = elim (Bool-cases (has_type number_type types)) [
  | inl e ↦ rw (e, ensure_type) refl
  | inr n ↦ rw (n, ensure_type) (lookup_integer-append_number types)
]

has_number-ensure_integer :
    (types : ValueTypes)
    → has_type number_type types ≡ true
    → has_type number_type (ensure_type integer_type types) ≡ true
unfolding ensure_type has_type append_types
has_number-ensure_integer types h = elim (Bool-cases (has_type integer_type types)) [
  | inl e ↦ rw (e, ensure_type) h
  | inr n ↦ rw (n, ensure_type) (go types h)
]
  where
    go :
        (ts : ValueTypes)
        → has_type number_type ts ≡ true
        → has_type number_type (append_types ts (value_type integer_type fresh no_types)) ≡ true
    go no_types h = cc
    go (value_type u r ts) h = ground (arith, go ts, h)

lookup_integer-append_integer :
    (types : ValueTypes)
    → has_type integer_type types ≡ false
    → lookup_type integer_type (append_types types (value_type integer_type fresh no_types))
      ≡ some fresh
unfolding has_type lookup_type append_types
lookup_integer-append_integer no_types h = refl
lookup_integer-append_integer (value_type u r types) h =
    ground (arith, lookup_integer-append_integer types, h)

lookup_integer-ensure_integer :
    (types : ValueTypes)
    → has_type integer_type types ≡ false
    → lookup_type integer_type (ensure_type integer_type types) ≡ some fresh
unfolding ensure_type
lookup_integer-ensure_integer types h = rw (h, ensure_type) (lookup_integer-append_integer types h)

module _ (language : Language Nothing) (measures : Measures Nothing) (order : NumberOrder) where
  -- The types of a number with a decimal point where there are statistics of integers.
  inspect_typed_lem :
      (d : Number) (types : ValueTypes) (integers : ValueTypeStatistics)
      → lookup_type integer_type types ≡ some integers
      → inspect_typed language measures order (number d) number_type types
        ≡ delete_type integer_type (put_type number_type integers types)
  unfolding inspect_typed
  inspect_typed_lem d types integers there =
      rw (has_type-eq_some integer_type types integers there, there) refl

  point_type :
      (d : Number)
      → language.has_point d.text ≡ true
      → (discover_value_type language (number d) ≡ number_type)
  unfolding discover_value_type
  point_type d point = rw point refl

  -- A number with a decimal point, where there are statistics of integers: they become those of the
  -- numbers, and what the numbers had before, as well as this value, counts for nothing.
  pub inspect_value-integers :
      (d : Number) (types : ValueTypes) (integers : ValueTypeStatistics)
      → language.has_point d.text ≡ true
      → lookup_type DpmPropertyType.integer types ≡ some integers
      → (out : ValueTypes) × (inspect_value language measures order (number d) types
          ≡ ok (number d, out))
        × (lookup_type DpmPropertyType.number out ≡ some integers)
  unfolding inspect_value convert_value_by_value_type converted to_double
  inspect_value-integers d types integers point there =
      let types_then = ensure_type number_type types in
      let there_then = lookup_integer-ensure_number types ∙ there in
      (
        delete_type integer_type (put_type number_type integers types_then),
        rw (point_type d point, inspect_typed_lem d types_then integers there_then) refl,
        lookup_number-delete_integer (put_type number_type integers types_then)
            ∙ lookup_type-put_type number_type integers types_then
                (has_type-ensure_type number_type types),
      )

  -- An integer after numbers: it is counted as a number, but in the statistics of the integers.
  inspect_value-after_numbers :
      (i : Number) (types : ValueTypes)
      → language.has_point i.text ≡ false
      → has_type number_type types ≡ true
      → has_type integer_type types ≡ false
      → inspect_value language measures order (number i) types
        ≡ ok (
          number (language.round i),
          put_type integer_type
              (updated language measures order (number (language.round i)) number_type (some fresh))
              (ensure_type integer_type types),
        )
  unfolding inspect_value discover_value_type convert_value_by_value_type converted to_integer
      inspect_typed
  inspect_value-after_numbers i types whole numbers integers =
      rw
        (
          whole,
          has_number-ensure_integer types numbers,
          lookup_integer-ensure_integer types integers,
        )
        refl

  -- The same after one more integer: whatever the numbers had before, what is left of all numbers is the
  -- statistics of this one integer.
  pub inspect_values-loses :
      (i d : Number) (types : ValueTypes)
      → language.has_point i.text ≡ false
      → language.has_point d.text ≡ true
      → has_type DpmPropertyType.number types ≡ true
      → has_type DpmPropertyType.integer types ≡ false
      → (out : ValueTypes) × (inspect_values language measures order
            (number i ∷ number d ∷ [])
            types
          ≡ ok out)
        × (lookup_type DpmPropertyType.number out
            ≡ some (
                updated language measures order
                  (number (language.round i))
                  DpmPropertyType.number
                  (some fresh)))
  unfolding inspect_values
  inspect_values-loses i d types whole point numbers integers =
      let one =
        updated language measures order (number (language.round i)) number_type (some fresh) in
      let types_then = ensure_type integer_type types in
      let between = put_type integer_type one types_then in
      let there =
        lookup_type-put_type integer_type one types_then
          (has_type-ensure_type integer_type types) in
      let (out, second, left) = inspect_value-integers d between one point there in
      (out, rw (inspect_value-after_numbers i types whole numbers integers, second) refl, left)
