-- ===== src/Combine/Covers.antt =====
-- client-lib/src/util/SchemaUtil.ts, `combineProperties`: what is kept of the existing properties.
use datapm.Common.{
  String, true, false, Option, none, some, ◌==◌, ◌≡◌, refl, sym, ap, subst, ◌∙◌, inl, inr,
  Bool-cases, eq_iff, eq_refl, different_sym, arith,
}
use datapm.PackageFile.PropertyTree.{
  types_of, Property, property, Properties, no_properties, entry, ValueTypes, no_types, value_type,
  ValueTypeStatistics, statistics, OptionalTypes, without_types, with_types, OptionalProperties,
  without_properties, with_properties, lookup_property, has_key, DpmPropertyType, same_type,
}
use datapm.Combine.Values.{NumberOrder}
use datapm.Combine.Trees.{
  lookup_type, has_type, missing_properties, missing_types, append_properties, append_types,
  combined_entries, combined_with, combined_types, combine_statistics, combine_optional_types,
  combine_optional_properties, combine_properties,
}

-- No object has a key twice, in nested objects and in the types of array items too.
unfoldable mutual
  pub IsObject : Properties → Type 0
  IsObject no_properties = Unit
  IsObject (entry k p ps) = (has_key k ps ≡ false) × IsObjectProperty p × IsObject ps

  pub IsObjectProperty : Property → Type 0
  IsObjectProperty (property i ts) = IsTypes ts

  pub IsTypes : ValueTypes → Type 0
  IsTypes no_types = Unit
  IsTypes (value_type t s ts) = (has_type t ts ≡ false) × IsStatistics s × IsTypes ts

  pub IsStatistics : ValueTypeStatistics → Type 0
  IsStatistics (statistics s at ps) = IsArrayTypes at × IsNested ps

  pub IsArrayTypes : OptionalTypes → Type 0
  IsArrayTypes without_types = Unit
  IsArrayTypes (with_types ts) = IsTypes ts

  pub IsNested : OptionalProperties → Type 0
  IsNested without_properties = Unit
  IsNested (with_properties ps) = IsObject ps

-- Every property of the first is in the second, with every value type that it has, down to the
-- properties of objects and the types of array items.
unfoldable mutual
  unfolding lookup_property lookup_type

  pub Covers : Properties → Properties → Type 0
  Covers no_properties new = Unit
  Covers (entry k p ps) new = CoversFound p (lookup_property k new) × Covers ps new

  pub CoversFound : Property → Option Property → Type 0
  CoversFound p none = ⊥
  CoversFound (property i ts) (some new) = CoversTypes ts (types_of new)

  pub CoversTypes : ValueTypes → ValueTypes → Type 0
  CoversTypes no_types new = Unit
  CoversTypes (value_type t s ts) new = CoversStatistics s (lookup_type t new) × CoversTypes ts new

  pub CoversStatistics : ValueTypeStatistics → Option ValueTypeStatistics → Type 0
  CoversStatistics s none = ⊥
  CoversStatistics (statistics s at ps) (some (statistics n nt nps)) =
      CoversArrayTypes at nt × CoversNested ps nps

  pub CoversArrayTypes : OptionalTypes → OptionalTypes → Type 0
  CoversArrayTypes without_types new = Unit
  CoversArrayTypes (with_types ts) without_types = ⊥
  CoversArrayTypes (with_types ts) (with_types us) = CoversTypes ts us

  pub CoversNested : OptionalProperties → OptionalProperties → Type 0
  CoversNested without_properties new = Unit
  CoversNested (with_properties ps) without_properties = ⊥
  CoversNested (with_properties ps) (with_properties qs) = Covers ps qs

same_type_sound : (t u : DpmPropertyType) → same_type t u ≡ true → t ≡ u
same_type_sound t u h = ground arith

same_type_refl : (t : DpmPropertyType) → same_type t t ≡ true
same_type_refl t = ground arith

-- The members of a part of an object are found in the whole.
abbrev Found : Properties → Properties → Type 0
Found no_properties whole = Unit
Found (entry k p ps) whole = (lookup_property k whole ≡ some p) × Found ps whole

abbrev FoundTypes : ValueTypes → ValueTypes → Type 0
FoundTypes no_types whole = Unit
FoundTypes (value_type t s ts) whole = (lookup_type t whole ≡ some s) × FoundTypes ts whole

Found-entry :
    (ps whole : Properties) (j : String) (q : Property)
    → has_key j ps ≡ false
    → Found ps whole
    → Found ps (entry j q whole)
unfolding lookup_property has_key
Found-entry no_properties whole j q n f = tt
Found-entry (entry k p ps) whole j q n (e, f) = elim (Bool-cases (k == j)) [
  | inl same ↦ cc
  | inr other ↦ (rw (different_sym k j other) e, Found-entry ps whole j q (rw other at n) f)
]

Found-self : (ps : Properties) → IsObject ps → Found ps ps
unfolding IsObject lookup_property
Found-self no_properties d = tt
Found-self (entry k p ps) (n, _, d) = (rw (eq_refl k), Found-entry ps ps k p n (Found-self ps d))

FoundTypes-value_type :
    (ts whole : ValueTypes) (u : DpmPropertyType) (n : ValueTypeStatistics)
    → has_type u ts ≡ false
    → FoundTypes ts whole
    → FoundTypes ts (value_type u n whole)
unfolding lookup_type has_type
FoundTypes-value_type no_types whole u n h f = tt
FoundTypes-value_type (value_type t s ts) whole u n h (e, f) = elim (Bool-cases (same_type t u)) [
  | inl same ↦ cc
  | inr other ↦
      (rw (same_type_sym t u ∙ other) e, FoundTypes-value_type ts whole u n (rw other at h) f)
]
  where
    same_type_sym : (t u : DpmPropertyType) → same_type u t ≡ same_type t u
    same_type_sym t u = ground arith

FoundTypes-self : (ts : ValueTypes) → IsTypes ts → FoundTypes ts ts
unfolding IsTypes lookup_type
FoundTypes-self no_types d = tt
FoundTypes-self (value_type t s ts) (n, _, d) =
    (rw (same_type_refl t), FoundTypes-value_type ts ts t s n (FoundTypes-self ts d))

some_injective : {A : Type 0} {a b : A} → some a ≡ some b → a ≡ b
some_injective p = cc

module _ (order : NumberOrder) where
  -- What the loops make of a member that is found.
  lookup-combined :
      (k : String) (ps new rest : Properties) (p : Property)
      → lookup_property k ps ≡ some p
      → lookup_property k (append_properties (combined_entries order ps new) rest)
        ≡ some (combined_with order p (lookup_property k new))
  unfolding lookup_property combined_entries append_properties
  lookup-combined k no_properties new rest p h = cc
  lookup-combined k (entry j q ps) new rest p h = elim (Bool-cases (j == k)) [
    | inl same ↦
        let found : q ≡ p = some_injective (rw same at h) in
        rw same (
          ap (λ x. some (combined_with order x (lookup_property j new))) found
          ∙ ap (λ i. some (combined_with order p (lookup_property i new))) ((eq_iff j k).0 same))
    | inr other ↦ rw other (lookup-combined k ps new rest p (rw other at h))
  ]

  lookup-combined_types :
      (t : DpmPropertyType) (ts new rest : ValueTypes) (s : ValueTypeStatistics)
      → lookup_type t ts ≡ some s
      → lookup_type t (append_types (combined_types order ts new) rest)
        ≡ some (combine_statistics order s (lookup_type t new))
  unfolding lookup_type combined_types append_types
  lookup-combined_types t no_types new rest s h = cc
  lookup-combined_types t (value_type u n ts) new rest s h = elim (Bool-cases (same_type u t)) [
    | inl same ↦
        let found : n ≡ s = some_injective (rw same at h) in
        rw same (
          ap (λ x. some (combine_statistics order x (lookup_type u new))) found
          ∙ ap (λ i. some (combine_statistics order s (lookup_type i new)))
              (same_type_sound u t same))
    | inr other ↦ rw other (lookup-combined_types t ts new rest s (rw other at h))
  ]

  -- Nothing new leaves everything as it was.
  combined_entries-none :
      (ps : Properties)
      → append_properties (combined_entries order ps no_properties) no_properties ≡ ps
  unfolding lookup_property combined_entries combined_with append_properties
  combined_entries-none no_properties = refl
  combined_entries-none (entry k (property i ts) ps) =
      ap (entry k (property i ts)) (combined_entries-none ps)

  combined_types-none :
      (ts : ValueTypes) → append_types (combined_types order ts no_types) no_types ≡ ts
  unfolding lookup_type combined_types combine_statistics append_types
  combined_types-none no_types = refl
  combined_types-none (value_type t (statistics s at ps) ts) =
      ap (value_type t (statistics s at ps)) (combined_types-none ts)

  mutual
    unfolding IsObject Covers lookup_property lookup_type combined_entries combined_with
        combined_types combine_statistics combine_optional_types combine_optional_properties

    combined_entries-Covers :
        (ps whole new rest : Properties)
        → Found ps whole
        → IsObject ps
        → Covers ps (append_properties (combined_entries order whole new) rest)
    combined_entries-Covers no_properties whole new rest f d = tt
    combined_entries-Covers (entry k p ps) whole new rest (e, f) (n, d, ds) = (
      subst (CoversFound p) (sym (lookup-combined k whole new rest p e))
          (combined_with-Covers p (lookup_property k new) d),
      combined_entries-Covers ps whole new rest f ds,
    )

    combined_with-Covers :
        (p : Property) (new : Option Property)
        → IsObjectProperty p
        → CoversFound p (some (combined_with order p new))
    combined_with-Covers (property i ts) none d =
        subst (CoversTypes ts) (combined_types-none ts)
          (combined_types-Covers ts ts no_types no_types (FoundTypes-self ts d) d)
    combined_with-Covers (property i ts) (some new) d =
        combined_types-Covers ts ts (types_of new) (missing_types ts (types_of new))
          (FoundTypes-self ts d) d

    combined_types-Covers :
        (ts whole new rest : ValueTypes)
        → FoundTypes ts whole
        → IsTypes ts
        → CoversTypes ts (append_types (combined_types order whole new) rest)
    combined_types-Covers no_types whole new rest f d = tt
    combined_types-Covers (value_type t s ts) whole new rest (e, f) (n, d, ds) = (
      subst (CoversStatistics s) (sym (lookup-combined_types t whole new rest s e))
          (combine_statistics-Covers s (lookup_type t new) d),
      combined_types-Covers ts whole new rest f ds,
    )

    combine_statistics-Covers :
        (s : ValueTypeStatistics) (new : Option ValueTypeStatistics)
        → IsStatistics s
        → CoversStatistics s (some (combine_statistics order s new))
    combine_statistics-Covers (statistics s at ps) none (d, ds) =
        (array_self at d, nested_self ps ds)
    combine_statistics-Covers (statistics s at ps) (some (statistics n nt nps)) (d, ds) =
        (combine_optional_types-Covers at nt d, combine_optional_properties-Covers ps nps ds)

    array_self : (at : OptionalTypes) → IsArrayTypes at → CoversArrayTypes at at
    array_self without_types d = tt
    array_self (with_types ts) d =
        subst (CoversTypes ts) (combined_types-none ts)
          (combined_types-Covers ts ts no_types no_types (FoundTypes-self ts d) d)

    nested_self : (ps : OptionalProperties) → IsNested ps → CoversNested ps ps
    nested_self without_properties d = tt
    nested_self (with_properties ps) d =
        subst (Covers ps) (combined_entries-none ps)
          (combined_entries-Covers ps ps no_properties no_properties (Found-self ps d) d)

    combine_optional_types-Covers :
        (at nt : OptionalTypes)
        → IsArrayTypes at
        → CoversArrayTypes at (combine_optional_types order at nt)
    combine_optional_types-Covers without_types nt d = tt
    combine_optional_types-Covers (with_types ts) without_types d =
        subst (CoversTypes ts) (combined_types-none ts)
          (combined_types-Covers ts ts no_types no_types (FoundTypes-self ts d) d)
    combine_optional_types-Covers (with_types ts) (with_types us) d =
        combined_types-Covers ts ts us (missing_types ts us) (FoundTypes-self ts d) d

    combine_optional_properties-Covers :
        (ps nps : OptionalProperties)
        → IsNested ps
        → CoversNested ps (combine_optional_properties order ps nps)
    combine_optional_properties-Covers without_properties nps d = tt
    combine_optional_properties-Covers (with_properties ps) without_properties d =
        subst (Covers ps) (combined_entries-none ps)
          (combined_entries-Covers ps ps no_properties no_properties (Found-self ps d) d)
    combine_optional_properties-Covers (with_properties ps) (with_properties qs) d =
        combined_entries-Covers ps ps qs (missing_properties ps qs) (Found-self ps d) d

  -- Every property of the existing ones, nested ones included, is in the combined ones with every
  -- value type that it has.
  pub combine_properties-Covers :
      (existing new : Properties)
      → IsObject existing
      → Covers existing (combine_properties order existing new)
  unfolding combine_properties
  combine_properties-Covers existing new d =
      combined_entries-Covers existing existing new (missing_properties existing new)
        (Found-self existing d) d

  pub Covers-self : (ps : Properties) → IsObject ps → Covers ps ps
  Covers-self ps d =
      subst (Covers ps) (combined_entries-none ps)
        (combined_entries-Covers ps ps no_properties no_properties (Found-self ps d) d)
