-- ===== src/Compare/Unchanged/Properties.antt =====
-- lib/src/PackageUtil.ts: `compareProperties` of properties with themselves.
use mathlib.Core.Bool.{not}
use datapm.Common.{
  String, Bool, true, false, Option, some, List, [], ◌∷◌, ◌≡◌, refl, arith, ap, sym, subst, ◌∙◌,
  ◌==◌, ◌||◌, ◌&&◌, ok, for_each-nil, All, All-map, any, is_set, text_eq_refl, Bool-cases, eq_iff,
  eq_refl, inl, inr,
}
use datapm.PackageFile.PropertyTree.{
  DpmPropertyType, Property, property, Properties, no_properties, entry, ValueTypes, no_types,
  value_type, ValueTypeStatistics, statistics, OptionalProperties, without_properties,
  with_properties, entries, info, types_of, type_names, lookup_property, has_key, object_properties,
  optional_properties, given_properties, is_object, same_type,
}
use datapm.Compare.Schemas.{
  all_among, property_pointer, compare_property, forward, compare_entry, compare_objects,
  compare_types, compare_statistics, compare_nested, compare_properties,
}

-- No object of properties, nested ones included, has a key twice, as in the language.
unfoldable mutual
  pub DistinctKeys : Properties → Type 0
  DistinctKeys no_properties = Unit
  DistinctKeys (entry k p ps) = (has_key k ps ≡ false) × DistinctIn p × DistinctKeys ps

  pub DistinctIn : Property → Type 0
  DistinctIn (property i ts) = DistinctTypes ts

  pub DistinctTypes : ValueTypes → Type 0
  DistinctTypes no_types = Unit
  DistinctTypes (value_type t s ts) = DistinctStatistics s × DistinctTypes ts

  pub DistinctStatistics : ValueTypeStatistics → Type 0
  DistinctStatistics (statistics s at ps) = DistinctOptional ps

  pub DistinctOptional : OptionalProperties → Type 0
  DistinctOptional without_properties = Unit
  DistinctOptional (with_properties ps) = DistinctKeys ps

has_key_of_lookup :
    (k : String) (ps : Properties) {p : Property}
    → lookup_property k ps ≡ some p
    → has_key k ps ≡ true
unfolding lookup_property has_key
has_key_of_lookup k no_properties h = cc
has_key_of_lookup k (entry j q ps) h = elim (Bool-cases (j == k)) [
  | inl e ↦ rw e refl
  | inr e ↦ rw e (has_key_of_lookup k ps (rw e at h))
]

lookup-skip :
    (k : String) (q : Property) (ps : Properties)
    → has_key k ps ≡ false
    → (e : String × Property) → lookup_property e.0 ps ≡ some e.1
    → lookup_property e.0 (entry k q ps) ≡ some e.1
unfolding lookup_property
lookup-skip k q ps fresh (j, p) h = elim (Bool-cases (k == j)) [
  | inl e ↦
      absurd (
        clash ps (sym fresh ∙ ap (λ x. has_key x ps) ((eq_iff k j).0 e) ∙ has_key_of_lookup j ps h))
  | inr e ↦ rw e h
]
  where
    clash : (ps : Properties) → false ≡ true → ⊥
    clash ps c = cc

pub entries-lookup :
    (ps : Properties) → DistinctKeys ps → All (λ e. lookup_property e.0 ps ≡ some e.1) (entries ps)
unfolding DistinctKeys lookup_property
entries-lookup no_properties d = tt
entries-lookup (entry k p ps) (fresh, _, d) =
    (rw (eq_refl k), All-map _ _ (lookup-skip k p ps fresh) (entries ps) (entries-lookup ps d))

all_among-cons :
    (ts us : List DpmPropertyType) (u : DpmPropertyType)
    → all_among ts us ≡ true
    → all_among ts (u ∷ us) ≡ true
all_among-cons [] us u h = refl
all_among-cons (t ∷ ts) us u h = elim (Bool-cases (any (same_type t) us)) [
  | inl e ↦ rw e (either (same_type t u) (all_among-cons ts us u (rw e at h)))
  | inr e ↦ absurd (let x = rw e at h in cc)
]
  where
    either : (b : Bool) {c : Bool} → c ≡ true → ((b || true) && c) ≡ true
    either b h = ground arith

same_type_refl : (t : DpmPropertyType) → same_type t t ≡ true
same_type_refl t = ground arith

all_among_refl : (ts : List DpmPropertyType) → all_among ts ts ≡ true
all_among_refl [] = refl
all_among_refl (t ∷ ts) = rw (same_type_refl t) (all_among-cons ts ts t (all_among_refl ts))

hidden_stays : (b : Bool) → (not b && b ≡ false) × (b && not b ≡ false)
hidden_stays b = ground arith

compare_property_self : (p : Property) (pointer : String) → compare_property p p pointer ≡ []
unfolding compare_property
compare_property_self p pointer =
    let (shown, still) = hidden_stays (is_set (info p).hidden) in
    rw (
      text_eq_refl (info p).description,
      all_among_refl (type_names (types_of p)),
      shown,
      still,
      text_eq_refl (info p).unit,
    )

forward_self :
    (es : List (String × Property)) (new : Properties) (pointer : String)
    → All (λ e. lookup_property e.0 new ≡ some e.1) es
    → forward es new pointer ≡ []
unfolding forward
forward_self [] new pointer h = refl
forward_self ((k, p) ∷ es) new pointer (e, h) =
    rw (e, compare_property_self p (property_pointer pointer k)) (forward_self es new pointer h)

mutual
  unfolding DistinctKeys compare_entry lookup_property object_properties

  compare_entry_self :
      (ps : Properties) (k : String) (p : Property) (pointer : String)
      → lookup_property k ps ≡ some p
      → DistinctKeys ps
      → compare_entry ps k p pointer ≡ ok []
  compare_entry_self no_properties k p pointer h d = cc
  compare_entry_self (entry j q ps) k p pointer h (_, dq, d) = elim (Bool-cases (j == k)) [
    | inl e ↦ rw e (
        subst (λ r. compare_objects q r pointer ≡ ok []) (found (rw e at h))
          (compare_objects_self q pointer dq))
    | inr e ↦ rw e (compare_entry_self ps k p pointer (rw e at h) d)
  ]
    where
      found : {a b : Property} → some a ≡ some b → a ≡ b
      found s = cc

  compare_objects_self :
      (p : Property) (pointer : String) → DistinctIn p → compare_objects p p pointer ≡ ok []
  compare_objects_self (property i ts) pointer d =
      compare_types_self ts (property i ts) pointer refl d

  compare_types_self :
      (ts : ValueTypes) (p : Property) (pointer : String)
      → object_properties ts ≡ object_properties (types_of p)
      → DistinctTypes ts
      → compare_types ts p pointer ≡ ok []
  compare_types_self no_types p pointer h d = refl
  compare_types_self (value_type t s ts) p pointer h (ds, d) = elim (Bool-cases (is_object t)) [
    | inl e ↦ rw e (compare_statistics_self s p pointer (rw e at h) ds)
    | inr e ↦ rw e (compare_types_self ts p pointer (rw e at h) d)
  ]

  compare_statistics_self :
      (s : ValueTypeStatistics) (p : Property) (pointer : String)
      → some (optional_properties s) ≡ object_properties (types_of p)
      → DistinctStatistics s
      → compare_statistics s p pointer ≡ ok []
  compare_statistics_self (statistics s at ps) p pointer h d =
      compare_nested_self ps (object_properties (types_of p)) pointer (sym h) d

  compare_nested_self :
      (ps : OptionalProperties) (new : Option (Option Properties)) (pointer : String)
      → new ≡ some (given_properties ps)
      → DistinctOptional ps
      → compare_nested ps new pointer ≡ ok []
  compare_nested_self without_properties new pointer h d = refl
  compare_nested_self (with_properties ps) new pointer h d = rw h (
      rw (
        for_each-nil (entries ps) _ (
            All-map _ _
              (λ e found. compare_entry_self ps e.0 e.1 (property_pointer pointer e.0) found d)
              (entries ps) (entries-lookup ps d)),
        forward_self (entries ps) ps pointer (entries-lookup ps d),
      ))

pub compare_properties_self :
    (ps : Properties) (pointer : String)
    → DistinctKeys ps
    → compare_properties ps (some ps) pointer ≡ ok []
unfolding compare_properties
compare_properties_self ps pointer d = rw (
  for_each-nil (entries ps) _ (
      All-map _ _ (λ e found. compare_entry_self ps e.0 e.1 (property_pointer pointer e.0) found d)
        (entries ps) (entries-lookup ps d)),
  forward_self (entries ps) ps pointer (entries-lookup ps d),
)
