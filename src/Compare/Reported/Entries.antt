-- ===== src/Compare/Reported/Entries.antt =====
-- lib/src/PackageUtil.ts: the types of difference that the comparison of schemas reports.
use mathlib.Core.Bool.{not}
use datapm.Common.{
  String, Bool, true, false, Option, none, some, List, [], ◌∷◌, ◌++◌, ◌≡◌, refl, subst, ◌==◌, ◌||◌,
  ◌&&◌, Result, ok, err, ◌>>=◌, ok_injective, for_each-All, All, All-append, is_set, text_eq,
  if◌then◌else◌, Bool-cases, inl, inr,
}
use datapm.PackageFile.{Schema}
use datapm.PackageFile.PropertyTree.{
  Property, property, Properties, no_properties, entry, ValueTypes, no_types, value_type,
  ValueTypeStatistics, statistics, OptionalProperties, without_properties, with_properties, entries,
  info, types_of, type_names, lookup_property, object_properties, is_object,
}
use datapm.Compare.Difference.{
  DifferenceType, Difference, diff, push_if, add_schema, change_source_uris, change_property_format,
}
use datapm.Compare.Schemas.{
  all_among, property_pointer, compare_property, compare_forward, forward, compare_entry,
  compare_objects, compare_types, compare_statistics, compare_nested, compare_schema,
}

-- All types but three, which no comparison reports.
abbrev pub IsReported : DifferenceType → Type 0
IsReported add_schema = ⊥
IsReported change_source_uris = ⊥
IsReported change_property_format = ⊥
IsReported _ = Unit

abbrev pub AllReported : List Difference → Type 0
AllReported ds = All (λ d. IsReported d.type) ds

pub both : (xs ys : List Difference) → AllReported xs → AllReported ys → AllReported (xs ++ ys)
both = All-append (λ d. IsReported d.type)

pub push_if-Reported :
    (b : Bool) (t : DifferenceType) (p : String) → IsReported t → AllReported (push_if b t p)
push_if-Reported true t p h = (h, tt)
push_if-Reported false t p h = tt

-- A push before the other differences.
pub push_then :
    (b : Bool) (t : DifferenceType) (p : String) (rest : List Difference)
    → IsReported t
    → AllReported rest
    → AllReported (push_if b t p ++ rest)
push_then true t p rest h k = (h, k)
push_then false t p rest h k = k

compare_property-Reported :
    (prior new : Property) (p : String) → AllReported (compare_property prior new p)
unfolding compare_property
compare_property-Reported prior new p =
    let ts = type_names (types_of prior) in
    let us = type_names (types_of new) in
    push_then (not (text_eq (info prior).description (info new).description))
      DifferenceType.change_property_description p _ tt
      (push_then (not (all_among ts us) || not (all_among us ts))
        DifferenceType.change_property_type p _ tt
        (both _
          (push_if (not (text_eq (info prior).unit (info new).unit))
            DifferenceType.change_property_unit p)
          (hidden (is_set (info prior).hidden) (is_set (info new).hidden))
          (push_if-Reported (not (text_eq (info prior).unit (info new).unit))
            DifferenceType.change_property_unit p tt)))
  where
    hidden :
        (was is : Bool)
        → AllReported (
            if not was && is
            then diff DifferenceType.hide_property p ∷ []
            else if was && not is
            then diff DifferenceType.unhide_property p ∷ []
            else [])
    hidden true true = tt
    hidden true false = (tt, tt)
    hidden false true = (tt, tt)
    hidden false false = tt

forward-Reported :
    (es : List (String × Property)) (new : Properties) (p : String) → AllReported (forward es new p)
unfolding forward
forward-Reported [] new p = tt
forward-Reported ((k, prior) ∷ es) new p =
    both (compare_forward prior (lookup_property k new) (property_pointer p k)) _
      (here (lookup_property k new) (is_set (info prior).hidden)) (forward-Reported es new p)
  where
    gone :
        (b : Bool)
        → AllReported (
            if b
            then diff DifferenceType.remove_hidden_property (property_pointer p k) ∷ []
            else diff DifferenceType.remove_property (property_pointer p k) ∷ [])
    gone true = (tt, tt)
    gone false = (tt, tt)

    here :
        (new : Option Property)
        → Bool
        → AllReported (compare_forward prior new (property_pointer p k))
    here none b = gone (is_set (info prior).hidden)
    here (some n) b = compare_property-Reported prior n (property_pointer p k)

-- The differences of a loop over the new side, after those of the first loop.
joined-Reported :
    (r : Result (List Difference)) (first : List Difference)
    → AllReported first
    → ((ds : List Difference) → r ≡ ok ds → AllReported ds)
    → (ds : List Difference) → (r >>= λ added. ok (first ++ added)) ≡ ok ds
    → AllReported ds
joined-Reported (ok added) first h k ds e =
    subst AllReported (ok_injective e) (both first added h (k added refl))
joined-Reported (err x) first h k ds e = cc

mutual
  unfolding compare_entry

  compare_entry-Reported :
      (ps : Properties) (k : String) (n : Property) (p : String) (ds : List Difference)
      → compare_entry ps k n p ≡ ok ds
      → AllReported ds
  compare_entry-Reported no_properties k n p ds e = subst AllReported (ok_injective e) (tt, tt)
  compare_entry-Reported (entry j q ps) k n p ds e = elim (Bool-cases (j == k)) [
    | inl t ↦ compare_objects-Reported q n p ds (rw t at e)
    | inr f ↦ compare_entry-Reported ps k n p ds (rw f at e)
  ]

  compare_objects-Reported :
      (q : Property) (n : Property) (p : String) (ds : List Difference)
      → compare_objects q n p ≡ ok ds
      → AllReported ds
  compare_objects-Reported (property i ts) n p ds e = compare_types-Reported ts n p ds e

  compare_types-Reported :
      (ts : ValueTypes) (n : Property) (p : String) (ds : List Difference)
      → compare_types ts n p ≡ ok ds
      → AllReported ds
  compare_types-Reported no_types n p ds e = subst AllReported (ok_injective e) tt
  compare_types-Reported (value_type t s ts) n p ds e = elim (Bool-cases (is_object t)) [
    | inl b ↦ compare_statistics-Reported s n p ds (rw b at e)
    | inr b ↦ compare_types-Reported ts n p ds (rw b at e)
  ]

  compare_statistics-Reported :
      (s : ValueTypeStatistics) (n : Property) (p : String) (ds : List Difference)
      → compare_statistics s n p ≡ ok ds
      → AllReported ds
  compare_statistics-Reported (statistics s at ps) n p ds e =
      compare_nested-Reported ps (object_properties (types_of n)) p ds e

  compare_nested-Reported :
      (ps : OptionalProperties) (new : Option (Option Properties)) (p : String)
      (ds : List Difference)
      → compare_nested ps new p ≡ ok ds
      → AllReported ds
  compare_nested-Reported without_properties new p ds e = subst AllReported (ok_injective e) tt
  compare_nested-Reported (with_properties ps) none p ds e = subst AllReported (ok_injective e) tt
  compare_nested-Reported (with_properties ps) (some none) p ds e = cc
  compare_nested-Reported (with_properties ps) (some (some new)) p ds e =
      joined-Reported _ _ (forward-Reported (entries ps) new p)
        (for_each-All (λ d. IsReported d.type) (entries new) _
          (λ x. compare_entry-Reported ps x.0 x.1 (property_pointer p x.0)))
        ds e

pub compare_schema-Reported :
    (a b : Schema) (p : String) (ds : List Difference)
    → compare_schema a b p ≡ ok ds
    → AllReported ds
unfolding compare_schema
compare_schema-Reported a b p ds e =
    joined-Reported _ _ (forward-Reported (entries a.properties) b.properties _)
      (for_each-All (λ d. IsReported d.type) (entries b.properties) _
        (λ x. compare_entry-Reported a.properties x.0 x.1 (property_pointer _ x.0)))
      ds e
