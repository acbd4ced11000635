-- ===== src/Compare/Schemas.antt =====
-- lib/src/PackageUtil.ts: the comparison of properties and of schemas. A throw is an `err`; the
-- names that every object inherits from `Object.prototype` are not taken for keys.
use mathlib.Core.Bool.{not}
use datapm.Common.{
  ◌&◌, String, Bool, Option, none, some, List, [], ◌∷◌, ◌++◌, ◌==◌, ◌||◌, ◌&&◌, Result, ok, err,
  type_error, ◌>>=◌, for_each, all, any, text_eq, is_set, if◌then◌else◌,
}
use datapm.PackageFile.{Schema}
use datapm.PackageFile.PropertyTree.{
  DpmPropertyType, Property, property, Properties, no_properties, entry, ValueTypes, no_types,
  value_type, ValueTypeStatistics, statistics, OptionalProperties, without_properties,
  with_properties, entries, info, types_of, type_names, lookup_property, object_properties,
  is_object, same_type,
}
use datapm.Compare.Difference.{
  Difference, diff, push_if, add_property, hide_property, unhide_property, remove_property,
  remove_hidden_property, change_property_type, change_property_description, change_property_unit,
  remove_schema, remove_hidden_schema,
}

-- `pointer + "/properties/" + key`
abbrev pub property_pointer : String → String → String
property_pointer pointer key = pointer & "/properties/" & key

-- `priorKeys.every((v) => newKeys.indexOf(v) !== -1)`
abbrev pub all_among : List DpmPropertyType → List DpmPropertyType → Bool
all_among ts us = all (λ v. any (same_type v) us) ts

-- The body of the first loop of `compareProperties` for a key that both sides have.
unfoldable pub compare_property : Property → Property → String → List Difference
compare_property prior new pointer =
    push_if (not (text_eq (info prior).description (info new).description))
      change_property_description pointer
    ++ (push_if
          (not (all_among (type_names (types_of prior)) (type_names (types_of new)))
            || not (all_among (type_names (types_of new)) (type_names (types_of prior))))
          change_property_type pointer
        ++ ((if not (is_set (info prior).hidden) && is_set (info new).hidden
              then diff hide_property pointer ∷ []
              else if is_set (info prior).hidden && not (is_set (info new).hidden)
              then diff unhide_property pointer ∷ []
              else [])
            ++ push_if (not (text_eq (info prior).unit (info new).unit)) change_property_unit
                pointer))

-- The body of the first loop, for a key with the property that the new side has, if any.
unfoldable pub compare_forward : Property → Option Property → String → List Difference
unfolding compare_property
compare_forward prior none pointer =
    if is_set (info prior).hidden
    then diff remove_hidden_property pointer ∷ []
    else diff remove_property pointer ∷ []
compare_forward prior (some new) pointer = compare_property prior new pointer

-- The first loop of `compareProperties`.
unfoldable pub forward : List (String × Property) → Properties → String → List Difference
unfolding compare_forward lookup_property
forward [] new pointer = []
forward ((key, prior) ∷ rest) new pointer =
    compare_forward prior (lookup_property key new) (property_pointer pointer key)
    ++ forward rest new pointer

-- The body of the second loop of `compareProperties`, for a key of the new side: the search for
-- `priorProperties[newKey]`, and the recursive call for the properties of an object. The call
-- is written out, `compare_nested` being `compareProperties` of the properties it is given.
unfoldable mutual
  unfolding object_properties forward

  pub compare_entry : Properties → String → Property → String → Result (List Difference)
  compare_entry no_properties key new pointer = ok (diff add_property pointer ∷ [])
  compare_entry (entry k p ps) key new pointer =
      let here = compare_objects p new pointer in
      let rest = compare_entry ps key new pointer in if k == key then here else rest

  pub compare_objects : Property → Property → String → Result (List Difference)
  compare_objects (property i ts) new pointer = compare_types ts new pointer

  pub compare_types : ValueTypes → Property → String → Result (List Difference)
  compare_types no_types new pointer = ok []
  compare_types (value_type t s ts) new pointer =
      let here = compare_statistics s new pointer in
      let rest = compare_types ts new pointer in if is_object t then here else rest

  pub compare_statistics : ValueTypeStatistics → Property → String → Result (List Difference)
  compare_statistics (statistics s at ps) new pointer =
      compare_nested ps (object_properties (types_of new)) pointer

  pub compare_nested :
      OptionalProperties → Option (Option Properties) → String → Result (List Difference)
  compare_nested without_properties new pointer = ok []
  compare_nested (with_properties prior) none pointer = ok []
  compare_nested (with_properties prior) (some none) pointer = err type_error
  compare_nested (with_properties prior) (some (some new)) pointer = do
    added ← for_each (entries new) (λ e. compare_entry prior e.0 e.1 (property_pointer pointer e.0))
    ok (forward (entries prior) new pointer ++ added)

-- `none` is an undefined `newProperties`, whose keys cannot be listed.
unfoldable pub compare_properties :
    Properties → Option Properties → String → Result (List Difference)
unfolding compare_entry forward
compare_properties prior none pointer = err type_error
compare_properties prior (some new) pointer = do
  added ← for_each (entries new) (λ e. compare_entry prior e.0 e.1 (property_pointer pointer e.0))
  ok (forward (entries prior) new pointer ++ added)

unfoldable pub compare_schema : Schema → Schema → String → Result (List Difference)
unfolding compare_properties
compare_schema prior new pointer =
    compare_properties prior.properties (some new.properties) (pointer & "/" & new.title)

-- The inner loop of `compareSchemas`: what was found, and whether any title was the same.
unfoldable pub compare_with_schemas : Schema → List Schema → Result (List Difference)
unfolding compare_schema
compare_with_schemas a [] = ok []
compare_with_schemas a (b ∷ bs) = do
  here ← (if a.title == b.title then compare_schema a b "#" else ok [])
  rest ← compare_with_schemas a bs
  ok (here ++ rest)

abbrev pub has_title : String → List Schema → Bool
has_title title bs = any (λ b. title == b.title) bs

unfoldable pub missing_schema : Schema → List Difference
missing_schema a =
    if is_set a.hidden then diff remove_hidden_schema "" ∷ [] else diff remove_schema "" ∷ []

unfoldable pub compare_schemas : List Schema → List Schema → Result (List Difference)
unfolding compare_with_schemas missing_schema
compare_schemas prior_schemas new_schemas = for_each prior_schemas λ a. do
  matched ← compare_with_schemas a new_schemas
  ok (matched ++ (if has_title a.title new_schemas then [] else missing_schema a))
