-- ===== src/Tests/Schemas.antt =====
-- The combination of schemas and the choices for value types that conflict, at concrete inputs.
use datapm.Common.{
  eq_iff, ◌≢◌, inl, ℕ, String, true, false, none, some, [], ◌∷◌, ◌≡◌, refl, All, Any, ◌||◌, ◌&&◌,
  not, ◌==◌, arith,
}
use datapm.PackageFile.{Schema}
use datapm.PackageFile.Json.{Members, end, member, Json, Number}
use datapm.PackageFile.PropertyTree.{
  Property, property, Properties, no_properties, entry, ValueTypes, no_types, value_type,
  statistics, ScalarStatistics, without_types, without_properties, DpmPropertyType, has_key,
}
use datapm.Combine.Values.{NumberOrder}
use datapm.Combine.Trees.{combine_scalars, has_type}
use datapm.Combine.Schemas.{combine_schemas, titled}
use datapm.Combine.Kept.{combine_schemas-keeps, CoversSchema}
use datapm.Combine.Covers.{IsObject}
use datapm.Combine.Bounds.{
  IsLargest, IsAtMost, IsAtLeast, IsNotAbove, IsNotBelow, combine_scalars-extremes,
}
use datapm.Deconflict.Choices.{cast_to_string}
use datapm.Deconflict.Conflicts.{check_schema_data_type_conflicts}
use datapm.Deconflict.Settled.{update_schema-settles, IsAnswered}
use datapm.Deconflict.Updates.{update_schema_with_deconflict_options}
use datapm.Stats.Types.{fresh_scalars}
use datapm.Tests.Packages.{text_property, schema_of}

-- No number is below another one.
abbrev no_order : NumberOrder
no_order = record { is_number = λ n. true; below = λ m n. false }

abbrev typed_property : String → ValueTypes → Property
typed_property title types =
    property
      (record {
        title = title;
        description = none;
        hidden = none;
        unit = none;
        first_seen = none;
        last_seen = none;
      })
      types

abbrev one_type : DpmPropertyType → ValueTypes → ValueTypes
one_type t types = value_type t (statistics fresh_scalars without_types without_properties) types

-- A property with texts and integers, and one with texts.
abbrev mixed : Properties
mixed =
    entry "age"
      (typed_property "age"
        (one_type DpmPropertyType.integer (one_type DpmPropertyType.string no_types)))
      (entry "name" (text_property "name" none) no_properties)

age_or_name : ◌≢◌ {A = String} "age" "name"
age_or_name e = let no = (eq_iff "age" "name").1 e in cc

abbrev people : Schema
people = schema_of "people" mixed

abbrev dated : ℕ → ScalarStatistics
dated time = record fresh_scalars {
  date_min_value = some time;
  date_max_value = some time;
  string_min_length = some time;
  string_max_length = some time;
  array_max_length = some time;
  array_min_length = some time;
}

abbrev record_of : String → Members
record_of name = member "name" (Json.string name) end

mixed-IsObject : IsObject mixed
unfolding IsObject has_key has_type
mixed-IsObject = (refl, (refl, (tt, tt), (refl, (tt, tt), tt)), (refl, (refl, (tt, tt), tt), tt))

combine_schemas-keeps_example :
    ((t : String)
      → titled t (combine_schemas no_order (people ∷ []) (schema_of "pets" no_properties ∷ []))
        ≡ (titled t (people ∷ []) || titled t (schema_of "pets" no_properties ∷ [])))
    × All
        (λ (e : Schema).
          Any
            (CoversSchema e)
            (combine_schemas no_order (people ∷ []) (schema_of "pets" no_properties ∷ [])))
        (people ∷ [])
combine_schemas-keeps_example =
    combine_schemas-keeps no_order (people ∷ []) (schema_of "pets" no_properties ∷ [])
      (mixed-IsObject, tt)

-- Three is below all other numbers.
abbrev some_order : NumberOrder
some_order = record { is_number = λ n. true; below = λ m n. (m.text == "3") && not (n.text == "3") }

some_order-asymmetric : (m n : Number) → some_order.below m n ≡ true → some_order.below n m ≡ false
some_order-asymmetric m n h = ground arith

abbrev three : Number
three = record { text = "3" }

abbrev five : Number
five = record { text = "5" }

abbrev up_to : ℕ → Number → ScalarStatistics
up_to time n = record (dated time) { number_max_value = some n; number_min_value = some n }

abbrev both : ScalarStatistics
both = combine_scalars some_order (up_to 3 three) (up_to 5 five)

combine_scalars-extremes_example :
    IsLargest IsAtMost (some 3) (some 5) both.string_max_length
    × IsLargest IsAtMost (some 3) (some 5) both.array_max_length
    × IsLargest IsAtMost none none both.number_max_precision
    × IsLargest IsAtMost none none both.number_max_scale
    × IsLargest IsAtMost none none both.date_max_millseconds_precision
    × IsLargest IsAtMost (some 3) (some 5) both.date_max_value
    × IsLargest (IsNotAbove some_order) (some three) (some five) both.number_max_value
    × IsLargest (IsNotBelow some_order) (some three) (some five) both.number_min_value
    × IsLargest IsAtLeast (some 3) (some 5) both.array_min_length
combine_scalars-extremes_example =
    combine_scalars-extremes some_order some_order-asymmetric (up_to 3 three) (up_to 5 five)

people-updates :
    (update_schema_with_deconflict_options people (("age", cast_to_string) ∷ [])).1 ≡ none
unfolding update_schema_with_deconflict_options
people-updates = refl

people-IsAnswered :
    All
      (λ c. IsAnswered (("age", cast_to_string) ∷ []) c.0)
      (check_schema_data_type_conflicts people)
unfolding check_schema_data_type_conflicts
people-IsAnswered = (inl (refl, refl), tt)

update_schema-settles_example :
    check_schema_data_type_conflicts
      (update_schema_with_deconflict_options people (("age", cast_to_string) ∷ [])).0
    ≡ []
update_schema-settles_example =
    update_schema-settles people (("age", cast_to_string) ∷ []) (refl, (refl, tt))
      ((age_or_name, tt), (tt, tt)) (tt, tt) people-IsAnswered people-updates
