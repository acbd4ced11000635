-- ===== src/Stats/Types.antt =====
-- client-lib/src/transforms/StatsTransform.ts: `inspectValue` for values other than arrays and objects.
use datapm.Common.{
  Option, none, some, List, [], ◌∷◌, ◌&◌, Result, ok, err, ◌>>=◌, thrown, if◌then◌else◌,
}
use datapm.PackageFile.PropertyTree.{
  DpmPropertyType, same_type, ValueTypes, no_types, value_type, ValueTypeStatistics, statistics,
  ScalarStatistics, without_types, without_properties,
}
use datapm.Combine.Values.{NumberOrder}
use datapm.Combine.Trees.{lookup_type, has_type, append_types}
use datapm.Deconflict.Choices.{type_name}
use datapm.Deconflict.Values.{
  RecordValue, Language, discover_value_type, convert_value_by_value_type, to_text,
}
use datapm.Stats.Updates.{Measures, update_value_type_stats}

-- What the arrays and objects hold, of which there are none.
pub data Nothing : Type 0 where

-- `{ recordCount: 0, stringOptions: {} }`
abbrev pub fresh_scalars : ScalarStatistics
fresh_scalars = record {
  record_count = some 0;
  string_max_length = none;
  string_min_length = none;
  number_max_value = none;
  number_min_value = none;
  number_max_precision = none;
  number_max_scale = none;
  boolean_true_count = none;
  boolean_false_count = none;
  date_max_value = none;
  date_min_value = none;
  date_max_millseconds_precision = none;
  string_options = some [];
  content_labels = none;
  array_min_length = none;
  array_max_length = none;
}

abbrev pub fresh : ValueTypeStatistics
fresh = statistics fresh_scalars without_types without_properties

-- `if (!types[valueType]) types[valueType] = { recordCount: 0, stringOptions: {} }`
unfoldable pub ensure_type : DpmPropertyType → ValueTypes → ValueTypes
unfolding has_type append_types
ensure_type t types =
    if has_type t types then types else append_types types (value_type t fresh no_types)

-- `types[valueType] = stats`, where there is such a type
unfoldable pub put_type : DpmPropertyType → ValueTypeStatistics → ValueTypes → ValueTypes
put_type t s no_types = no_types
put_type t s (value_type u r types) =
    let rest = put_type t s types in
    if same_type u t then value_type u s types else value_type u r rest

-- `delete types[valueType]`
unfoldable pub delete_type : DpmPropertyType → ValueTypes → ValueTypes
delete_type t no_types = no_types
delete_type t (value_type u r types) =
    let rest = delete_type t types in if same_type u t then types else value_type u r rest

module _ (language : Language Nothing) (measures : Measures Nothing) (order : NumberOrder) where
  abbrev pub updated :
      RecordValue Nothing → DpmPropertyType → Option ValueTypeStatistics → ValueTypeStatistics
  updated value t none = fresh
  updated value t (some (statistics s at ps)) =
      statistics (update_value_type_stats language measures order value t s) at ps

  -- The statistics object of one type, updated in place as for another.
  abbrev pub update_at :
      DpmPropertyType → DpmPropertyType → RecordValue Nothing → ValueTypes → ValueTypes
  update_at entry t value types = put_type entry (updated value t (lookup_type entry types)) types

  -- `types.number = types.integer; delete types.integer`. The statistics of the value then go to an object
  -- that is no longer there.
  abbrev pub integers_to_numbers : ValueTypes → Option ValueTypeStatistics → ValueTypes
  integers_to_numbers types none = types
  integers_to_numbers types (some integers) =
      delete_type DpmPropertyType.integer (put_type DpmPropertyType.number integers types)

  -- The types after a converted value of a type that has its statistics.
  unfoldable pub inspect_typed : RecordValue Nothing → DpmPropertyType → ValueTypes → ValueTypes
  unfolding has_type lookup_type put_type delete_type update_value_type_stats
  inspect_typed value DpmPropertyType.integer types =
      update_at DpmPropertyType.integer
        (if has_type DpmPropertyType.number types
          then DpmPropertyType.number
          else DpmPropertyType.integer)
        value types
  inspect_typed value DpmPropertyType.number types =
      if has_type DpmPropertyType.integer types
      then integers_to_numbers types (lookup_type DpmPropertyType.integer types)
      else update_at DpmPropertyType.number DpmPropertyType.number value types
  inspect_typed value t types = update_at t t value types

  abbrev pub or_failed :
      RecordValue Nothing
      → DpmPropertyType
      → Result (RecordValue Nothing)
      → Result (RecordValue Nothing)
  or_failed value t (ok typed) = ok typed
  or_failed value t (err e) =
      err (thrown ("Failed to convert value " & to_text language value & " to type " & type_name t))

  -- The converted value, and the types.
  unfoldable pub inspect_value :
      RecordValue Nothing → ValueTypes → Result (RecordValue Nothing × ValueTypes)
  unfolding discover_value_type convert_value_by_value_type to_text ensure_type inspect_typed
  inspect_value value types = do
    let t = discover_value_type language value
    typed ← or_failed value t (convert_value_by_value_type language value t)
    ok (typed, inspect_typed typed t (ensure_type t types))

  -- The values of a property in order.
  unfoldable pub inspect_values : List (RecordValue Nothing) → ValueTypes → Result ValueTypes
  unfolding inspect_value
  inspect_values [] types = ok types
  inspect_values (value ∷ values) types = do
    (typed, next) ← inspect_value value types
    inspect_values values next
