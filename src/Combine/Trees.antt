-- ===== src/Combine/Trees.antt =====
-- client-lib/src/util/SchemaUtil.ts: `combineProperties`, `combineProperty`, `combineTypes` and
-- `combineValueTypesStatistics`. The keys of an object are distinct: each assignment adds a member.
use datapm.Common.{Bool, true, false, Option, none, some, if◌then◌else◌}
use datapm.PackageFile.PropertyTree.{
  PropertyInfo, info, types_of, Property, property, Properties, no_properties, entry, ValueTypes,
  no_types, value_type, ValueTypeStatistics, statistics, ScalarStatistics, OptionalTypes,
  without_types, with_types, OptionalProperties, without_properties, with_properties,
  lookup_property, has_key, DpmPropertyType, same_type,
}
use datapm.Combine.Values.{
  NumberOrder, last_then_first, either_flag, sum_or_null, max_or_null, min_or_null,
  number_max_or_null, number_min_or_null, date_max_or_null, date_min_or_null, oldest_or_either,
  newest_or_either,
}
use datapm.Combine.Labels.{combine_content_labels, combine_string_options}

-- `types[type]`
unfoldable pub lookup_type : DpmPropertyType → ValueTypes → Option ValueTypeStatistics
lookup_type t no_types = none
lookup_type t (value_type u s ts) = if same_type u t then some s else lookup_type t ts

unfoldable pub has_type : DpmPropertyType → ValueTypes → Bool
has_type t no_types = false
has_type t (value_type u s ts) = if same_type u t then true else has_type t ts

-- The second loops: the new members that are not there.
unfoldable pub missing_properties : Properties → Properties → Properties
unfolding has_key
missing_properties existing no_properties = no_properties
missing_properties existing (entry k p new) =
    let rest = missing_properties existing new in
    if has_key k existing then rest else entry k p rest

unfoldable pub missing_types : ValueTypes → ValueTypes → ValueTypes
unfolding has_type
missing_types existing no_types = no_types
missing_types existing (value_type t s new) =
    let rest = missing_types existing new in
    if has_type t existing then rest else value_type t s rest

unfoldable pub append_properties : Properties → Properties → Properties
append_properties no_properties qs = qs
append_properties (entry k p ps) qs = entry k p (append_properties ps qs)

unfoldable pub append_types : ValueTypes → ValueTypes → ValueTypes
append_types no_types us = us
append_types (value_type t s ts) us = value_type t s (append_types ts us)

unfoldable pub combine_info : PropertyInfo → PropertyInfo → PropertyInfo
unfolding last_then_first either_flag oldest_or_either newest_or_either
combine_info existing new = record {
  title = existing.title;
  description = last_then_first existing.description new.description;
  hidden = either_flag existing.hidden new.hidden;
  unit = last_then_first existing.unit new.unit;
  first_seen = oldest_or_either existing.first_seen new.first_seen;
  last_seen = newest_or_either existing.last_seen new.last_seen;
}

module _ (order : NumberOrder) where
  -- The members of the statistics that are not recursive. `stringMinLength` takes the existing one twice.
  unfoldable pub combine_scalars : ScalarStatistics → ScalarStatistics → ScalarStatistics
  unfolding sum_or_null max_or_null min_or_null number_max_or_null number_min_or_null
      date_max_or_null date_min_or_null combine_content_labels combine_string_options
  combine_scalars et nt = record {
    record_count = sum_or_null et.record_count nt.record_count;
    string_max_length = max_or_null et.string_max_length nt.string_max_length;
    string_min_length = min_or_null et.string_min_length et.string_min_length;
    number_max_value = number_max_or_null order et.number_max_value nt.number_max_value;
    number_min_value = number_min_or_null order et.number_min_value nt.number_min_value;
    number_max_precision = max_or_null et.number_max_precision nt.number_max_precision;
    number_max_scale = max_or_null et.number_max_scale nt.number_max_scale;
    boolean_true_count = sum_or_null et.boolean_true_count nt.boolean_true_count;
    boolean_false_count = sum_or_null et.boolean_false_count nt.boolean_false_count;
    date_max_value = date_max_or_null et.date_max_value nt.date_max_value;
    date_min_value = date_min_or_null et.date_min_value nt.date_min_value;
    date_max_millseconds_precision =
        max_or_null et.date_max_millseconds_precision nt.date_max_millseconds_precision;
    string_options = combine_string_options et.string_options nt.string_options;
    content_labels = some (combine_content_labels et.content_labels nt.content_labels);
    array_min_length = min_or_null et.array_min_length nt.array_min_length;
    array_max_length = max_or_null et.array_max_length nt.array_max_length;
  }

  unfoldable mutual
    unfolding lookup_property lookup_type combine_info combine_scalars missing_properties
        missing_types append_properties append_types

    -- The first loop of `combineProperties`.
    pub combined_entries : Properties → Properties → Properties
    combined_entries no_properties new = no_properties
    combined_entries (entry k p ps) new =
        entry k (combined_with p (lookup_property k new)) (combined_entries ps new)

    pub combined_with : Property → Option Property → Property
    combined_with (property i ts) none = property i ts
    combined_with (property i ts) (some new) =
        property (combine_info i (info new))
          (append_types (combined_types ts (types_of new)) (missing_types ts (types_of new)))

    pub combined_types : ValueTypes → ValueTypes → ValueTypes
    combined_types no_types new = no_types
    combined_types (value_type t s ts) new =
        value_type t (combine_statistics s (lookup_type t new)) (combined_types ts new)

    pub combine_statistics : ValueTypeStatistics → Option ValueTypeStatistics → ValueTypeStatistics
    combine_statistics (statistics s at ps) none = statistics s at ps
    combine_statistics (statistics s at ps) (some (statistics n nt nps)) =
        statistics (combine_scalars s n) (combine_optional_types at nt)
          (combine_optional_properties ps nps)

    -- `arrayTypes` of two statistics: never absent.
    pub combine_optional_types : OptionalTypes → OptionalTypes → OptionalTypes
    combine_optional_types without_types without_types = with_types no_types
    combine_optional_types without_types (with_types us) = with_types us
    combine_optional_types (with_types ts) without_types = with_types ts
    combine_optional_types (with_types ts) (with_types us) =
        with_types (append_types (combined_types ts us) (missing_types ts us))

    -- `objectProperties` of two statistics: never absent.
    pub combine_optional_properties : OptionalProperties → OptionalProperties → OptionalProperties
    combine_optional_properties without_properties without_properties =
        with_properties no_properties
    combine_optional_properties without_properties (with_properties qs) = with_properties qs
    combine_optional_properties (with_properties ps) without_properties = with_properties ps
    combine_optional_properties (with_properties ps) (with_properties qs) =
        with_properties (append_properties (combined_entries ps qs) (missing_properties ps qs))

  -- `combineProperties` of two that are given.
  unfoldable pub combine_properties : Properties → Properties → Properties
  unfolding combined_entries missing_properties append_properties
  combine_properties existing new =
      append_properties (combined_entries existing new) (missing_properties existing new)

  unfoldable pub combine_property : Property → Property → Property
  unfolding combined_with
  combine_property existing new = combined_with existing (some new)

  -- `combineTypes` of two that are given.
  unfoldable pub combine_types : ValueTypes → ValueTypes → ValueTypes
  unfolding combined_types missing_types append_types
  combine_types existing new =
      append_types (combined_types existing new) (missing_types existing new)
