-- ===== src/Deconflict/Updates.antt =====
-- client-lib/src/util/SchemaUtil.ts: `updateSchemaWithDeconflictOptions`. It changes the schema in place,
-- so that a throw leaves what the options before have changed.
use datapm.Common.{
  String, Bool, true, false, ◌||◌, Option, none, some, List, [], ◌∷◌, ◌&◌, ◌==◌, Result, ok, err,
  ◌>>=◌, Error, thrown, if◌then◌else◌,
}
use datapm.PackageFile.{Schema}
use datapm.PackageFile.PropertyTree.{
  DpmPropertyType, same_type, Property, property, info, types_of, Properties, no_properties, entry,
  type_names, ValueTypes, no_types, value_type, ValueTypeStatistics, statistics, without_types,
  without_properties,
}
use datapm.Combine.Trees.{lookup_type}
use datapm.Deconflict.Choices.{
  DeconflictOptions, cast_to_boolean, cast_to_integer, cast_to_double, cast_to_date,
  cast_to_date_time, cast_to_string, cast_to_null, skip, all_types,
}

abbrev pub option_name : DeconflictOptions → String
option_name cast_to_boolean = "CAST_TO_BOOLEAN"
option_name cast_to_integer = "CAST_TO_INTEGER"
option_name cast_to_double = "CAST_TO_DOUBLE"
option_name cast_to_date = "CAST_TO_DATE"
option_name cast_to_date_time = "CAST_TO_DATE_TIME"
option_name cast_to_string = "CAST_TO_STRING"
option_name cast_to_null = "CAST_TO_NULL"
option_name skip = "SKIP"
option_name all_types = "ALL"

-- The table `deconflictRules`.
abbrev pub deconflict_rule : DeconflictOptions → Option DpmPropertyType
deconflict_rule cast_to_boolean = some DpmPropertyType.boolean
deconflict_rule cast_to_integer = some DpmPropertyType.integer
deconflict_rule cast_to_double = some DpmPropertyType.number
deconflict_rule cast_to_date = some DpmPropertyType.date
deconflict_rule cast_to_date_time = some DpmPropertyType.date_time
deconflict_rule cast_to_string = some DpmPropertyType.string
deconflict_rule cast_to_null = none
deconflict_rule skip = none
deconflict_rule all_types = none

-- `Object.values(properties).find((p) => p.title === title)`
unfoldable pub find_titled : String → Properties → Option Property
find_titled title no_properties = none
find_titled title (entry key p ps) =
    if (info p).title == title then some p else find_titled title ps

-- `property.types = types` for the property that was found.
unfoldable pub set_types : String → ValueTypes → Properties → Properties
set_types title types no_properties = no_properties
set_types title types (entry key p ps) =
    let rest = set_types title types ps in
    if (info p).title == title then entry key (property (info p) types) ps else entry key p rest

-- `Object.keys(property.types).filter((t) => t !== "null" && t !== "string")`
unfoldable pub non_string_types : List DpmPropertyType → List DpmPropertyType
non_string_types [] = []
non_string_types (t ∷ ts) =
    let rest = non_string_types ts in
    if same_type t DpmPropertyType.null || same_type t DpmPropertyType.string
    then rest
    else t ∷ rest

-- `{}`
abbrev pub empty_statistics : ValueTypeStatistics
empty_statistics =
    statistics
      (record {
        record_count = none;
        string_max_length = none;
        string_min_length = none;
        number_max_value = none;
        number_min_value = none;
        number_max_precision = none;
        number_max_scale = none;
        boolean_true_count = none;
        boolean_false_count = none;
        date_max_value = none;
        date_min_value = none;
        date_max_millseconds_precision = none;
        string_options = none;
        content_labels = none;
        array_min_length = none;
        array_max_length = none;
      })
      without_types without_properties

abbrev pub or_empty : Option ValueTypeStatistics → ValueTypeStatistics
or_empty none = empty_statistics
or_empty (some preserved) = preserved

abbrev pub only_type : DpmPropertyType → ValueTypes → ValueTypes
only_type t types = value_type t (or_empty (lookup_type t types)) no_types

-- The one type that is kept for a skipped or a null value.
abbrev pub single_type : String → List DpmPropertyType → Result DpmPropertyType
single_type title [] =
    err (thrown ("Could not find non-string property types for property with title: " & title))
single_type title (t ∷ []) = ok t
single_type title (t ∷ u ∷ ts) =
    err (thrown ("Found multiple non-string property types for property with title: " & title))

abbrev pub ruled_type : DeconflictOptions → Option DpmPropertyType → Result DpmPropertyType
ruled_type option none =
    err (thrown ("Could not find rule for deconflict option: " & option_name option))
ruled_type option (some rule) = ok rule

-- The type that an option other than `ALL` leaves.
unfoldable pub kept_type : String → DeconflictOptions → ValueTypes → Result DpmPropertyType
unfolding non_string_types
kept_type title skip types = single_type title (non_string_types (type_names types))
kept_type title cast_to_null types = single_type title (non_string_types (type_names types))
kept_type title option types = ruled_type option (deconflict_rule option)

abbrev pub is_all : DeconflictOptions → Bool
is_all all_types = true
is_all _ = false

-- One round of the loop: the properties it leaves.
unfoldable pub update_found :
    String → DeconflictOptions → Properties → Option Property → Result Properties
unfolding kept_type set_types
update_found title option ps none = err (thrown ("Could not find property with title: " & title))
update_found title option ps (some p) = if is_all option then ok ps else (do
  kept ← kept_type title option (types_of p)
  ok (set_types title (only_type kept (types_of p)) ps))

pub record Updated : Type 0 where
  pub properties : Properties
  pub error : Option Error

-- The loop over the options, whose titles are distinct keys.
unfoldable pub update_properties : Properties → List (String × DeconflictOptions) → Updated
unfolding update_found find_titled
update_properties ps [] = record { properties = ps; error = none }
update_properties ps ((title, option) ∷ options) =
    elim (update_found title option ps (find_titled title ps)) [
      | err e ↦ record { properties = ps; error = some e }
      | ok updated ↦ update_properties updated options
    ]

unfoldable pub update_schema_with_deconflict_options :
    Schema → List (String × DeconflictOptions) → Schema × Option Error
unfolding update_properties
update_schema_with_deconflict_options schema options =
    let updated = update_properties schema.properties options in
    (record schema { properties = updated.properties }, updated.error)
