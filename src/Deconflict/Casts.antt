-- ===== src/Deconflict/Casts.antt =====
-- client-lib/src/util/SchemaUtil.ts: `resolveConflict`.
use datapm.Common.{
  String, Bool, true, false, none, some, ◌==◌, ◌&◌, Result, ok, err, type_error, ◌>>=◌,
  if◌then◌else◌,
}
use datapm.PackageFile.PropertyTree.{DpmPropertyType}
use datapm.Deconflict.Choices.{
  DeconflictOptions, cast_to_boolean, cast_to_integer, cast_to_double, cast_to_date,
  cast_to_date_time, cast_to_string, cast_to_null, skip, all_types,
}
use datapm.Deconflict.Values.{
  RecordValue, undefined, null, text, boolean, number, date, array, object, Language,
  discover_value_type, convert_value_by_value_type, to_text, is_date,
}

pub record Resolution (C : Type 0) : Type 0 where
  pub skip_record : Bool
  pub value : RecordValue C

abbrev pub keep : {C : Type 0} → RecordValue C → Result (Resolution C)
keep value = ok (record { skip_record = false; value = value })

module _ {C : Type 0} (language : Language C) where
  abbrev pub text_of_bool : Bool → RecordValue C
  text_of_bool b = text (if b then "true" else "false")

  -- `typeConvertedValue ? a : b` of a boolean
  abbrev pub chosen : RecordValue C → String → String → RecordValue C
  chosen (boolean true) a b = text a
  chosen _ a b = text b

  -- `((typeConvertedValue as number) > 0).toString()`
  abbrev pub positive_text : RecordValue C → RecordValue C
  positive_text (number n) = text_of_bool (language.positive n)
  positive_text _ = text_of_bool false

  abbrev pub rounded : RecordValue C → RecordValue C
  rounded (number n) = number (language.round n)
  rounded value = value

  abbrev pub time_text : RecordValue C → Result (Resolution C)
  time_text (date none) = keep (text "NaN")
  time_text (date (some time)) = keep (text (language.time_text time))
  time_text _ = err type_error

  -- `moment(new Date(n)).utc().toDate()`
  abbrev pub date_of_number : RecordValue C → RecordValue C
  date_of_number (number n) = date (language.date_of n)
  date_of_number value = value

  -- A date that is valid, and null otherwise.
  abbrev pub valid_date : RecordValue C → RecordValue C
  valid_date (date (some time)) = date (some time)
  valid_date _ = null

  unfoldable pub to_boolean_cast :
      RecordValue C → RecordValue C → DpmPropertyType → Result (Resolution C)
  unfolding convert_value_by_value_type
  to_boolean_cast value typed DpmPropertyType.boolean = keep typed
  to_boolean_cast value typed DpmPropertyType.number = keep (positive_text typed)
  to_boolean_cast value typed DpmPropertyType.integer = keep (positive_text typed)
  to_boolean_cast value typed DpmPropertyType.string = do
    cast ← convert_value_by_value_type language value DpmPropertyType.boolean
    keep cast
  to_boolean_cast value typed _ = keep null

  unfoldable pub to_integer_cast :
      RecordValue C → RecordValue C → DpmPropertyType → Result (Resolution C)
  unfolding convert_value_by_value_type
  to_integer_cast value typed DpmPropertyType.integer = keep typed
  to_integer_cast value typed DpmPropertyType.number = keep (rounded typed)
  to_integer_cast value typed DpmPropertyType.boolean = keep (chosen typed "1" "0")
  to_integer_cast value typed DpmPropertyType.date = time_text typed
  to_integer_cast value typed DpmPropertyType.string = do
    cast ← convert_value_by_value_type language value DpmPropertyType.integer
    keep cast
  to_integer_cast value typed _ = keep null

  unfoldable pub to_double_cast :
      RecordValue C → RecordValue C → DpmPropertyType → Result (Resolution C)
  unfolding convert_value_by_value_type to_text
  to_double_cast value typed DpmPropertyType.number = keep value
  to_double_cast value typed DpmPropertyType.boolean = keep (chosen typed "1.0" "0.0")
  to_double_cast value typed DpmPropertyType.integer = keep (text (to_text language typed & ".0"))
  to_double_cast value typed DpmPropertyType.string = do
    cast ← convert_value_by_value_type language value DpmPropertyType.number
    keep cast
  to_double_cast value typed _ = keep null

  -- The cases `CAST_TO_DATE` and `CAST_TO_DATE_TIME`, which are the same.
  unfoldable pub to_date_cast :
      RecordValue C → RecordValue C → DpmPropertyType → Result (Resolution C)
  unfolding convert_value_by_value_type
  to_date_cast value typed DpmPropertyType.date_time = keep typed
  to_date_cast value typed DpmPropertyType.date = keep typed
  to_date_cast value typed DpmPropertyType.integer = keep (date_of_number typed)
  to_date_cast value typed DpmPropertyType.string = do
    cast ← convert_value_by_value_type language value DpmPropertyType.date
    keep (valid_date cast)
  to_date_cast value typed _ = keep null

  -- `(typeConvertedValue as Date).toISOString()`
  abbrev pub iso_text : RecordValue C → Result (Resolution C)
  iso_text (date time) = do iso ← language.iso_text time; keep (text iso)
  iso_text _ = err type_error

  abbrev pub json_text : RecordValue C → Result (Resolution C)
  json_text (array c) = do json ← language.stringify c; keep (text json)
  json_text (object c) = do json ← language.stringify c; keep (text json)
  json_text _ = err type_error

  -- Neither a text, null, a boolean nor a date.
  unfoldable pub other_text :
      RecordValue C → RecordValue C → DpmPropertyType → Result (Resolution C)
  unfolding to_text
  other_text value typed DpmPropertyType.object = json_text typed
  other_text value typed DpmPropertyType.array = json_text typed
  other_text value typed _ = keep (text (to_text language value))

  unfoldable pub to_string_cast :
      RecordValue C → RecordValue C → DpmPropertyType → Result (Resolution C)
  unfolding is_date other_text
  to_string_cast value typed DpmPropertyType.string = keep value
  to_string_cast value typed DpmPropertyType.null = keep null
  to_string_cast value typed DpmPropertyType.boolean = keep (chosen typed "true" "false")
  to_string_cast value typed type =
      if is_date language typed then iso_text typed else other_text value typed type

  -- Skipping, and casting to null, look at texts only.
  abbrev pub unless_text : Resolution C → RecordValue C → DpmPropertyType → Result (Resolution C)
  unless_text otherwise value DpmPropertyType.string = ok otherwise
  unless_text otherwise value _ = keep value

  unfoldable pub cast :
      DeconflictOptions → RecordValue C → RecordValue C → DpmPropertyType → Result (Resolution C)
  unfolding to_boolean_cast to_integer_cast to_double_cast to_date_cast to_string_cast
  cast skip value typed type = unless_text (record { skip_record = true; value = value }) value type
  cast cast_to_null value typed type =
      unless_text (record { skip_record = false; value = null }) value type
  cast cast_to_boolean value typed type = to_boolean_cast value typed type
  cast cast_to_integer value typed type = to_integer_cast value typed type
  cast cast_to_double value typed type = to_double_cast value typed type
  cast cast_to_date value typed type = to_date_cast value typed type
  cast cast_to_date_time value typed type = to_date_cast value typed type
  cast cast_to_string value typed type = to_string_cast value typed type
  cast all_types value typed type = keep value

  -- A value that is not null.
  unfoldable pub resolve_value : RecordValue C → DeconflictOptions → Result (Resolution C)
  unfolding cast discover_value_type convert_value_by_value_type
  resolve_value value all_types = keep value
  resolve_value value option = do
    let type = discover_value_type language value
    typed ← convert_value_by_value_type language value type
    cast option value typed type

  unfoldable pub resolve_conflict : RecordValue C → DeconflictOptions → Result (Resolution C)
  unfolding resolve_value
  resolve_conflict undefined option = keep null
  resolve_conflict null option = keep null
  resolve_conflict (text s) option =
      if s == "null" then keep null else resolve_value (text s) option
  resolve_conflict value option = resolve_value value option
