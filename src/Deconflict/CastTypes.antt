-- ===== src/Deconflict/CastTypes.antt =====
-- client-lib/src/util/SchemaUtil.ts: the types of the values that `resolveConflict` gives, against the types that
-- `updateSchemaWithDeconflictOptions` gives the property in the schema.
use datapm.Common.{
  ℕ, String, Bool, true, false, not, ◌||◌, ◌&&◌, Option, none, some, ◌==◌, ◌≡◌, Result, ok, err,
  if◌then◌else◌, arith, ap, sym, ◌∙◌, eq_refl, Bool-cases, Option-cases, inl, inr,
}
use datapm.PackageFile.PropertyTree.{DpmPropertyType}
use datapm.PackageFile.Json.{Number}
use datapm.Deconflict.Choices.{
  DeconflictOptions, cast_to_boolean, cast_to_integer, cast_to_double, cast_to_date,
  cast_to_date_time, cast_to_string, cast_to_null, skip,
}
use datapm.Deconflict.Updates.{deconflict_rule}
use datapm.Deconflict.Values.{
  RecordValue, undefined, null, text, boolean, number, bigint, date, array, object, Language,
  discover_value_type, convert_value_by_value_type, to_text, is_date, converted, to_boolean,
  to_double, to_integer, to_date, create_utc_date_time_from_string, is_midnight,
}
use datapm.Deconflict.Casts.{
  Resolution, to_boolean_cast, to_integer_cast, to_double_cast, to_date_cast, to_string_cast,
  other_text, cast, resolve_value, resolve_conflict,
}

-- `Number.isFinite(n)`
abbrev pub is_finite : Number → Bool
is_finite n = not (n.text == "NaN" || n.text == "Infinity" || n.text == "-Infinity")

abbrev has_time : Option ℕ → Bool
has_time none = false
has_time (some time) = not (is_midnight (some time))

abbrev is_invalid : Option ℕ → Bool
is_invalid none = true
is_invalid (some time) = false

abbrev same_bool : Bool → Bool → Bool
same_bool a b = if a then b else not b

abbrev pub is_null : {C : Type 0} → RecordValue C → Bool
is_null undefined = true
is_null null = true
is_null value = false

-- What is left of a value by an option that has no type of its own.
abbrev pub kept_value : {C : Type 0} → DeconflictOptions → RecordValue C → RecordValue C
kept_value option undefined = null
kept_value cast_to_null (text s) = null
kept_value skip (text s) = null
kept_value option (text s) = if s == "null" then null else text s
kept_value option value = value

-- Whether the record of a value is skipped.
abbrev pub skips : {C : Type 0} → DeconflictOptions → RecordValue C → Bool
skips skip (text s) = if s == "null" then false else true
skips option value = false

module _ {C : Type 0} (language : Language C) where
  -- Whether a value is null or of the type, as the language has it: an integer is a finite number that
  -- rounding does not change, a date a valid `Date` without a time, a date with a time any valid `Date`.
  abbrev pub conforms : DpmPropertyType → RecordValue C → Bool
  conforms type undefined = true
  conforms type null = true
  conforms DpmPropertyType.boolean (boolean b) = true
  conforms DpmPropertyType.integer (number n) = is_finite n && ((language.round n).text == n.text)
  conforms DpmPropertyType.number (number n) = is_finite n
  conforms DpmPropertyType.string (text s) = true
  conforms DpmPropertyType.date (date time) = is_midnight time
  conforms DpmPropertyType.date_time (date (some time)) = true
  conforms _ _ = false

  abbrev text_misses : DeconflictOptions → String → Bool
  text_misses cast_to_integer s = not (is_finite (language.round (language.to_number s)))
  text_misses cast_to_double s = not (is_finite (language.to_number s))
  text_misses cast_to_date s = has_time (language.utc_date (text s))
  text_misses _ s = false

  -- The values that a cast leaves with another type than the schema gets: numbers as booleans, booleans as
  -- numbers, dates as integers, integers as doubles, dates with a time as dates, and what is no finite
  -- number or no valid date.
  abbrev pub misses : DeconflictOptions → RecordValue C → Bool
  misses option (text s) = if s == "null" then false else text_misses option s
  misses cast_to_boolean (number n) = true
  misses cast_to_integer (boolean b) = true
  misses cast_to_integer (number n) = not (is_finite (language.round n))
  misses cast_to_integer (date time) = is_midnight time
  misses cast_to_double (boolean b) = true
  misses cast_to_double (number n) = not (language.has_point n.text) || not (is_finite n)
  misses cast_to_date (number n) =
      not (language.has_point n.text) && not (is_midnight (language.date_of (language.round n)))
  misses cast_to_date (date time) =
      not (is_midnight time) && has_time (language.utc_date (date time))
  misses cast_to_date_time (number n) =
      not (language.has_point n.text) && is_invalid (language.date_of (language.round n))
  misses _ _ = false

  -- The values of which a cast leaves null only: those that are null, texts that are no date under a cast to
  -- a date, and the types that an option does not look at.
  abbrev pub loses : DeconflictOptions → RecordValue C → Bool
  loses option undefined = true
  loses option null = true
  loses cast_to_date (text s) = s == "null" || is_invalid (language.utc_date (text s))
  loses cast_to_date_time (text s) = s == "null" || is_invalid (language.utc_date (text s))
  loses option (text s) = s == "null"
  loses cast_to_string value = false
  loses cast_to_boolean (date time) = true
  loses cast_to_double (date time) = true
  loses cast_to_integer (date time) = not (is_midnight time)
  loses option (date time) = not (is_midnight time) && is_invalid (language.utc_date (date time))
  loses cast_to_date (boolean b) = true
  loses cast_to_date_time (boolean b) = true
  loses cast_to_date (number n) = language.has_point n.text
  loses cast_to_date_time (number n) = language.has_point n.text
  loses option (array c) = true
  loses option (object c) = true
  loses option value = false

  -- The result of an option for a value. For an option with a type in `deconflictRules`, it is null or of
  -- that type unless the cast misses it, and null exactly for the values that the cast loses; for an
  -- option without, it is what that option leaves of the value.
  abbrev pub IsCast : DeconflictOptions → RecordValue C → RecordValue C → Type 0
  IsCast option value result = elim (deconflict_rule option) [
    | none ↦ result ≡ kept_value option value
    | some type ↦
        (conforms type result ≡ not (misses option value)) × (is_null result ≡ loses option value)
  ]

  -- What a result has to be, as a test: a cast that throws gives none.
  abbrev met : Bool → Bool → DpmPropertyType → Result (Resolution C) → Bool
  met missed lost type (err e) = true
  met missed lost type (ok r) =
      same_bool (conforms type r.value) (not missed) && same_bool (is_null r.value) lost

  abbrev met_by : DeconflictOptions → RecordValue C → Result (Resolution C) → Bool
  met_by option value result = elim (deconflict_rule option) [
    | none ↦ true
    | some type ↦ met (misses option value) (loses option value) type result
  ]

  abbrev skipped_by : Result (Resolution C) → Bool → Bool
  skipped_by (err e) b = true
  skipped_by (ok r) b = if b then r.skip_record else not r.skip_record

  -- A call that gives a resolution skips the record exactly for texts under `SKIP`.
  skip_record-skipped :
      (value : RecordValue C) (option : DeconflictOptions)
      → skipped_by (resolve_conflict language value option) (skips option value) ≡ true
  unfolding resolve_conflict resolve_value cast to_boolean_cast to_integer_cast to_double_cast
      to_date_cast to_string_cast other_text discover_value_type convert_value_by_value_type
      converted to_boolean to_double to_integer to_date create_utc_date_time_from_string is_date
      to_text
  skip_record-skipped undefined option = ground arith
  skip_record-skipped null option = ground arith
  skip_record-skipped (text s) option = ground arith
  skip_record-skipped (boolean b) option = ground arith
  skip_record-skipped (number n) option = ground arith
  skip_record-skipped (bigint n) option = ground arith
  skip_record-skipped (date time) option = ground arith
  skip_record-skipped (array c) option = ground arith
  skip_record-skipped (object c) option = ground arith

  pub resolve_conflict-skips :
      (value : RecordValue C) (option : DeconflictOptions) (resolution : Resolution C)
      → resolve_conflict language value option ≡ ok resolution
      → resolution.skip_record ≡ skips option value
  resolve_conflict-skips value option resolution gives =
      let tested =
        ap (λ r. skipped_by r (skips option value)) (sym gives)
        ∙ skip_record-skipped value option in
      ground (arith, tested)

  resolve_conflict-kept :
      (value : RecordValue C) (option : DeconflictOptions)
      → deconflict_rule option ≡ none
      → (resolution : Resolution C) → resolve_conflict language value option ≡ ok resolution
      → resolution.skip_record ≡ false
      → resolution.value ≡ kept_value option value
  unfolding resolve_conflict resolve_value cast discover_value_type convert_value_by_value_type
      converted to_boolean to_double to_integer to_date create_utc_date_time_from_string to_text
  resolve_conflict-kept undefined option h r gives keeps = ground (arith, gives)
  resolve_conflict-kept null option h r gives keeps = ground (arith, gives)
  resolve_conflict-kept (text s) option h r gives keeps = ground (arith, gives)
  resolve_conflict-kept (boolean b) option h r gives keeps = ground (arith, gives)
  resolve_conflict-kept (number n) option h r gives keeps = ground (arith, gives)
  resolve_conflict-kept (bigint n) option h r gives keeps = ground (arith, gives)
  resolve_conflict-kept (date time) option h r gives keeps = ground (arith, gives)
  resolve_conflict-kept (array c) option h r gives keeps = ground (arith, gives)
  resolve_conflict-kept (object c) option h r gives keeps = ground (arith, gives)

  module _ (round_twice : (n : Number) → language.round (language.round n) ≡ language.round n) where
    round_same :
        (n : Number) → ((language.round (language.round n)).text == (language.round n).text) ≡ true
    round_same n = rw (round_twice n) (eq_refl (language.round n).text)

    text-met :
        (s : String) (option : DeconflictOptions)
        → (s == "null") ≡ false
        → met_by option (text s) (resolve_value language (text s) option) ≡ true
    unfolding resolve_value cast to_boolean_cast to_integer_cast to_double_cast to_date_cast
        to_string_cast other_text discover_value_type convert_value_by_value_type converted
        to_boolean to_double to_integer to_date create_utc_date_time_from_string is_date to_text
    text-met s option h =
        ground (arith, h, round_same (language.to_number s), round_twice (language.to_number s))

    number-met :
        (n : Number) (option : DeconflictOptions)
        → met_by option (number n) (resolve_value language (number n) option) ≡ true
    unfolding resolve_value cast to_boolean_cast to_integer_cast to_double_cast to_date_cast
        to_string_cast other_text discover_value_type convert_value_by_value_type converted
        to_boolean to_double to_integer to_date create_utc_date_time_from_string is_date to_text
    number-met n option = ground (arith, round_same n, round_twice n)

    date-met :
        (time : Option ℕ) (option : DeconflictOptions)
        → met_by option (date time) (resolve_value language (date time) option) ≡ true
    unfolding resolve_value cast to_boolean_cast to_integer_cast to_double_cast to_date_cast
        to_string_cast other_text discover_value_type convert_value_by_value_type converted
        to_boolean to_double to_integer to_date create_utc_date_time_from_string is_date to_text
    date-met time option = ground arith

    bigint-met :
        (n : Number) (option : DeconflictOptions)
        → met_by option (bigint n) (resolve_value language (bigint n) option) ≡ true
    unfolding resolve_conflict resolve_value cast to_boolean_cast to_integer_cast to_double_cast
        to_date_cast to_string_cast other_text is_date discover_value_type
        convert_value_by_value_type converted to_boolean to_double to_integer to_date
        create_utc_date_time_from_string to_text
    bigint-met n option = ground arith

    resolve_conflict-met :
        (value : RecordValue C) (option : DeconflictOptions)
        → met_by option value (resolve_conflict language value option) ≡ true
    unfolding resolve_conflict resolve_value cast to_boolean_cast to_integer_cast to_double_cast
        to_date_cast to_string_cast other_text is_date discover_value_type
        convert_value_by_value_type converted to_boolean to_double to_integer to_date
        create_utc_date_time_from_string to_text
    resolve_conflict-met undefined option = ground arith
    resolve_conflict-met null option = ground arith
    resolve_conflict-met (text s) option = elim (Bool-cases (s == "null")) [
      | inl same ↦ ground (arith, same)
      | inr other ↦ rw (other, resolve_conflict) (text-met s option other)
    ]
    resolve_conflict-met (boolean b) option = ground arith
    resolve_conflict-met (number n) option = number-met n option
    resolve_conflict-met (bigint n) option = bigint-met n option
    resolve_conflict-met (date time) option = date-met time option
    resolve_conflict-met (array c) option = ground arith
    resolve_conflict-met (object c) option = ground arith

    -- If rounding a rounded number changes nothing, and the call gives a value and does not skip the record:
    -- for each option that has a type in `deconflictRules`, the value is null or of that type, except for
    -- exactly the values that `misses` tells, of which it is neither: numbers as booleans, booleans and
    -- dates without a time as integers, booleans and integers as doubles, values with a time as dates, and
    -- what gives a number that is not finite or a date that is not valid. It is null for exactly the values
    -- that `loses` tells. For casting to null, skipping and `ALL`, the value is the given one, or null where
    -- the given one is null, undefined, the text "null", or a text that is cast to null.
    pub resolve_conflict-IsCast :
        (value : RecordValue C) (option : DeconflictOptions) (resolution : Resolution C)
        → resolve_conflict language value option ≡ ok resolution
        → resolution.skip_record ≡ false
        → IsCast option value resolution.value
    resolve_conflict-IsCast value option resolution gives keeps =
        let tested = ap (met_by option value) (sym gives) ∙ resolve_conflict-met value option in
        elim (Option-cases (deconflict_rule option)) [
          | inl no_rule ↦
              rw (IsCast, no_rule)
                (resolve_conflict-kept value option no_rule resolution gives keeps)
          | inr (type, rule) ↦
              rw (IsCast, rule)
                (let now = rw (met_by, rule) at tested in
                  (ground (arith, now), ground (arith, now)))
        ]
