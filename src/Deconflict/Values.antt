-- ===== src/Deconflict/Values.antt =====
-- client-lib/src/util/SchemaUtil.ts: `discoverValueType` and `convertValueByValueType`, with
-- `createUTCDateTimeFromString` and `isDate` of client-lib/src/util/DateUtil.ts. A time is a natural number of
-- milliseconds, and `none` for an invalid `Date`.
use datapm.Common.{
  ℕ, String, Bool, false, ◌||◌, Option, none, some, ◌==◌, ◌&◌, Result, ok, err, thrown,
  if◌then◌else◌, nat_eq,
}
use Prim.Native.Nat.{◌%◌}
use datapm.PackageFile.Json.{Number}
use datapm.PackageFile.PropertyTree.{DpmPropertyType}
use datapm.Deconflict.Choices.{type_name}

-- `DPMRecordValue`; what an array or an object holds is of no matter here.
pub data RecordValue (C : Type 0) : Type 0 where
  undefined null : RecordValue C
  text : String → RecordValue C
  boolean : Bool → RecordValue C
  number bigint : Number → RecordValue C
  date : Option ℕ → RecordValue C
  array object : C → RecordValue C

-- What the code takes from the language, from `moment` and from `is-number`.
pub record Language (C : Type 0) : Type 0 where
  -- `s.indexOf(".") !== -1`
  pub has_point : String → Bool
  -- `n > 0`, `Math.round(n)`, `+s`, `Number.parseInt(s)`, and `new Date(n)`
  pub positive : Number → Bool
  pub round : Number → Number
  pub to_number : String → Number
  pub parse_int : String → Number
  pub date_of : Number → Option ℕ
  -- `isNumber(s)`
  pub is_number : String → Bool
  -- `s.trim().toLowerCase()`
  pub lower_trimmed : String → String
  -- `v.toString()` of a date and of what an array or an object holds, `date.toISOString()`,
  -- and `JSON.stringify`
  pub date_text : Option ℕ → String
  pub contents_text : C → String
  pub iso_text : Option ℕ → Result String
  pub stringify : C → Result String
  -- `n.toString()` of a time
  pub time_text : ℕ → String
  -- `moment.utc(v).toDate()`
  pub utc_date : RecordValue C → Option ℕ
  -- Whether the trimmed text is one of the forms of `isDate`.
  pub matches_date : String → Bool

-- The hours, minutes, seconds and milliseconds of a time are all 0.
abbrev pub is_midnight : Option ℕ → Bool
is_midnight none = false
is_midnight (some time) = nat_eq (time % 86400000) 0

module _ {C : Type 0} (language : Language C) where
  unfoldable pub discover_value_type : RecordValue C → DpmPropertyType
  discover_value_type undefined = DpmPropertyType.null
  discover_value_type null = DpmPropertyType.null
  discover_value_type (text s) = DpmPropertyType.string
  discover_value_type (boolean b) = DpmPropertyType.boolean
  discover_value_type (bigint n) = DpmPropertyType.integer
  discover_value_type (number n) =
      if language.has_point n.text then DpmPropertyType.number else DpmPropertyType.integer
  discover_value_type (date time) =
      if is_midnight time then DpmPropertyType.date else DpmPropertyType.date_time
  discover_value_type (array c) = DpmPropertyType.array
  discover_value_type (object c) = DpmPropertyType.object

  -- `v.toString()`, of a value that is not null
  unfoldable pub to_text : RecordValue C → String
  to_text undefined = "undefined"
  to_text null = "null"
  to_text (text s) = s
  to_text (boolean b) = if b then "true" else "false"
  to_text (number n) = n.text
  to_text (bigint n) = n.text
  to_text (date time) = language.date_text time
  to_text (array c) = language.contents_text c
  to_text (object c) = language.contents_text c

  abbrev pub type_of : RecordValue C → String
  type_of undefined = "undefined"
  type_of (text s) = "string"
  type_of (boolean b) = "boolean"
  type_of (number n) = "number"
  type_of (bigint n) = "bigint"
  type_of _ = "object"

  abbrev pub unable : RecordValue C → DpmPropertyType → Result (RecordValue C)
  unable value type =
      err (thrown ("UNABLE_TO_CONVERT_TYPE " & type_of value & " to " & type_name type & "\"}"))

  abbrev pub zero_or_one : Bool → RecordValue C
  zero_or_one b = number (record { text = if b then "1" else "0" })

  unfoldable pub create_utc_date_time_from_string : RecordValue C → RecordValue C
  create_utc_date_time_from_string value = elim (language.utc_date value) [
    | none ↦ null
    | some time ↦ date (some time)
  ]

  unfoldable pub to_boolean : RecordValue C → Result (RecordValue C)
  to_boolean (boolean b) = ok (boolean b)
  to_boolean (number n) = ok (boolean (language.positive n))
  to_boolean (text s) =
      if language.is_number s
      then ok (boolean (language.positive (language.parse_int s)))
      else ok (boolean (language.lower_trimmed s == "true" || language.lower_trimmed s == "yes"))
  to_boolean value = unable value DpmPropertyType.boolean

  unfoldable pub to_double : RecordValue C → Result (RecordValue C)
  to_double (boolean b) = ok (zero_or_one b)
  to_double (number n) = ok (number n)
  to_double (text s) = ok (number (language.to_number s))
  to_double value = unable value DpmPropertyType.number

  unfoldable pub to_integer : RecordValue C → Result (RecordValue C)
  to_integer (boolean b) = ok (zero_or_one b)
  to_integer (number n) = ok (number (language.round n))
  to_integer (text s) = ok (number (language.round (language.to_number s)))
  to_integer value = unable value DpmPropertyType.integer

  unfoldable pub to_date : RecordValue C → Result (RecordValue C)
  unfolding create_utc_date_time_from_string
  to_date (date time) = ok (date time)
  to_date value = ok (create_utc_date_time_from_string value)

  -- A value that is not null and not the text "null".
  unfoldable pub converted : RecordValue C → DpmPropertyType → Result (RecordValue C)
  unfolding to_text to_boolean to_double to_integer to_date create_utc_date_time_from_string
  converted value DpmPropertyType.null = ok null
  converted value DpmPropertyType.string = ok (text (to_text value))
  converted value DpmPropertyType.boolean = to_boolean value
  converted value DpmPropertyType.number = to_double value
  converted value DpmPropertyType.integer = to_integer value
  converted value DpmPropertyType.date = to_date value
  converted value DpmPropertyType.date_time = ok (create_utc_date_time_from_string value)
  converted value DpmPropertyType.object = ok value
  converted value DpmPropertyType.array = ok value

  unfoldable pub convert_value_by_value_type :
      RecordValue C → DpmPropertyType → Result (RecordValue C)
  unfolding converted
  convert_value_by_value_type undefined type = ok null
  convert_value_by_value_type null type = ok null
  convert_value_by_value_type (text s) type =
      if s == "null" then ok null else converted (text s) type
  convert_value_by_value_type value type = converted value type

  -- `isDate(v)`; the empty text, 0 and false are falsy.
  unfoldable pub is_date : RecordValue C → Bool
  unfolding to_text
  is_date undefined = false
  is_date null = false
  is_date (text s) = if s == "" then false else language.matches_date s
  is_date (boolean b) = if b then language.matches_date (to_text (boolean b)) else false
  is_date (number n) =
      if n.text == "0" || n.text == "NaN" then false else language.matches_date n.text
  is_date (bigint n) = if n.text == "0" then false else language.matches_date n.text
  is_date value = language.matches_date (to_text value)
