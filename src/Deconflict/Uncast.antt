-- ===== src/Deconflict/Uncast.antt =====
-- client-lib/src/util/SchemaUtil.ts: values that `resolveConflict` cannot cast, or leaves as texts.
use datapm.Common.{Bool, true, false, ◌≡◌, ◌≢◌, ok, err, thrown, if◌then◌else◌, arith}
use datapm.PackageFile.PropertyTree.{DpmPropertyType}
use datapm.PackageFile.Json.{Number}
use datapm.Deconflict.Choices.{
  DeconflictOptions, cast_to_boolean, cast_to_integer, cast_to_double, all_types,
}
use datapm.Deconflict.Values.{
  text, boolean, number, bigint, Language, discover_value_type, convert_value_by_value_type,
  converted, to_boolean, to_double, to_integer,
}
use datapm.Deconflict.Casts.{
  to_boolean_cast, to_integer_cast, to_double_cast, cast, resolve_value, resolve_conflict,
}

module _ {C : Type 0} (language : Language C) where
  -- A big integer is discovered to be an integer, but nothing converts one: every option but `ALL` throws.
  resolve_conflict-bigint_throws :
      (n : Number) (option : DeconflictOptions)
      → option ≢ all_types
      → (discover_value_type language (bigint n) ≡ DpmPropertyType.integer)
        × (resolve_conflict language (bigint n) option
            ≡ err (thrown "UNABLE_TO_CONVERT_TYPE bigint to integer\"}"))
  unfolding resolve_conflict resolve_value discover_value_type convert_value_by_value_type converted
      to_integer
  resolve_conflict-bigint_throws n option h = ground arith

  -- After a cast to a boolean, a number with a decimal point is a text; after a cast to an integer or to a
  -- double, a boolean is a text.
  resolve_conflict-leaves_text :
      (n : Number) (b : Bool)
      → language.has_point n.text ≡ true
      → (resolve_conflict language (number n) cast_to_boolean
          ≡ ok (record {
            skip_record = false;
            value = text (if language.positive n then "true" else "false");
          }))
        × (resolve_conflict language (boolean b) cast_to_integer
            ≡ ok (record { skip_record = false; value = text (if b then "1" else "0") }))
        × (resolve_conflict language (boolean b) cast_to_double
            ≡ ok (record { skip_record = false; value = text (if b then "1.0" else "0.0") }))
  unfolding resolve_conflict resolve_value cast to_boolean_cast to_integer_cast to_double_cast
      discover_value_type convert_value_by_value_type converted to_boolean to_double
  resolve_conflict-leaves_text n b h = ground arith
