-- ===== src/Upgrade/Early.antt =====
-- lib/src/PackageUtil.ts, `upgradePackageFile`: the steps from schema versions 0.1.0 to 0.3.0.
-- `parse_float` and `parse_int` are those of `Number`.
use Prim.Native.Char.{code}
use datapm.Common.{
  String, Bool, true, false, Option, none, some, ◌||◌, nat_eq, Result, ok, ◌>>=◌, if◌then◌else◌,
}
use datapm.PackageFile.Json.{
  Json, null, boolean, number, string, array, object, Items, empty, item, Number, end, member, get,
  falsy,
}
use datapm.Upgrade.Objects.{read, read_optional, assign, remove, for_of, for_in, modify}

abbrev pub schema_url_020 : String
schema_url_020 = "https://datapm.io/docs/package-file-schema-v0.2.0.json"

abbrev pub schema_url_030 : String
schema_url_030 = "https://datapm.io/docs/package-file-schema-v0.3.0.json"

abbrev pub schema_url_040 : String
schema_url_040 = "https://datapm.io/docs/package-file-schema-v0.4.0.json"

abbrev is_true : Json → Bool
is_true (boolean b) = b
is_true _ = false

-- One schema of the step from 0.1.0.
unfoldable pub count_schema : Json → Result Json
unfolding read assign remove
count_schema schema = do
  count ← read "recordCount" schema
  counted ← assign "recordsInspectedCount" count schema
  approximate ← read "recordCountApproximate" counted
  precise ←
      assign "recordCountPrecision"
        (string (if is_true approximate then "APPROXIMATE" else "EXACT")) counted
  remove "recordCountApproximate" precise

unfoldable pub upgrade_010 : Json → Result Json
unfolding modify count_schema
upgrade_010 file = do
  marked ← assign "$schema" (string schema_url_020) file
  modify "schemas" (for_of count_schema) marked

abbrev or_zero : Json → Json
or_zero v = if falsy v then number (record { text = "0" }) else v

stream_stats_of_schema : Json → Json
stream_stats_of_schema schema = object (
    member "inspectedCount" (or_zero (read_optional "recordsInspectedCount" schema)) (
      member "byteCount" (read_optional "byteCount" schema) (
        member "byteCountPrecision" (read_optional "byteCountPrecision" schema) (
          member "recordCount" (read_optional "recordCount" schema)
            (member "recordCountPrecision" (read_optional "recordCountPrecision" schema) end)))))

stream_set_of_schema : Json → Json → Json
unfolding stream_stats_of_schema
stream_set_of_schema schema source = object (
    member "slug" (read_optional "uri" source) (
      member "configuration" (object end) (
        member "schemaTitles" (array (item (read_optional "title" schema) empty)) (
          member "lastUpdateHash" (read_optional "lastUpdateHash" source)
            (member "streamStats" (stream_stats_of_schema schema) end)))))

-- The one source that the step from 0.2.0 makes of `schema.source`.
unfoldable pub source_of_schema : Json → Json → Json
unfolding read_optional stream_set_of_schema
source_of_schema schema source = object (
    member "slug" (read_optional "uri" source) (
      member "type" (read_optional "type" source) (
        member "uris" (array (item (read_optional "uri" source) empty)) (
          member "configuration" (read_optional "configuration" source)
            (member "streamSets" (array (item (stream_set_of_schema schema source) empty)) end)))))

-- Whether `schema && schema.source` holds.
abbrev pub has_source : Json → Bool
has_source (object m) = if falsy (get "source" m) then false else true
has_source _ = false

-- The loop of the step from 0.2.0: the schemas, and what `sources` was last assigned.
unfoldable pub move_sources : Items → Option Json → Result (Items × Option Json)
unfolding remove source_of_schema
move_sources empty sources = ok (empty, sources)
move_sources (item schema rest) sources = do
  schema' ← (if has_source schema then remove "source" schema else ok schema)
  moved ← move_sources rest (
      if has_source schema
      then some (array (item (source_of_schema schema (read_optional "source" schema)) empty))
      else sources)
  ok (item schema' moved.0, moved.1)

abbrev pub assign_if : String → Option Json → Json → Result Json
assign_if k none v = ok v
assign_if k (some w) v = assign k w v

-- The loop, and what it leaves in the package file.
unfoldable pub move_sources_into : Json → Json → Result Json
unfolding assign for_of move_sources
move_sources_into (array items) file = do
  moved ← move_sources items none
  filled ← assign_if "sources" moved.1 file
  assign "schemas" (array moved.0) filled
-- No element of another value has a source.
move_sources_into other file = do seen ← for_of (λ v. ok v) other; ok file

unfoldable pub upgrade_020 : Json → Result Json
unfolding read assign move_sources_into
upgrade_020 file = do
  marked ← assign "$schema" (string schema_url_030) file
  schemas ← read "schemas" marked
  move_sources_into schemas marked

unfoldable pub has_dot : String → Bool
has_dot String.[] = false
has_dot (String.◌∷◌ c s) = nat_eq (code c) b'.' || has_dot s

module _ (parse_float parse_int : String → Number) where
  -- A bound of a value type that is a text becomes a number.
  unfoldable pub parse_bound : String → Json → Result Json
  unfolding read assign has_dot
  parse_bound k statistics = do
    bound ← read k statistics
    elim bound [
      | string s ↦ assign k (number (if has_dot s then parse_float s else parse_int s)) statistics
      | other ↦ ok statistics
    ]

  abbrev is_exactly_null : Json → Bool
  is_exactly_null null = true
  is_exactly_null _ = false

  unfoldable pub drop_null : String → Json → Result Json
  unfolding read remove
  drop_null k statistics = do
    old ← read k statistics
    if is_exactly_null old then remove k statistics else ok statistics

  unfoldable pub clean_statistics : Json → Result Json
  unfolding drop_null parse_bound
  clean_statistics statistics = do
    a ← drop_null "dateMaxValue" statistics
    b ← drop_null "dateMinValue" a
    c ← parse_bound "numberMaxValue" b
    parse_bound "numberMinValue" c

  unfoldable pub upgrade_030 : Json → Result Json
  unfolding modify for_of for_in clean_statistics
  upgrade_030 file = do
    marked ← assign "$schema" (string schema_url_040) file
    modify "schemas"
        (for_of (modify "properties" (for_in (modify "valueTypes" (for_in clean_statistics)))))
        marked
