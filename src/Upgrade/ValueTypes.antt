-- ===== src/Upgrade/ValueTypes.antt =====
-- lib/src/PackageUtil.ts, `upgradePackageFile`: the step from schema version 0.8.1, which turns the
-- `valueTypes` of each property into `types`. The property that is written to is that of the first
-- schema of the same title. Titles are texts or absent.
use datapm.Common.{
  ℕ, zero, suc, String, Bool, true, false, ◌==◌, ◌||◌, Result, ok, err, type_error, ◌>>=◌,
  if◌then◌else◌,
}
use datapm.PackageFile.Json.{
  Json, undefined, null, string, array, object, Items, empty, item, Members, end, member, put,
}
use datapm.Upgrade.Objects.{read, assign, remove, for_of}

abbrev pub schema_url_090 : String
schema_url_090 = "https://datapm.io/docs/package-file-schema-v0.9.0.json"

-- The names of value types that the step copies.
unfoldable pub is_type_name : String → Bool
is_type_name k =
    k == "integer"
    || (k == "number"
        || (k == "string"
            || (k == "boolean"
                || (k == "date"
                    || (k == "date-time" || (k == "object" || (k == "array" || k == "null")))))))

-- The loop over `oldProperty.valueTypes`, from what `types` holds.
unfoldable pub copy_types : Members → Members → Members
unfolding put is_type_name
copy_types types end = types
copy_types types (member k v rest) =
    copy_types (if is_type_name k then put k v types else types) rest

abbrev members_of : Json → Members
members_of (object m) = m
members_of _ = end

-- `s.title === title`
abbrev same_title : Json → Json → Bool
same_title (string s) (string t) = s == t
same_title undefined undefined = true
same_title null null = true
same_title _ _ = false

-- The index of the first schema of a title: `find`, which reads each title up to it.
unfoldable pub find_title : Json → Items → Result ℕ
unfolding read
find_title title empty = err type_error
find_title title (item schema rest) = do
  own ← read "title" schema
  if same_title own title then ok 0 else do later ← find_title title rest; ok (suc later)

unfoldable pub nth : ℕ → Items → Json
nth n empty = undefined
nth zero (item v vs) = v
nth (suc n) (item v vs) = nth n vs

unfoldable pub set_nth : ℕ → Json → Items → Items
set_nth n w empty = empty
set_nth zero w (item v vs) = item w vs
set_nth (suc n) w (item v vs) = item v (set_nth n w vs)

-- `schemas[i].properties[key]` with `change` made to it.
unfoldable pub change_property : ℕ → String → (Json → Result Json) → Items → Result Items
unfolding read assign nth set_nth
change_property i key change schemas = do
  let schema = nth i schemas
  properties ← read "properties" schema
  property ← read key properties
  changed ← change property
  properties' ← assign key changed properties
  schema' ← assign "properties" properties' schema
  ok (set_nth i schema' schemas)

-- The round for the key of a property of schema `i`: `types` is written in the first schema of
-- that title, and `valueTypes` is deleted in schema `i`.
unfoldable pub upgrade_property : ℕ → String → Items → Result Items
unfolding read assign remove find_title change_property copy_types
upgrade_property i key schemas = do
  let schema = nth i schemas
  properties ← read "properties" schema
  property ← read key properties
  title ← read "title" schema
  j ← find_title title schemas
  old ← read "valueTypes" property
  filled ← change_property j key (assign "types" (object (copy_types end (members_of old)))) schemas
  change_property i key (remove "valueTypes") filled

unfoldable pub upgrade_keys : ℕ → Members → Items → Result Items
unfolding upgrade_property
upgrade_keys i end schemas = ok schemas
upgrade_keys i (member key v rest) schemas = do
  next ← upgrade_property i key schemas
  upgrade_keys i rest next

-- The loop over the schemas: those that are left, the index of the first of them, and all.
unfoldable pub upgrade_schemas : Items → ℕ → Items → Result Items
unfolding upgrade_keys read nth
upgrade_schemas empty i schemas = ok schemas
upgrade_schemas (item schema rest) i schemas = do
  properties ← read "properties" (nth i schemas)
  next ← upgrade_keys i (members_of properties) schemas
  upgrade_schemas rest (suc i) next

-- The loops, and what they leave in the package file.
unfoldable pub set_types : Json → Json → Result Json
unfolding assign for_of upgrade_schemas
set_types (array items) file = do
  items' ← upgrade_schemas items 0 items
  assign "schemas" (array items') file
-- The characters of a text have no properties.
set_types other file = do seen ← for_of (λ v. ok v) other; ok file

unfoldable pub upgrade_081 : Json → Result Json
unfolding read assign set_types
upgrade_081 file = do
  marked ← assign "$schema" (string schema_url_090) file
  schemas ← read "schemas" marked
  set_types schemas marked
