-- ===== src/Upgrade/Middle.antt =====
-- lib/src/PackageUtil.ts, `upgradePackageFile`: the steps from schema versions 0.4.0 to 0.8.0, and
-- the renaming of `filePattern` in 0.8.1.
use datapm.Common.{String, Bool, true, Result, ok, ◌>>=◌, if◌then◌else◌}
use datapm.PackageFile.Json.{Json, boolean, string, array, object, empty, end, is_null, falsy}
use datapm.Upgrade.Objects.{read, read_optional, assign, remove, for_of, modify}

abbrev pub schema_url_050 : String
schema_url_050 = "https://datapm.io/docs/package-file-schema-v0.5.0.json"

abbrev pub schema_url_060 : String
schema_url_060 = "https://datapm.io/docs/package-file-schema-v0.6.0.json"

abbrev pub schema_url_070 : String
schema_url_070 = "https://datapm.io/docs/package-file-schema-v0.7.0.json"

abbrev pub schema_url_080 : String
schema_url_080 = "https://datapm.io/docs/package-file-schema-v0.8.0.json"

abbrev pub schema_url_081 : String
schema_url_081 = "https://datapm.io/docs/package-file-schema-v0.8.1.json"

-- `configuration.uris = uris`, for one source.
unfoldable pub move_uris : Json → Result Json
unfolding read assign
move_uris source = do
  configuration ← read "configuration" source
  uris ← read "uris" source
  filled ← assign "uris" uris configuration
  assign "configuration" filled source

unfoldable pub upgrade_040 : Json → Result Json
unfolding modify for_of move_uris
upgrade_040 file = do
  marked ← assign "$schema" (string schema_url_050) file
  modify "sources" (for_of move_uris) marked

abbrev or_empty : Json → Json
or_empty v = if falsy v then object end else v

-- `connectionConfiguration = configuration || {}`: the two members are then one object.
unfoldable pub share_configuration : Json → Result Json
unfolding read assign
share_configuration source = do
  configuration ← read "configuration" source
  assign "connectionConfiguration" (or_empty configuration) source

unfoldable pub upgrade_050 : Json → Result Json
unfolding modify for_of share_configuration
upgrade_050 file = do
  marked ← assign "$schema" (string schema_url_060) file
  modify "sources" (for_of share_configuration) marked

unfoldable pub set_publish_method : Json → Result Json
unfolding assign
set_publish_method registry = assign "publishMethod" (string "SCHEMA_ONLY") registry

-- The loop over `registries || []`.
unfoldable pub set_publish_methods : Json → Result Json
unfolding for_of set_publish_method
set_publish_methods registries =
    if falsy registries then ok registries else for_of set_publish_method registries

unfoldable pub upgrade_060 : Json → Result Json
unfolding modify set_publish_methods
upgrade_060 file = do
  marked ← assign "$schema" (string schema_url_070) file
  modify "registries" set_publish_methods marked

unfoldable pub upgrade_070 : Json → Result Json
unfolding read assign
upgrade_070 file = do
  marked ← assign "$schema" (string schema_url_080) file
  canonical ← read "canonical" marked
  if is_null canonical then assign "canonical" (boolean true) marked else ok marked

unfoldable pub set_update_methods : Json → Result Json
unfolding read assign
set_update_methods stream_set = do
  methods ← read "updateMethods" stream_set
  if is_null methods then assign "updateMethods" (array empty) stream_set else ok stream_set

unfoldable pub upgrade_080 : Json → Result Json
unfolding modify for_of set_update_methods
upgrade_080 file = do
  marked ← assign "$schema" (string schema_url_081) file
  modify "sources" (for_of (modify "streamSets" (for_of set_update_methods))) marked

-- `configuration` with `filePattern` under its new name.
unfoldable pub rename_pattern : Json → Result Json
unfolding read_optional assign remove
rename_pattern configuration = do
  named ← assign "fileRegex" (read_optional "filePattern" configuration) configuration
  remove "filePattern" named

-- For one source. `shared` says that the step from 0.5.0 was made by the same call, so that
-- `connectionConfiguration` is the object that `configuration` is.
unfoldable pub rename_source_pattern : Bool → Json → Result Json
unfolding read assign rename_pattern
rename_source_pattern shared source = do
  configuration ← read "configuration" source
  if is_null (read_optional "filePattern" configuration) then ok source else do
    renamed ← rename_pattern configuration
    own ← assign "configuration" renamed source
    if shared then assign "connectionConfiguration" renamed own else ok own

unfoldable pub rename_patterns : Bool → Json → Result Json
unfolding modify for_of rename_source_pattern
rename_patterns shared file = modify "sources" (for_of (rename_source_pattern shared)) file
