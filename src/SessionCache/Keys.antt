-- ===== src/SessionCache/Keys.antt =====
-- backend/src/session-cache.ts: the keys under which the promises are kept. An identifier's number is
-- given by the text that `"" + id` makes of it.
use datapm.Common.{String, ◌&◌}
use datapm.PackageFile.Json.{Number}

pub record PackageIdentifier : Type 0 where
  pub catalog_slug : String
  pub package_slug : String

pub record VersionIdentifier : Type 0 where
  pub catalog_slug : String
  pub package_slug : String
  pub version_major : Number
  pub version_minor : Number
  pub version_patch : Number

abbrev pub data_key_for_user_id : Number → String
data_key_for_user_id id = "USER_ID-" & id.text

abbrev pub data_key_for_package_id : Number → String
data_key_for_package_id id = "PACKAGE_ID-" & id.text

abbrev pub data_key_for_activity_log_id : Number → String
data_key_for_activity_log_id id = "ACTIVITY_LOG_ID-" & id.text

abbrev pub data_key_for_latest_package_version_id : Number → String
data_key_for_latest_package_version_id id = "PACKAGE_LATEST_VERSION_ID-" & id.text

abbrev pub data_key_for_package_version_id : Number → String
data_key_for_package_version_id id = "PACKAGE_VERSION_ID-" & id.text

abbrev pub data_key_for_package_permissions : Number → String
data_key_for_package_permissions id = "PACKAGE_PERMISSIONS_ID-" & id.text

abbrev pub data_key_for_catalog_permissions : Number → String
data_key_for_catalog_permissions id = "CATALOG_PERMISSIONS_ID-" & id.text

abbrev pub data_key_for_catalog_package_permissions : Number → String
data_key_for_catalog_package_permissions id = "CATALOG_PACKAGE_PERMISSIONS_ID-" & id.text

abbrev pub data_key_for_catalog_id : Number → String
data_key_for_catalog_id id = "CATALOG_ID-" & id.text

abbrev pub data_key_for_collection_id : Number → String
data_key_for_collection_id id = "COLLECTION_ID-" & id.text

abbrev pub data_key_for_collection : Number → String
data_key_for_collection id = "COLLECTION_PERMISSION_ID-" & id.text

abbrev pub data_key_for_group_id : Number → String
data_key_for_group_id id = "GROUP_ID-" & id.text

abbrev pub data_key_for_group_permissions_id : Number → String
data_key_for_group_permissions_id id = "GROUP_PERMISSIONS_ID-" & id.text

abbrev pub data_key_for_user_by_username : String → String
data_key_for_user_by_username username = "USER_USERNAME-" & username

abbrev pub data_key_for_catalog_slug : String → String
data_key_for_catalog_slug slug = "CATALOG_SLUG-" & slug

abbrev pub data_key_for_collection_slug : String → String
data_key_for_collection_slug slug = "COLLECTION_SLUG-" & slug

abbrev pub data_key_for_group_slug : String → String
data_key_for_group_slug slug = "GROUP_SLUG-" & slug

abbrev pub data_key_for_package_identifier : PackageIdentifier → String
data_key_for_package_identifier i = "PACKAGE_ID-" & i.catalog_slug & "/" & i.package_slug

abbrev pub data_key_for_version_identifier : VersionIdentifier → String
data_key_for_version_identifier i =
    "VERSION_ID-" & i.catalog_slug & "/" & i.package_slug & "/" & i.version_major.text & "."
    & i.version_minor.text & "." & i.version_patch.text

abbrev pub data_key_for_package_permission : Number → String → String
data_key_for_package_permission id permission =
    "PACKAGE_PERMISSION_ID-" & id.text & "_" & permission

abbrev pub data_key_for_collection_permission : Number → String → String
data_key_for_collection_permission id permission =
    "COLLECTION_PERMISSION_ID-" & id.text & "_" & permission
