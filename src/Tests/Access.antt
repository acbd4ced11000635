-- ===== src/Tests/Access.antt =====
-- The check of a permission at a concrete input.
use datapm.Common.{
  String, Bool, true, false, ◌==◌, Option, none, some, List, [], ◌∷◌, ◌≡◌, refl, ok, err, thrown,
  if◌then◌else◌,
}
use datapm.PackageFile.Json.{Number}
use datapm.SessionCache.Store.{resolved, rejected, Session, Cache, clean, entry}
use datapm.SessionCache.Loads.{load_package_permissions_by_id}
use datapm.Registry.Records.{
  Permission, view, edit, manage, includes, Records, PackageEntity, CatalogEntity, CollectionEntity,
}
use datapm.Registry.Permissions.{
  PermissionSession, user_package_permissions, user_catalog_permissions,
  get_catalog_package_permissions_from_cache_or_db,
}
use datapm.Registry.Calls.{
  Context, Sessions, Call, return, get_package_from_cache_or_db_or_fail,
  get_catalog_from_cache_or_db_or_fail, get_collection_from_cache_or_db_or_fail,
  get_group_from_cache_or_db_by_slug_or_fail, get_catalog_permissions_from_cache_or_db,
  get_group_permissions_from_cache_or_db,
}
use datapm.Registry.Directives.Slugs.{Args, chosen_slug}
use datapm.Registry.Directives.Package.{visit_package_field, visit_package_field-granted}
use datapm.Registry.Directives.Catalog.{visit_catalog_field, visit_catalog_field-granted}
use datapm.Registry.Directives.Collection.{visit_collection_field, visit_collection_field-granted}
use datapm.Registry.Directives.Group.{visit_group_argument, visit_group_argument-granted}

abbrev id_of : String → Number
id_of s = record { text = s }

abbrev package_7 : PackageEntity
package_7 = record { id = id_of "7"; catalog_id = id_of "9"; is_public = false }

abbrev catalog_9 : CatalogEntity
catalog_9 = record { id = id_of "9"; is_public = false; unclaimed = false }

abbrev collection_4 : CollectionEntity
collection_4 = record { id = id_of "4"; is_public = true }

-- User 3, who owns catalog 9, may edit package 7.
abbrev records : Records
records = record {
  package_permissions = λ p u. if_is (u.text == "3") (edit ∷ view ∷ []);
  group_package_permissions = λ p u. some ((view ∷ []) ∷ []);
  catalog_package_permissions = λ c u. none;
  group_catalog_package_permissions = λ c u. none;
  catalog_slug = λ c. "ann";
  username = λ u. "ann";
  catalog_permissions = λ c u. some (view ∷ []);
  group_catalog_permissions = λ c u. none;
  collection_permissions = λ c u. none;
  group_collection_permissions = λ c u. some ((edit ∷ []) ∷ (edit ∷ view ∷ []) ∷ []);
  group_user_permissions = λ g u. if_is (u.text == "3") (edit ∷ view ∷ []);
  find_package = λ i. resolved package_7;
  find_catalog = λ slug. if slug == "ann" then resolved catalog_9 else rejected "CATALOG_NOT_FOUND";
  find_collection = λ slug. resolved collection_4;
  find_group = λ slug. some (record { id = id_of "2" });
}
  where
    if_is : Bool → List Permission → Option (List Permission)
    if_is true ps = some ps
    if_is false ps = none

abbrev fresh : {A : Type 0} → Session A Records
fresh = record { cache = clean; world = records }

abbrev permissions_of : Cache (List Permission) → PermissionSession
permissions_of cache = record { cache = cache; world = records }

abbrev start : Sessions
start = record {
  packages = fresh;
  catalogs = fresh;
  collections = fresh;
  groups = fresh;
  permissions = fresh;
}

abbrev user_3 : Context
user_3 = record { me = some (id_of "3"); is_admin = false }

abbrev nobody : Context
nobody = record { me = none; is_admin = false }

abbrev five : Call String
five = return "5"

abbrev with_package : Sessions
with_package = record start {
  packages = record {
    cache = entry "PACKAGE_ID-ann/data" (resolved package_7) clean;
    world = records;
  };
}

abbrev loaded_both : PermissionSession
loaded_both = permissions_of (
    entry "PACKAGE_PERMISSIONS_ID-7" (resolved (edit ∷ view ∷ []))
      (entry "CATALOG_PACKAGE_PERMISSIONS_ID-9" (resolved (view ∷ edit ∷ manage ∷ [])) clean))

-- The owner of the catalog may manage its package.
visit_package_field-granted_example :
    visit_package_field manage user_3
      (record {
        identifier = none;
        package_identifier = some (record { catalog_slug = "ann"; package_slug = "data" });
      })
      five
      start
    ≡ (ok "5", record with_package { permissions = loaded_both })
unfolding includes get_package_from_cache_or_db_or_fail load_package_permissions_by_id
    user_package_permissions get_catalog_package_permissions_from_cache_or_db
    user_catalog_permissions
visit_package_field-granted_example =
    visit_package_field-granted manage user_3 five start with_package
      (record {
        identifier = none;
        package_identifier = some (record { catalog_slug = "ann"; package_slug = "data" });
      })
      (record { catalog_slug = "ann"; package_slug = "data" }) package_7 (view ∷ edit ∷ manage ∷ [])
      (edit ∷ view ∷ []) loaded_both refl refl
      (
        permissions_of (entry "PACKAGE_PERMISSIONS_ID-7" (resolved (edit ∷ view ∷ [])) clean),
        refl,
        refl,
      )

abbrev named : String → Args
named slug = record {
  slug = some "";
  value = none;
  identifier = some (some slug);
  own_identifier = none;
}

abbrev with_catalog : Sessions
with_catalog = record start {
  catalogs = record {
    cache = entry "CATALOG_SLUG-ann" (resolved catalog_9) clean;
    world = records;
  };
}

-- The catalog is named after the user.
visit_catalog_field-granted_example : visit_catalog_field manage user_3 (named "ann") five start ≡ (
  ok "5",
  record with_catalog {
    permissions =
        permissions_of
          (entry "CATALOG_PERMISSIONS_ID-9" (resolved (view ∷ view ∷ edit ∷ manage ∷ [])) clean);
  },
)
unfolding includes chosen_slug get_catalog_from_cache_or_db_or_fail
    get_catalog_permissions_from_cache_or_db
visit_catalog_field-granted_example =
    visit_catalog_field-granted manage user_3 five start with_catalog
      (record with_catalog {
        permissions =
            permissions_of (
              entry "CATALOG_PERMISSIONS_ID-9" (resolved (view ∷ view ∷ edit ∷ manage ∷ [])) clean);
      })
      (named "ann") "ann" catalog_9 (view ∷ view ∷ edit ∷ manage ∷ []) refl refl refl

abbrev with_collection : Sessions
with_collection = record start {
  collections = record {
    cache = entry "COLLECTION_SLUG-plots" (resolved collection_4) clean;
    world = records;
  };
}

-- Nobody may edit a public collection.
visit_collection_field-granted_example :
    visit_collection_field edit nobody (named "plots") five start
    ≡ (err (thrown "NOT_AUTHENTICATED"), with_collection)
unfolding includes chosen_slug get_collection_from_cache_or_db_or_fail
visit_collection_field-granted_example =
    visit_collection_field-granted edit nobody five start with_collection with_collection
      (named "plots") "plots" collection_4 [] refl refl (refl, refl)

abbrev with_group : Sessions
with_group = record start {
  groups = record {
    cache = entry "GROUP_SLUG-team" (resolved (record { id = id_of "2" })) clean;
    world = records;
  };
}

-- A member that may edit may not manage.
visit_group_argument-granted_example : visit_group_argument manage user_3 "team" five start ≡ (
  err (thrown "NOT_AUTHORIZED"),
  record with_group {
    permissions =
        permissions_of (entry "GROUP_PERMISSIONS_ID-2" (resolved (edit ∷ view ∷ [])) clean);
  },
)
unfolding includes get_group_from_cache_or_db_by_slug_or_fail get_group_permissions_from_cache_or_db
visit_group_argument-granted_example =
    visit_group_argument-granted manage user_3 five start with_group
      (record with_group {
        permissions =
            permissions_of (entry "GROUP_PERMISSIONS_ID-2" (resolved (edit ∷ view ∷ [])) clean);
      })
      "team" (record { id = id_of "2" }) (edit ∷ view ∷ []) refl refl
