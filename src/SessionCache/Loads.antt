-- ===== src/SessionCache/Loads.antt =====
-- backend/src/session-cache.ts: the operations by the kind of what is loaded.
use datapm.Common.{String, Bool, false, Option, some}
use datapm.PackageFile.Json.{Number}
use datapm.SessionCache.Keys.{
  PackageIdentifier, VersionIdentifier, data_key_for_user_id, data_key_for_package_id,
  data_key_for_activity_log_id, data_key_for_latest_package_version_id,
  data_key_for_package_version_id, data_key_for_package_permissions,
  data_key_for_catalog_permissions, data_key_for_catalog_package_permissions,
  data_key_for_catalog_id, data_key_for_collection_id, data_key_for_collection,
  data_key_for_group_id, data_key_for_group_permissions_id, data_key_for_user_by_username,
  data_key_for_catalog_slug, data_key_for_collection_slug, data_key_for_group_slug,
  data_key_for_package_identifier, data_key_for_version_identifier, data_key_for_package_permission,
  data_key_for_collection_permission,
}
use datapm.SessionCache.Store.{Promise, Fetch, Session, store_to_cache, load_data_async}

-- What is kept of an entity: its identifier, its slug and the rest.
pub record Entity (A : Type 0) : Type 0 where
  pub id : Number
  pub slug : String
  pub rest : A

module _ {A W : Type 0} where
  unfoldable pub store_package_to_cache : Entity A → Session (Entity A) W → Session (Entity A) W
  unfolding store_to_cache
  store_package_to_cache entity s = store_to_cache (data_key_for_package_id entity.id) entity s

  unfoldable pub store_catalog_to_cache : Entity A → Session (Entity A) W → Session (Entity A) W
  unfolding store_to_cache
  store_catalog_to_cache entity s = store_to_cache (data_key_for_catalog_slug entity.slug) entity s

  unfoldable pub load_user :
      Number → Fetch A W → Bool → Session A W → Option (Promise A) × Session A W
  unfolding load_data_async
  load_user id fetch force s = load_data_async (some (data_key_for_user_id id)) fetch force s

  unfoldable pub load_user_by_username :
      String → Fetch A W → Bool → Session A W → Option (Promise A) × Session A W
  unfolding load_data_async
  load_user_by_username username fetch force s =
      load_data_async (some (data_key_for_user_by_username username)) fetch force s

  unfoldable pub load_package :
      Number → Fetch A W → Bool → Session A W → Option (Promise A) × Session A W
  unfolding load_data_async
  load_package id fetch force s = load_data_async (some (data_key_for_package_id id)) fetch force s

  unfoldable pub load_package_by_identifier :
      PackageIdentifier → Fetch A W → Session A W → Option (Promise A) × Session A W
  unfolding load_data_async
  load_package_by_identifier identifier fetch s =
      load_data_async (some (data_key_for_package_identifier identifier)) fetch false s

  unfoldable pub load_latest_package_version :
      Number → Fetch A W → Bool → Session A W → Option (Promise A) × Session A W
  unfolding load_data_async
  load_latest_package_version id fetch force s =
      load_data_async (some (data_key_for_latest_package_version_id id)) fetch force s

  unfoldable pub load_package_version :
      VersionIdentifier → Fetch A W → Bool → Session A W → Option (Promise A) × Session A W
  unfolding load_data_async
  load_package_version identifier fetch force s =
      load_data_async (some (data_key_for_version_identifier identifier)) fetch force s

  unfoldable pub load_package_versions :
      Number → Fetch A W → Bool → Session A W → Option (Promise A) × Session A W
  unfolding load_data_async
  load_package_versions id fetch force s =
      load_data_async (some (data_key_for_package_version_id id)) fetch force s

  unfoldable pub load_catalog : Number → Fetch A W → Session A W → Option (Promise A) × Session A W
  unfolding load_data_async
  load_catalog id fetch s = load_data_async (some (data_key_for_catalog_id id)) fetch false s

  unfoldable pub load_catalog_by_slug :
      String → Fetch A W → Bool → Session A W → Option (Promise A) × Session A W
  unfolding load_data_async
  load_catalog_by_slug slug fetch force s =
      load_data_async (some (data_key_for_catalog_slug slug)) fetch force s

  unfoldable pub load_collection :
      Number → Fetch A W → Session A W → Option (Promise A) × Session A W
  unfolding load_data_async
  load_collection id fetch s = load_data_async (some (data_key_for_collection_id id)) fetch false s

  unfoldable pub load_collection_by_slug :
      String → Fetch A W → Session A W → Option (Promise A) × Session A W
  unfolding load_data_async
  load_collection_by_slug slug fetch s =
      load_data_async (some (data_key_for_collection_slug slug)) fetch false s

  unfoldable pub load_package_permissions_by_id :
      Number → Fetch A W → Session A W → Option (Promise A) × Session A W
  unfolding load_data_async
  load_package_permissions_by_id id fetch s =
      load_data_async (some (data_key_for_package_permissions id)) fetch false s

  unfoldable pub load_package_permissions_status_by_id :
      Number → String → Fetch A W → Session A W → Option (Promise A) × Session A W
  unfolding load_data_async
  load_package_permissions_status_by_id id permission fetch s =
      load_data_async (some (data_key_for_package_permission id permission)) fetch false s

  unfoldable pub load_catalog_package_permissions_by_id :
      Number → Fetch A W → Session A W → Option (Promise A) × Session A W
  unfolding load_data_async
  load_catalog_package_permissions_by_id id fetch s =
      load_data_async (some (data_key_for_catalog_package_permissions id)) fetch false s

  unfoldable pub load_catalog_permissions_by_id :
      Number → Fetch A W → Session A W → Option (Promise A) × Session A W
  unfolding load_data_async
  load_catalog_permissions_by_id id fetch s =
      load_data_async (some (data_key_for_catalog_permissions id)) fetch false s

  unfoldable pub load_collection_permissions_by_id :
      Number → Fetch A W → Session A W → Option (Promise A) × Session A W
  unfolding load_data_async
  load_collection_permissions_by_id id fetch s =
      load_data_async (some (data_key_for_collection id)) fetch false s

  unfoldable pub load_collection_permissions_status_by_id :
      Number → String → Fetch A W → Session A W → Option (Promise A) × Session A W
  unfolding load_data_async
  load_collection_permissions_status_by_id id permission fetch s =
      load_data_async (some (data_key_for_collection_permission id permission)) fetch false s

  unfoldable pub load_activity_log :
      Number → Fetch A W → Bool → Session A W → Option (Promise A) × Session A W
  unfolding load_data_async
  load_activity_log id fetch force s =
      load_data_async (some (data_key_for_activity_log_id id)) fetch force s

  unfoldable pub load_group :
      Number → Fetch A W → Bool → Session A W → Option (Promise A) × Session A W
  unfolding load_data_async
  load_group id fetch force s = load_data_async (some (data_key_for_group_id id)) fetch force s

  unfoldable pub load_group_by_slug :
      String → Fetch A W → Bool → Session A W → Option (Promise A) × Session A W
  unfolding load_data_async
  load_group_by_slug slug fetch force s =
      load_data_async (some (data_key_for_group_slug slug)) fetch force s

  unfoldable pub load_group_permissions_by_id :
      Number → Fetch A W → Bool → Session A W → Option (Promise A) × Session A W
  unfolding load_data_async
  load_group_permissions_by_id id fetch force s =
      load_data_async (some (data_key_for_group_permissions_id id)) fetch force s
