-- ===== src/Registry/Calls.antt =====
-- backend/src/resolvers: entities and permissions from the session cache or the database, in a monad of
-- state and exceptions. The cache is held here as one session for each kind of value.
use datapm.Common.{
  String, Bool, false, ◌&◌, ◌==◌, Option, none, some, List, [], ◌∷◌, ◌++◌, Result, ok, err, thrown,
  if◌then◌else◌,
}
use datapm.PackageFile.Json.{Number}
use datapm.SessionCache.Keys.{PackageIdentifier}
use datapm.SessionCache.Store.{Promise, resolved, rejected, Session}
use datapm.SessionCache.Loads.{
  load_package_by_identifier, load_catalog_by_slug, load_collection_by_slug, load_group_by_slug,
  load_catalog_permissions_by_id, load_collection_permissions_by_id, load_group_permissions_by_id,
}
use datapm.Registry.Records.{
  Permission, view, edit, manage, Records, PackageEntity, CatalogEntity, CollectionEntity,
  GroupEntity, push_all, push_groups, push_row, push_group_rows,
}
use datapm.Registry.Permissions.{awaited}

-- Who makes the request: `me` is absent unless the user is authenticated.
pub record Context : Type 0 where
  pub me : Option Number
  pub is_admin : Bool

pub record Sessions : Type 0 where
  pub packages : Session PackageEntity Records
  pub catalogs : Session CatalogEntity Records
  pub collections : Session CollectionEntity Records
  pub groups : Session GroupEntity Records
  pub permissions : Session (List Permission) Records

-- An asynchronous call: it returns or throws, and what it cached stays.
abbrev pub Call : Type 0 → Type 0
Call A = Sessions → Result A × Sessions

module _ {A : Type 0} where
  abbrev pub return : A → Call A
  return a s = (ok a, s)

  abbrev pub throw : String → Call A
  throw message s = (err (thrown message), s)

module _ {A B : Type 0} where
  abbrev pub continue : (A → Call B) → Result A × Sessions → Result B × Sessions
  continue rest (ok a, s) = rest a s
  continue rest (err e, s) = (err e, s)

  infixl 5 ◌>>=◌
  abbrev pub ◌>>=◌ : Call A → (A → Call B) → Call B
  (call >>= rest) s = continue rest (call s)

-- `if (response == null) throw new Error(message)`
abbrev pub awaited_entity : {A : Type 0} → String → Option (Promise A) → Result A
awaited_entity message none = err (thrown message)
awaited_entity message (some (resolved a)) = ok a
awaited_entity message (some (rejected reason)) = err (thrown reason)

unfoldable pub get_package_from_cache_or_db_or_fail : PackageIdentifier → Call PackageEntity
unfolding load_package_by_identifier
get_package_from_cache_or_db_or_fail identifier s =
    let (promise, next) =
      load_package_by_identifier identifier (λ records. (records.find_package identifier, records))
        s.packages in
    (awaited_entity "PACKAGE_NOT_FOUND" promise, record s { packages = next })

unfoldable pub get_catalog_from_cache_or_db_or_fail : String → Bool → Call CatalogEntity
unfolding load_catalog_by_slug
get_catalog_from_cache_or_db_or_fail slug force s =
    let (promise, next) =
      load_catalog_by_slug slug (λ records. (records.find_catalog slug, records)) force
        s.catalogs in
    (awaited_entity ("CATALOG_NOT_FOUND - " & slug) promise, record s { catalogs = next })

unfoldable pub get_collection_from_cache_or_db_or_fail : String → Call CollectionEntity
unfolding load_collection_by_slug
get_collection_from_cache_or_db_or_fail slug s =
    let (promise, next) =
      load_collection_by_slug slug (λ records. (records.find_collection slug, records))
        s.collections in
    (awaited_entity "COLLECTION_NOT_FOUND" promise, record s { collections = next })

-- `if (group === undefined) throw ...` in the promise function
abbrev pub group_promise : String → Option GroupEntity → Promise GroupEntity
group_promise slug none = rejected ("GROUP_NOT_FOUND - " & slug)
group_promise slug (some group) = resolved group

unfoldable pub get_group_from_cache_or_db_by_slug_or_fail : String → Bool → Call GroupEntity
unfolding load_group_by_slug
get_group_from_cache_or_db_by_slug_or_fail slug force s =
    let (promise, next) =
      load_group_by_slug slug (λ records. (group_promise slug (records.find_group slug), records))
        force s.groups in
    (awaited_entity ("GROUP_NOT_FOUND - " & slug) promise, record s { groups = next })

-- `catalogPermissionsPromiseFunction` of `getCatalogPermissionsFromCacheOrDb`
unfoldable pub own_catalog_permissions : Records → Number → Number → List Permission
unfolding push_all push_groups
own_catalog_permissions records catalog_id user_id =
    let permissions =
      push_group_rows (push_row [] (records.catalog_permissions catalog_id user_id))
        (records.group_catalog_permissions catalog_id user_id) in
    if records.catalog_slug catalog_id == records.username user_id
    then permissions ++ (view ∷ edit ∷ manage ∷ [])
    else permissions

unfoldable pub get_catalog_permissions_from_cache_or_db : Number → Number → Call (List Permission)
unfolding load_catalog_permissions_by_id own_catalog_permissions
get_catalog_permissions_from_cache_or_db catalog_id user_id s =
    let (promise, next) =
      load_catalog_permissions_by_id catalog_id
        (λ records. (resolved (own_catalog_permissions records catalog_id user_id), records))
        s.permissions in
    (awaited promise, record s { permissions = next })

-- `collectionPromiseFunction`
unfoldable pub own_collection_permissions : Records → Number → Number → List Permission
unfolding push_all push_groups
own_collection_permissions records collection_id user_id =
    push_group_rows (push_row [] (records.collection_permissions collection_id user_id))
      (records.group_collection_permissions collection_id user_id)

-- The user is that of the context, and need not be there.
unfoldable pub get_collection_permissions_from_cache_or_db :
    Context → CollectionEntity → Call (List Permission)
unfolding load_collection_permissions_by_id own_collection_permissions
get_collection_permissions_from_cache_or_db context collection s = elim context.me [
  | none ↦ (ok (if collection.is_public then view ∷ [] else []), s)
  | some user_id ↦
      let (promise, next) =
        load_collection_permissions_by_id collection.id
          (λ records.
            (resolved (own_collection_permissions records collection.id user_id), records))
          s.permissions in
      (awaited promise, record s { permissions = next })
]

-- `if (userPermissions == null) return []`
abbrev pub row_or_none : Option (List Permission) → List Permission
row_or_none none = []
row_or_none (some permissions) = permissions

unfoldable pub get_group_permissions_from_cache_or_db : Number → Number → Call (List Permission)
unfolding load_group_permissions_by_id
get_group_permissions_from_cache_or_db group_id user_id s =
    let (promise, next) =
      load_group_permissions_by_id group_id
        (λ records.
          (resolved (row_or_none (records.group_user_permissions group_id user_id)), records))
        false s.permissions in
    (awaited promise, record s { permissions = next })
