-- ===== src/Registry/Permissions.antt =====
-- backend/src/directive/hasPackagePermissionDirective.ts, and
-- backend/src/resolvers/UserCatalogPermissionResolver.ts: the permissions of a user on a package. What
-- the database answers is a record of functions, and the session cache is that of SessionCache.
use datapm.Common.{
  Bool, Option, none, some, List, [], ◌∷◌, ◌++◌, Result, ok, err, thrown, ◌>>=◌, if◌then◌else◌,
  ◌==◌,
}
use datapm.PackageFile.Json.{Number}
use datapm.SessionCache.Store.{Promise, resolved, rejected, Fetch, Session}
use datapm.Registry.Records.{
  Permission, view, edit, manage, includes, Records, PackageEntity, push_all, push_groups, push_row,
  push_group_rows,
}
use datapm.SessionCache.Loads.{
  load_package_permissions_by_id, load_catalog_package_permissions_by_id,
}

-- `userPermissionPromiseFunction`
unfoldable pub user_package_permissions : Records → Number → Number → List Permission
unfolding push_all push_groups
user_package_permissions records package_id user_id =
    push_group_rows (push_row [] (records.package_permissions package_id user_id))
      (records.group_package_permissions package_id user_id)

-- `catalogPermissionsPromiseFunction` of `getCatalogPackagePermissionsFromCacheOrDb`
unfoldable pub user_catalog_permissions : Records → Number → Number → List Permission
unfolding push_all push_groups
user_catalog_permissions records catalog_id user_id =
    let permissions =
      push_group_rows (push_row [] (records.catalog_package_permissions catalog_id user_id))
        (records.group_catalog_package_permissions catalog_id user_id) in
    if records.catalog_slug catalog_id == records.username user_id
    then permissions ++ (view ∷ edit ∷ manage ∷ [])
    else permissions

-- `await promise || []`
abbrev pub awaited : Option (Promise (List Permission)) → Result (List Permission)
awaited none = ok []
awaited (some (resolved ps)) = ok ps
awaited (some (rejected message)) = err (thrown message)

-- `a.filter((v, i, a) => a.indexOf(v) === i)`, behind the elements that came before.
unfoldable pub first_ones : List Permission → List Permission → List Permission
unfolding includes
first_ones before [] = []
first_ones before (p ∷ ps) =
    let rest = first_ones (before ++ (p ∷ [])) ps in if includes p before then rest else p ∷ rest

abbrev pub PermissionSession : Type 0
PermissionSession = Session (List Permission) Records

abbrev pub public_permissions : Bool → List Permission
public_permissions is_public = if is_public then view ∷ [] else []

abbrev pub fetch_package : Number → Number → Fetch (List Permission) Records
fetch_package package_id user_id records =
    (resolved (user_package_permissions records package_id user_id), records)

abbrev pub fetch_catalog : Number → Number → Fetch (List Permission) Records
fetch_catalog catalog_id user_id records =
    (resolved (user_catalog_permissions records catalog_id user_id), records)

unfoldable pub get_catalog_package_permissions_from_cache_or_db :
    Number → Number → PermissionSession → Result (List Permission) × PermissionSession
unfolding load_catalog_package_permissions_by_id
get_catalog_package_permissions_from_cache_or_db catalog_id user_id s =
    let (promise, next) =
      load_catalog_package_permissions_by_id catalog_id (fetch_catalog catalog_id user_id) s in
    (awaited promise, next)

-- What follows the two loads.
unfoldable pub all_permissions :
    PackageEntity → Result (List Permission) → Result (List Permission) → Result (List Permission)
unfolding first_ones
all_permissions entity catalog own = do
  package_permissions ← own
  catalog_permissions ← catalog
  ok (
      first_ones []
        ((public_permissions entity.is_public ++ catalog_permissions) ++ package_permissions))

-- The second load is not made if the first is rejected.
abbrev pub then_catalog :
    PackageEntity
    → Number
    → Option (Promise (List Permission)) × PermissionSession
    → Result (List Permission) × PermissionSession
then_catalog entity user_id (some (rejected message), s) = (err (thrown message), s)
then_catalog entity user_id (promise, s) =
    let catalog = get_catalog_package_permissions_from_cache_or_db entity.catalog_id user_id s in
    (all_permissions entity catalog.0 (awaited promise), catalog.1)

unfoldable pub resolve_package_permissions_for_entity :
    PackageEntity → Option Number → PermissionSession → Result (List Permission) × PermissionSession
unfolding all_permissions load_package_permissions_by_id
    get_catalog_package_permissions_from_cache_or_db
resolve_package_permissions_for_entity entity none s = (ok (public_permissions entity.is_public), s)
resolve_package_permissions_for_entity entity (some user_id) s =
    then_catalog entity user_id
      (load_package_permissions_by_id entity.id (fetch_package entity.id user_id) s)

-- `hasPackagePermissionForEntity`, of the user that `isAuthenticatedContext` finds.
unfoldable pub has_package_permission_for_entity :
    Permission → PackageEntity → Option Number → PermissionSession → Result Bool × PermissionSession
unfolding includes resolve_package_permissions_for_entity
has_package_permission_for_entity permission entity user s =
    let resolved_ones = resolve_package_permissions_for_entity entity user s in
    (resolved_ones.0 >>= λ ps. ok (includes permission ps), resolved_ones.1)
