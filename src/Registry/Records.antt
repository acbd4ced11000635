-- ===== src/Registry/Records.antt =====
-- backend/src/directive and backend/src/entity: permissions, the members of the entities that decide
-- on them, and what the database answers, as a record of functions.
use datapm.Common.{
  ℕ, String, Bool, false, ◌||◌, Option, none, some, List, [], ◌∷◌, ◌++◌, if◌then◌else◌, nat_eq,
}
use datapm.PackageFile.Json.{Number}
use datapm.SessionCache.Keys.{PackageIdentifier}
use datapm.SessionCache.Store.{Promise}

-- `Permission` of lib/schema.gql.
pub data Permission : Type 0 where
  manage view edit no_permission : Permission

abbrev pub number_of : Permission → ℕ
number_of manage = 0
number_of view = 1
number_of edit = 2
number_of no_permission = 3

abbrev pub same_permission : Permission → Permission → Bool
same_permission p q = nat_eq (number_of p) (number_of q)

-- `permissions.includes(p)`
unfoldable pub includes : Permission → List Permission → Bool
includes p [] = false
includes p (q ∷ qs) = same_permission q p || includes p qs

pub record PackageEntity : Type 0 where
  pub id : Number
  pub catalog_id : Number
  pub is_public : Bool

pub record CatalogEntity : Type 0 where
  pub id : Number
  pub is_public : Bool
  pub unclaimed : Bool

pub record CollectionEntity : Type 0 where
  pub id : Number
  pub is_public : Bool

pub record GroupEntity : Type 0 where
  pub id : Number

-- What the database answers: permissions by the identifiers of a package, catalog, collection or
-- group and of a user, and entities by their slugs.
pub record Records : Type 0 where
  pub package_permissions : Number → Number → Option (List Permission)
  pub group_package_permissions : Number → Number → Option (List (List Permission))
  pub catalog_package_permissions : Number → Number → Option (List Permission)
  pub group_catalog_package_permissions : Number → Number → Option (List (List Permission))
  pub catalog_slug : Number → String
  pub username : Number → String
  pub catalog_permissions : Number → Number → Option (List Permission)
  pub group_catalog_permissions : Number → Number → Option (List (List Permission))
  pub collection_permissions : Number → Number → Option (List Permission)
  pub group_collection_permissions : Number → Number → Option (List (List Permission))
  pub group_user_permissions : Number → Number → Option (List Permission)
  pub find_package : PackageIdentifier → Promise PackageEntity
  pub find_catalog : String → Promise CatalogEntity
  pub find_collection : String → Promise CollectionEntity
  pub find_group : String → Option GroupEntity

-- `if (!permissions.includes(p)) permissions.push(p)`
abbrev pub push_new : List Permission → Permission → List Permission
push_new permissions p = if includes p permissions then permissions else permissions ++ (p ∷ [])

unfoldable pub push_all : List Permission → List Permission → List Permission
unfolding includes
push_all permissions [] = permissions
push_all permissions (p ∷ ps) = push_all (push_new permissions p) ps

unfoldable pub push_groups : List Permission → List (List Permission) → List Permission
unfolding push_all
push_groups permissions [] = permissions
push_groups permissions (ps ∷ groups) = push_groups (push_all permissions ps) groups

abbrev pub push_row : List Permission → Option (List Permission) → List Permission
push_row permissions none = permissions
push_row permissions (some ps) = push_all permissions ps

abbrev pub push_group_rows : List Permission → Option (List (List Permission)) → List Permission
push_group_rows permissions none = permissions
push_group_rows permissions (some groups) = push_groups permissions groups
