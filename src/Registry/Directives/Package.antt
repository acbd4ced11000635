-- ===== src/Registry/Directives/Package.antt =====
-- backend/src/directive/hasPackagePermissionDirective.ts: a resolver that runs only with a permission
-- on the package.
use datapm.Common.{
  Bool, ◌&&◌, ◌||◌, Option, none, some, List, [], ◌++◌, ◌≡◌, refl, sym, ◌∙◌, ok, Result,
}
use datapm.PackageFile.Json.{Number}
use datapm.SessionCache.Keys.{PackageIdentifier}
use datapm.SessionCache.Store.{resolved}
use datapm.SessionCache.Loads.{load_package_permissions_by_id}
use datapm.Registry.Records.{Permission, view, same_permission, includes, PackageEntity}
use datapm.Registry.Permissions.{
  PermissionSession, resolve_package_permissions_for_entity, fetch_package,
  get_catalog_package_permissions_from_cache_or_db, first_ones, public_permissions,
}
use datapm.Registry.Granted.{
  resolve_package_permissions_for_entity-loaded, includes_resolved, includes_public, or_false,
}
use datapm.Registry.Calls.{
  Context, Sessions, Call, return, throw, ◌>>=◌, get_package_from_cache_or_db_or_fail,
}
use datapm.Registry.Directives.Slugs.{or_refuse, run_if, or_refuse-then}

-- A call that uses the session of permissions only.
abbrev pub on_permissions :
    {A : Type 0} → (PermissionSession → Result A × PermissionSession) → Call A
on_permissions call s =
    let (result, next) = call s.permissions in (result, record s { permissions = next })

unfoldable pub resolve_package_permissions :
    PackageIdentifier → Option Number → Call (List Permission)
unfolding get_package_from_cache_or_db_or_fail resolve_package_permissions_for_entity
resolve_package_permissions identifier user = do
  entity ← get_package_from_cache_or_db_or_fail identifier
  on_permissions (resolve_package_permissions_for_entity entity user)

unfoldable pub has_package_permission : Permission → Context → PackageIdentifier → Call Bool
unfolding resolve_package_permissions includes
has_package_permission permission context identifier = do
  permissions ← resolve_package_permissions identifier context.me
  return (includes permission permissions)

unfoldable pub has_package_permission_or_fail : Permission → Context → PackageIdentifier → Call Bool
unfolding has_package_permission
has_package_permission_or_fail permission context identifier = do
  has_permission ← has_package_permission permission context identifier
  or_refuse context has_permission

-- The arguments of a field in which the identifier of a package may stand.
pub record PackageArgs : Type 0 where
  pub identifier : Option PackageIdentifier
  pub package_identifier : Option PackageIdentifier

-- `args.identifier || args.packageIdentifier || undefined`
abbrev pub chosen_identifier : PackageArgs → Option PackageIdentifier
chosen_identifier args = elim args.identifier [
  | none ↦ args.package_identifier
  | some identifier ↦ some identifier
]

module _ {A : Type 0} where
  unfoldable pub visit_package_argument : Permission → Context → PackageIdentifier → Call A → Call A
  unfolding has_package_permission_or_fail
  visit_package_argument permission context identifier resolve = do
    _ ← has_package_permission_or_fail permission context identifier
    resolve

  unfoldable pub visit_package_field : Permission → Context → PackageArgs → Call A → Call A
  unfolding has_package_permission_or_fail
  visit_package_field permission context args resolve = elim (chosen_identifier args) [
    | none ↦ throw "INTERNAL_ERROR"
    | some identifier ↦ do _ ← has_package_permission_or_fail permission context identifier; resolve
  ]

-- The permissions that a user has, or nobody, and the session after the loads: those in the catalog
-- of the package and those on the package.
abbrev pub PackageLoads :
    PackageEntity
    → Option Number
    → PermissionSession
    → List Permission
    → List Permission
    → PermissionSession
    → Type 0
PackageLoads entity none s catalog own s₂ = (catalog ≡ []) × (own ≡ []) × (s₂ ≡ s)
PackageLoads entity (some user_id) s catalog own s₂ =
    (s₁ : PermissionSession) × (load_package_permissions_by_id entity.id
        (fetch_package entity.id user_id) s
      ≡ (some (resolved own), s₁))
    × (get_catalog_package_permissions_from_cache_or_db entity.catalog_id user_id s₁
        ≡ (ok catalog, s₂))

module _ (p : Permission) (context : Context) where
  resolved_ones :
      (entity : PackageEntity) (me : Option Number) (s s₂ : PermissionSession)
      (catalog own : List Permission)
      → PackageLoads entity me s catalog own s₂
      → (ps : List Permission) × (resolve_package_permissions_for_entity entity me s ≡ (ok ps, s₂))
        × (includes p ps ≡ (
            ((entity.is_public && same_permission view p) || includes p catalog) || includes p own))
  unfolding resolve_package_permissions_for_entity includes
  resolved_ones entity none s s₂ catalog own (e, f, h) = (
    public_permissions entity.is_public,
    rw h refl,
    includes_public p entity.is_public ∙ rw (e, f) (sym (or_false _ ∙ or_false _)),
  )
  resolved_ones entity (some user_id) s s₂ catalog own (s₁, h, k) = (
    first_ones [] ((public_permissions entity.is_public ++ catalog) ++ own),
    resolve_package_permissions_for_entity-loaded entity user_id s s₁ s₂ own catalog h k,
    includes_resolved p entity.is_public catalog own,
  )

  module _ {A : Type 0} (resolve : Call A) (s s₁ : Sessions) where
    guarded :
        (ps : List Permission) (s₂ : PermissionSession) (b : Bool) (identifier : PackageIdentifier)
        (entity : PackageEntity)
        → get_package_from_cache_or_db_or_fail identifier s ≡ (ok entity, s₁)
        → resolve_package_permissions_for_entity entity context.me s₁.permissions ≡ (ok ps, s₂)
        → includes p ps ≡ b
        → visit_package_argument p context identifier resolve s
          ≡ run_if b context resolve (record s₁ { permissions = s₂ })
    unfolding visit_package_argument has_package_permission_or_fail has_package_permission
        resolve_package_permissions
    guarded ps s₂ b identifier entity h k e =
        rw (h, k, e) (or_refuse-then context resolve (record s₁ { permissions = s₂ }) b)

    field-argument :
        (args : PackageArgs) (identifier : PackageIdentifier)
        → chosen_identifier args ≡ some identifier
        → visit_package_field p context args resolve s
          ≡ visit_package_argument p context identifier resolve s
    unfolding visit_package_field visit_package_argument
    field-argument args identifier h = rw (h, visit_package_field) refl

    -- Where the package is found and the permissions are loaded, a field that names it by either
    -- argument runs its resolver exactly when the package is public and the permission is VIEW, or
    -- the user has the permission in the catalog or on the package; otherwise the request is refused
    -- with NOT_AUTHORIZED, or with NOT_AUTHENTICATED if there is no user.
    pub visit_package_field-granted :
        (args : PackageArgs) (identifier : PackageIdentifier) (entity : PackageEntity)
        (catalog own : List Permission) (s₂ : PermissionSession)
        → chosen_identifier args ≡ some identifier
        → get_package_from_cache_or_db_or_fail identifier s ≡ (ok entity, s₁)
        → PackageLoads entity context.me s₁.permissions catalog own s₂
        → visit_package_field p context args resolve s
          ≡ run_if
              (((entity.is_public && same_permission view p) || includes p catalog)
                || includes p own)
              context
              resolve
              (record s₁ { permissions = s₂ })
    visit_package_field-granted args identifier entity catalog own s₂ h k loads =
        let (ps, resolves, e) =
          resolved_ones entity context.me s₁.permissions s₂ catalog own loads in
        field-argument args identifier h ∙ guarded ps s₂ _ identifier entity k resolves e
