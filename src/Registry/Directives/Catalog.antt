-- ===== src/Registry/Directives/Catalog.antt =====
-- backend/src/directive/hasCatalogPermissionDirective.ts: a resolver that runs only with a permission
-- on the catalog.
use datapm.Common.{
  String, Bool, true, false, ◌&&◌, ◌||◌, Option, none, some, List, [], ◌∷◌, ◌++◌, ◌≡◌, refl, sym,
  ap, ◌∙◌, ok, if◌then◌else◌,
}
use datapm.PackageFile.Json.{Number}
use datapm.Registry.Records.{
  Permission, view, edit, manage, same_permission, includes, CatalogEntity,
}
use datapm.Registry.Permissions.{first_ones, public_permissions}
use datapm.Registry.Granted.{includes_own, includes_public, or_false}
use datapm.Registry.Calls.{
  Context, Sessions, Call, return, throw, ◌>>=◌, get_catalog_from_cache_or_db_or_fail,
  get_catalog_permissions_from_cache_or_db,
}
use datapm.Registry.Directives.Slugs.{Args, chosen_slug, or_refuse, run_if, or_refuse-then}

-- `isAuthenticatedAsAdmin` of backend/src/util/contextHelpers.ts
abbrev pub is_authenticated_as_admin : Context → Bool
is_authenticated_as_admin context = elim context.me [
  | none ↦ false
  | some user_id ↦ context.is_admin
]

abbrev pub build_unclaimed_catalog_permissions : Context → List Permission
build_unclaimed_catalog_permissions context =
    if is_authenticated_as_admin context then view ∷ edit ∷ manage ∷ [] else view ∷ []

unfoldable pub resolve_catalog_permissions_for_entity :
    CatalogEntity → Option Number → Call (List Permission)
unfolding first_ones get_catalog_permissions_from_cache_or_db
resolve_catalog_permissions_for_entity catalog none = return (public_permissions catalog.is_public)
resolve_catalog_permissions_for_entity catalog (some user_id) = do
  user_permission ← get_catalog_permissions_from_cache_or_db catalog.id user_id
  return (first_ones [] (public_permissions catalog.is_public ++ user_permission))

unfoldable pub resolve_catalog_permissions : String → Option Number → Call (List Permission)
unfolding get_catalog_from_cache_or_db_or_fail resolve_catalog_permissions_for_entity
resolve_catalog_permissions slug user = do
  catalog ← get_catalog_from_cache_or_db_or_fail slug false
  resolve_catalog_permissions_for_entity catalog user

unfoldable pub has_catalog_permission : Permission → Context → String → Call Bool
unfolding resolve_catalog_permissions includes
has_catalog_permission permission context slug = do
  permissions ← resolve_catalog_permissions slug context.me
  return (includes permission permissions)

unfoldable pub has_catalog_permission_or_fail : Permission → Context → String → Call Bool
unfolding has_catalog_permission
has_catalog_permission_or_fail permission context slug = do
  has_permission ← has_catalog_permission permission context slug
  or_refuse context has_permission

unfoldable pub get_user_catalog_permissions : Context → CatalogEntity → Call (List Permission)
unfolding resolve_catalog_permissions_for_entity
get_user_catalog_permissions context catalog =
    if catalog.unclaimed
    then return (build_unclaimed_catalog_permissions context)
    else resolve_catalog_permissions_for_entity catalog context.me

-- `validatePermission`
unfoldable pub validate_catalog_permission : Context → String → Permission → Call Bool
unfolding get_catalog_from_cache_or_db_or_fail get_user_catalog_permissions includes
validate_catalog_permission context slug permission = do
  catalog ← get_catalog_from_cache_or_db_or_fail slug false
  permissions ← get_user_catalog_permissions context catalog
  or_refuse context (includes permission permissions)

module _ {A : Type 0} where
  unfoldable pub visit_catalog_argument : Permission → Context → String → Call A → Call A
  unfolding validate_catalog_permission
  visit_catalog_argument permission context slug resolve = do
    _ ← validate_catalog_permission context slug permission
    resolve

  unfoldable pub visit_catalog_field : Permission → Context → Args → Call A → Call A
  unfolding validate_catalog_permission chosen_slug
  visit_catalog_field permission context args resolve = elim (chosen_slug args) [
    | none ↦ throw "No catalog slug defined in the request"
    | some slug ↦ do _ ← validate_catalog_permission context slug permission; resolve
  ]

-- Who has which permission on a catalog: of an unclaimed one, everybody may view and an administrator
-- may edit and manage; of another, everybody may view a public one, and a user has the own permissions.
abbrev pub catalog_grants : Permission → Context → CatalogEntity → List Permission → Bool
catalog_grants p context catalog own =
    if catalog.unclaimed
    then same_permission view p
      || (is_authenticated_as_admin context && (same_permission edit p || same_permission manage p))
    else (catalog.is_public && same_permission view p) || includes p own

-- The own permissions of a user and the session after they are loaded; nobody has any, and for an
-- unclaimed catalog none are loaded.
abbrev pub CatalogLoads :
    Bool → Number → Option Number → Sessions → List Permission → Sessions → Type 0
CatalogLoads true id me s own s₁ = s₁ ≡ s
CatalogLoads false id none s own s₁ = (own ≡ []) × (s₁ ≡ s)
CatalogLoads false id (some user_id) s own s₁ =
    get_catalog_permissions_from_cache_or_db id user_id s ≡ (ok own, s₁)

module _ (p : Permission) (context : Context) where
  unclaimed_ones :
      (admin : Bool)
      → includes p (if admin then view ∷ edit ∷ manage ∷ [] else view ∷ []) ≡ (
          same_permission view p || (admin && (same_permission edit p || same_permission manage p)))
  unfolding includes
  unclaimed_ones true =
      ap (λ b. same_permission view p || b) (ap (λ b. same_permission edit p || b) (or_false _))
  unclaimed_ones false = refl

  claimed_ones :
      (catalog : CatalogEntity) (me : Option Number) (s s₁ : Sessions) (own : List Permission)
      → CatalogLoads false catalog.id me s own s₁
      → (ps : List Permission) × (resolve_catalog_permissions_for_entity catalog me s ≡ (ok ps, s₁))
        × (includes p ps ≡ ((catalog.is_public && same_permission view p) || includes p own))
  unfolding resolve_catalog_permissions_for_entity includes
  claimed_ones catalog none s s₁ own (e, h) = (
    public_permissions catalog.is_public,
    rw h refl,
    includes_public p catalog.is_public ∙ rw e (sym (or_false _)),
  )
  claimed_ones catalog (some user_id) s s₁ own h = (
    first_ones [] (public_permissions catalog.is_public ++ own),
    rw h refl,
    includes_own p catalog.is_public own,
  )

  by_claim :
      (catalog : CatalogEntity) (unclaimed : Bool) (s s₁ : Sessions) (own : List Permission)
      → CatalogLoads unclaimed catalog.id context.me s own s₁
      → (ps : List Permission) × ((if unclaimed
              then return (build_unclaimed_catalog_permissions context)
              else resolve_catalog_permissions_for_entity catalog context.me)
            s
          ≡ (ok ps, s₁))
        × (includes p ps ≡ (
            if unclaimed
            then same_permission view p
              || (is_authenticated_as_admin context
                  && (same_permission edit p || same_permission manage p))
            else (catalog.is_public && same_permission view p) || includes p own))
  by_claim catalog true s s₁ own h = (
    build_unclaimed_catalog_permissions context,
    rw h refl,
    unclaimed_ones (is_authenticated_as_admin context),
  )
  by_claim catalog false s s₁ own h = claimed_ones catalog context.me s s₁ own h

  -- Where the catalog is found and the permissions of the user on it are loaded, a field that names
  -- it by one of its arguments runs its resolver exactly when the catalog grants the permission: of
  -- an unclaimed catalog VIEW to all and EDIT and MANAGE to an administrator, of another VIEW to all
  -- if it is public and to a user what was loaded; otherwise the request is refused with
  -- NOT_AUTHORIZED, or with NOT_AUTHENTICATED if there is no user.
  pub visit_catalog_field-granted :
      {A : Type 0} (resolve : Call A) (s s₁ s₂ : Sessions) (args : Args) (slug : String)
      (catalog : CatalogEntity) (own : List Permission)
      → chosen_slug args ≡ some slug
      → get_catalog_from_cache_or_db_or_fail slug false s ≡ (ok catalog, s₁)
      → CatalogLoads catalog.unclaimed catalog.id context.me s₁ own s₂
      → visit_catalog_field p context args resolve s
        ≡ run_if (catalog_grants p context catalog own) context resolve s₂
  unfolding visit_catalog_field validate_catalog_permission
  visit_catalog_field-granted resolve s s₁ s₂ args slug catalog own h k loads =
      let (ps, gets, e) = by_claim catalog catalog.unclaimed s₁ s₂ own loads in
      rw (h, visit_catalog_field)
        (rw (k, gets, e) (or_refuse-then context resolve s₂ (catalog_grants p context catalog own)))
