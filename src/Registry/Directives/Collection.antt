-- ===== src/Registry/Directives/Collection.antt =====
-- backend/src/directive/hasCollectionPermissionDirective.ts: a resolver that runs only with a permission
-- on the collection.
use datapm.Common.{
  String, Bool, ◌&&◌, ◌||◌, Option, none, some, List, [], ◌++◌, ◌≡◌, refl, sym, ◌∙◌, ok,
}
use datapm.PackageFile.Json.{Number}
use datapm.Registry.Records.{Permission, view, same_permission, includes, CollectionEntity}
use datapm.Registry.Permissions.{first_ones, public_permissions}
use datapm.Registry.Granted.{includes_own, includes_public, or_false}
use datapm.Registry.Calls.{
  Context, Sessions, Call, return, throw, ◌>>=◌, get_collection_from_cache_or_db_or_fail,
  get_collection_permissions_from_cache_or_db,
}
use datapm.Registry.Directives.Slugs.{Args, chosen_slug, or_refuse, run_if, or_refuse-then}

-- The user decides whether there are more permissions than the public ones; whose they are, the
-- context says.
unfoldable pub resolve_collection_permissions_for_entity :
    Context → CollectionEntity → Option Number → Call (List Permission)
unfolding first_ones get_collection_permissions_from_cache_or_db
resolve_collection_permissions_for_entity context collection none =
    return (public_permissions collection.is_public)
resolve_collection_permissions_for_entity context collection (some user_id) = do
  user_permission ← get_collection_permissions_from_cache_or_db context collection
  return (first_ones [] (public_permissions collection.is_public ++ user_permission))

unfoldable pub resolve_collection_permissions :
    Context → String → Option Number → Call (List Permission)
unfolding get_collection_from_cache_or_db_or_fail resolve_collection_permissions_for_entity
resolve_collection_permissions context slug user = do
  collection ← get_collection_from_cache_or_db_or_fail slug
  resolve_collection_permissions_for_entity context collection user

unfoldable pub has_collection_permission : Permission → Context → String → Call Bool
unfolding resolve_collection_permissions includes
has_collection_permission permission context slug = do
  permissions ← resolve_collection_permissions context slug context.me
  return (includes permission permissions)

unfoldable pub has_collection_permission_or_fail : Permission → Context → String → Call Bool
unfolding has_collection_permission
has_collection_permission_or_fail permission context slug = do
  has_permission ← has_collection_permission permission context slug
  or_refuse context has_permission

module _ {A : Type 0} where
  unfoldable pub visit_collection_argument : Permission → Context → String → Call A → Call A
  unfolding has_collection_permission_or_fail
  visit_collection_argument permission context slug resolve = do
    _ ← has_collection_permission_or_fail permission context slug
    resolve

  unfoldable pub visit_collection_field : Permission → Context → Args → Call A → Call A
  unfolding has_collection_permission_or_fail chosen_slug
  visit_collection_field permission context args resolve = elim (chosen_slug args) [
    | none ↦ throw "COLLECTION_SLUG_REQUIRED"
    | some slug ↦ do _ ← has_collection_permission_or_fail permission context slug; resolve
  ]

-- The own permissions of the user, if there is one, and the session after they are loaded.
abbrev pub CollectionLoads :
    CollectionEntity → Context → Option Number → Sessions → List Permission → Sessions → Type 0
CollectionLoads collection context none s own s₁ = (own ≡ []) × (s₁ ≡ s)
CollectionLoads collection context (some user_id) s own s₁ =
    get_collection_permissions_from_cache_or_db context collection s ≡ (ok own, s₁)

module _ (p : Permission) (context : Context) where
  collection_ones :
      (collection : CollectionEntity) (me : Option Number) (s s₁ : Sessions) (own : List Permission)
      → CollectionLoads collection context me s own s₁
      → (ps : List Permission) × (resolve_collection_permissions_for_entity context collection me s
          ≡ (ok ps, s₁))
        × (includes p ps ≡ ((collection.is_public && same_permission view p) || includes p own))
  unfolding resolve_collection_permissions_for_entity includes
  collection_ones collection none s s₁ own (e, h) = (
    public_permissions collection.is_public,
    rw h refl,
    includes_public p collection.is_public ∙ rw e (sym (or_false _)),
  )
  collection_ones collection (some user_id) s s₁ own h = (
    first_ones [] (public_permissions collection.is_public ++ own),
    rw h refl,
    includes_own p collection.is_public own,
  )

  -- Where the collection is found and the permissions of the user on it are loaded, a field that
  -- names it by one of its arguments runs its resolver exactly when the collection is public and the
  -- permission is VIEW, or the user has the permission; otherwise the request is refused with
  -- NOT_AUTHORIZED, or with NOT_AUTHENTICATED if there is no user.
  pub visit_collection_field-granted :
      {A : Type 0} (resolve : Call A) (s s₁ s₂ : Sessions) (args : Args) (slug : String)
      (collection : CollectionEntity) (own : List Permission)
      → chosen_slug args ≡ some slug
      → get_collection_from_cache_or_db_or_fail slug s ≡ (ok collection, s₁)
      → CollectionLoads collection context context.me s₁ own s₂
      → visit_collection_field p context args resolve s
        ≡ run_if
            ((collection.is_public && same_permission view p) || includes p own)
            context
            resolve
            s₂
  unfolding visit_collection_field has_collection_permission_or_fail has_collection_permission
      resolve_collection_permissions
  visit_collection_field-granted resolve s s₁ s₂ args slug collection own h k loads =
      let (ps, gets, e) = collection_ones collection context.me s₁ s₂ own loads in
      rw (h, visit_collection_field) (rw (k, gets, e) (or_refuse-then context resolve s₂ _))
