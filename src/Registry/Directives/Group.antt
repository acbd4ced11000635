-- ===== src/Registry/Directives/Group.antt =====
-- backend/src/directive/hasGroupPermissionDirective.ts.ts: a resolver that runs only with a permission
-- on the group.
use datapm.Common.{String, Bool, false, Option, none, some, List, [], ◌++◌, ◌≡◌, refl, ok}
use datapm.PackageFile.Json.{Number}
use datapm.Registry.Records.{Permission, includes, GroupEntity}
use datapm.Registry.Calls.{
  Context, Sessions, Call, return, throw, ◌>>=◌, get_group_permissions_from_cache_or_db,
  get_group_from_cache_or_db_by_slug_or_fail,
}
use datapm.Registry.Directives.Slugs.{Args, chosen_slug, or_refuse, run_if, or_refuse-then}

unfoldable pub resolve_group_permissions_for_entity :
    GroupEntity → Option Number → Call (List Permission)
unfolding get_group_permissions_from_cache_or_db
resolve_group_permissions_for_entity group none = return []
resolve_group_permissions_for_entity group (some user_id) = do
  user_permission ← get_group_permissions_from_cache_or_db group.id user_id
  return ([] ++ user_permission)

unfoldable pub resolve_group_permissions : String → Option Number → Call (List Permission)
unfolding get_group_from_cache_or_db_by_slug_or_fail resolve_group_permissions_for_entity
resolve_group_permissions slug user = do
  group ← get_group_from_cache_or_db_by_slug_or_fail slug false
  resolve_group_permissions_for_entity group user

unfoldable pub get_user_group_permissions : Context → GroupEntity → Call (List Permission)
unfolding resolve_group_permissions_for_entity
get_user_group_permissions context group = elim context.me [
  | none ↦ return []
  | some user_id ↦ resolve_group_permissions_for_entity group (some user_id)
]

-- `validatePermission`
unfoldable pub validate_group_permission : Context → String → Permission → Call Bool
unfolding get_group_from_cache_or_db_by_slug_or_fail get_user_group_permissions includes
validate_group_permission context slug permission = do
  group ← get_group_from_cache_or_db_by_slug_or_fail slug false
  permissions ← get_user_group_permissions context group
  or_refuse context (includes permission permissions)

module _ {A : Type 0} where
  unfoldable pub visit_group_argument : Permission → Context → String → Call A → Call A
  unfolding validate_group_permission
  visit_group_argument permission context slug resolve = do
    _ ← validate_group_permission context slug permission
    resolve

  -- The slug is that of a catalog among the arguments.
  unfoldable pub visit_group_field : Permission → Context → Args → Call A → Call A
  unfolding validate_group_permission chosen_slug
  visit_group_field permission context args resolve = elim (chosen_slug args) [
    | none ↦ throw "No catalog slug defined in the request"
    | some slug ↦ do _ ← validate_group_permission context slug permission; resolve
  ]

-- The permissions of the user in the group, if there is a user, and the session after they are loaded.
abbrev pub GroupLoads : GroupEntity → Option Number → Sessions → List Permission → Sessions → Type 0
GroupLoads group none s own s₁ = (own ≡ []) × (s₁ ≡ s)
GroupLoads group (some user_id) s own s₁ =
    get_group_permissions_from_cache_or_db group.id user_id s ≡ (ok own, s₁)

module _ (p : Permission) (context : Context) where
  group_ones :
      (group : GroupEntity) (me : Option Number) (s s₁ : Sessions) (own : List Permission)
      → GroupLoads group me s own s₁
      → (elim me as (λ x. Call (List Permission)) [
        | none ↦ return []
        | some user_id ↦ resolve_group_permissions_for_entity group (some user_id)
      ])
          s
        ≡ (ok own, s₁)
  unfolding resolve_group_permissions_for_entity
  group_ones group none s s₁ own (e, h) = rw (e, h) refl
  group_ones group (some user_id) s s₁ own h = rw h refl

  -- Where the group is found and the permissions of the user in it are loaded, a field with the slug
  -- of a group runs its resolver exactly when the user has the permission; otherwise the request is
  -- refused with NOT_AUTHORIZED, or with NOT_AUTHENTICATED if there is no user.
  pub visit_group_argument-granted :
      {A : Type 0} (resolve : Call A) (s s₁ s₂ : Sessions) (slug : String) (group : GroupEntity)
      (own : List Permission)
      → get_group_from_cache_or_db_by_slug_or_fail slug false s ≡ (ok group, s₁)
      → GroupLoads group context.me s₁ own s₂
      → visit_group_argument p context slug resolve s ≡ run_if (includes p own) context resolve s₂
  unfolding visit_group_argument validate_group_permission get_user_group_permissions
  visit_group_argument-granted resolve s s₁ s₂ slug group own h loads =
      rw (h, group_ones group context.me s₁ s₂ own loads)
        (or_refuse-then context resolve s₂ (includes p own))
