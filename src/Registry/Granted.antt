-- ===== src/Registry/Granted.antt =====
-- backend/src/directive/hasPackagePermissionDirective.ts: which permissions a user has.
use datapm.Common.{
  Bool, true, false, ◌&&◌, ◌||◌, some, List, [], ◌∷◌, ◌++◌, ◌≡◌, refl, sym, ap, subst, ◌∙◌, inl,
  inr, ok, arith, Bool-cases,
}
use datapm.PackageFile.Json.{Number}
use datapm.SessionCache.Store.{resolved, Session}
use datapm.SessionCache.Loads.{load_package_permissions_by_id}
use datapm.Registry.Records.{Permission, view, same_permission, includes, Records, PackageEntity}
use datapm.Registry.Permissions.{
  first_ones, public_permissions, fetch_package, get_catalog_package_permissions_from_cache_or_db,
  all_permissions, then_catalog, resolve_package_permissions_for_entity,
}

same_permission_sound : (p q : Permission) → same_permission p q ≡ true → p ≡ q
same_permission_sound p q h = ground arith

pub includes-append :
    (p : Permission) (xs ys : List Permission)
    → includes p (xs ++ ys) ≡ (includes p xs || includes p ys)
unfolding includes
includes-append p [] ys = refl
includes-append p (x ∷ xs) ys =
    ap (λ b. same_permission x p || b) (includes-append p xs ys)
    ∙ or_assoc (same_permission x p) _ _
  where
    or_assoc : (a b c : Bool) → (a || (b || c)) ≡ ((a || b) || c)
    or_assoc a b c = ground arith

pub or_false : (b : Bool) → (b || false) ≡ b
or_false b = ground arith

-- What is there is not lost or gained by the test for one that is there.
includes_same :
    (p q : Permission) (xs : List Permission)
    → includes q xs ≡ true
    → (includes p xs || same_permission q p) ≡ includes p xs
includes_same p q xs h = elim (Bool-cases (same_permission q p)) [
  | inl e ↦
      let there = subst (λ r. includes r xs ≡ true) (same_permission_sound q p e) h in
      rw (e, there) refl
  | inr n ↦ rw n (or_false (includes p xs))
]

pub includes-first_ones :
    (p : Permission) (before xs : List Permission)
    → (includes p before || includes p (first_ones before xs))
      ≡ (includes p before || includes p xs)
unfolding includes first_ones
includes-first_ones p before [] = refl
includes-first_ones p before (q ∷ xs) =
    let rest = first_ones (before ++ (q ∷ [])) xs in
    let later =
      ap (λ b. b || includes p rest) (sym (includes-append p before (q ∷ [])))
      ∙ includes-first_ones p (before ++ (q ∷ [])) xs
      ∙ ap (λ b. b || includes p xs) (includes-append p before (q ∷ [])) in
    elim (Bool-cases (includes q before)) [
      | inl there ↦ rw there (
          seen (includes p before) (same_permission q p) (includes p rest) (includes p xs)
            (includes_same p q before there) later)
      | inr new ↦
          rw new (
            unseen (includes p before) (same_permission q p) (includes p rest) (includes p xs)
              later)
    ]
  where
    seen :
        (a s r x : Bool)
        → (a || s) ≡ a
        → ((a || (s || false)) || r) ≡ ((a || (s || false)) || x)
        → (a || r) ≡ (a || (s || x))
    seen a s r x h k = ground arith

    unseen :
        (a s r x : Bool)
        → ((a || (s || false)) || r) ≡ ((a || (s || false)) || x)
        → (a || (s || r)) ≡ (a || (s || x))
    unseen a s r x k = ground arith

then_catalog-found :
    (entity : PackageEntity) (user_id : Number) (s₁ s₂ : Session (List Permission) Records)
    (own catalog : List Permission)
    → get_catalog_package_permissions_from_cache_or_db entity.catalog_id user_id s₁
      ≡ (ok catalog, s₂)
    → then_catalog entity user_id (some (resolved own), s₁)
      ≡ (all_permissions entity (ok catalog) (ok own), s₂)
then_catalog-found entity user_id s₁ s₂ own catalog h = rw h

pub includes_public :
    (p : Permission) (is_public : Bool)
    → includes p (public_permissions is_public) ≡ (is_public && same_permission view p)
unfolding includes
includes_public p true = or_false (same_permission view p)
includes_public p false = refl

-- With both loads done, what is resolved is the three lists in order, without repetitions.
pub resolve_package_permissions_for_entity-loaded :
    (entity : PackageEntity) (user_id : Number) (s s₁ s₂ : Session (List Permission) Records)
    (own catalog : List Permission)
    → load_package_permissions_by_id entity.id (fetch_package entity.id user_id) s
      ≡ (some (resolved own), s₁)
    → get_catalog_package_permissions_from_cache_or_db entity.catalog_id user_id s₁
      ≡ (ok catalog, s₂)
    → resolve_package_permissions_for_entity entity (some user_id) s
      ≡ (ok (first_ones [] ((public_permissions entity.is_public ++ catalog) ++ own)), s₂)
unfolding resolve_package_permissions_for_entity all_permissions
resolve_package_permissions_for_entity-loaded entity user_id s s₁ s₂ own catalog loaded loaded₂ =
    ap (then_catalog entity user_id) loaded
    ∙ then_catalog-found entity user_id s₁ s₂ own catalog loaded₂

-- What the three lists hold together.
pub includes_resolved :
    (p : Permission) (is_public : Bool) (catalog own : List Permission)
    → includes p (first_ones [] ((public_permissions is_public ++ catalog) ++ own))
      ≡ (((is_public && same_permission view p) || includes p catalog) || includes p own)
unfolding includes
includes_resolved p is_public catalog own =
    includes-first_ones p [] ((public_permissions is_public ++ catalog) ++ own)
    ∙ includes-append p (public_permissions is_public ++ catalog) own
    ∙ ap (λ b. b || includes p own)
        (includes-append p (public_permissions is_public) catalog
          ∙ ap (λ b. b || includes p catalog) (includes_public p is_public))

-- The same of two lists, for a catalog or a collection.
pub includes_own :
    (p : Permission) (is_public : Bool) (own : List Permission)
    → includes p (first_ones [] (public_permissions is_public ++ own))
      ≡ ((is_public && same_permission view p) || includes p own)
unfolding includes
includes_own p is_public own =
    includes-first_ones p [] (public_permissions is_public ++ own)
    ∙ includes-append p (public_permissions is_public) own
    ∙ ap (λ b. b || includes p own) (includes_public p is_public)
