-- ===== src/Compare/Additions.antt =====
-- lib/src/PackageUtil.ts: a schema that the new package file adds is not reported.
use datapm.Common.{
  true, List, [], ◌∷◌, ◌++◌, ◌≡◌, refl, ok, ◌>>=◌, for_each-nil, All, All-map, All-append_left,
  Unique, same_key_All, any_key, if◌then◌else◌,
}
use datapm.PackageFile.{Schema, PackageFile}
use datapm.Compare.Difference.{diff_compatibility, identical}
use datapm.Compare.Schemas.{
  compare_schema, compare_with_schemas, has_title, missing_schema, compare_schemas,
}
use datapm.Compare.Unchanged.Properties.{DistinctKeys}
use datapm.Compare.Unchanged.Packages.{
  IsReflexive, IsWellFormed, compare_with_schemas-nil, compare_schema_self, compare_sources_self,
  compare_members_self,
}
use datapm.Compare.Sources.{DeepEqual, compare_members, compare_packages}

compare_schemas-append :
    (xs ys : List Schema)
    → Unique (λ (s : Schema). s.title) (xs ++ ys)
    → All (λ (s : Schema). DistinctKeys s.properties) (xs ++ ys)
    → compare_schemas xs (xs ++ ys) ≡ ok []
unfolding compare_schemas
compare_schemas-append xs ys u d = for_each-nil xs _ (
    All-map _ _ (λ a h. unchanged a h.0 h.1) xs
      (pair xs (All-append_left _ xs ys (any_key (λ (s : Schema). s.title) (xs ++ ys))) (
        All-append_left _ xs ys (
          same_key_All (λ (s : Schema). s.title) (λ a b. compare_schema a b "#" ≡ ok []) (xs ++ ys)
            u (All-map _ _ compare_schema_self (xs ++ ys) d)))))
  where
    unchanged :
        (a : Schema)
        → has_title a.title (xs ++ ys) ≡ true
        → All (λ (b : Schema). a.title ≡ b.title → compare_schema a b "#" ≡ ok []) (xs ++ ys)
        → (compare_with_schemas a (xs ++ ys) >>= λ matched.
            ok (matched ++ (if has_title a.title (xs ++ ys) then [] else missing_schema a)))
          ≡ ok []
    unchanged a t h = rw (compare_with_schemas-nil a (xs ++ ys) h, t)

    pair :
        (zs : List Schema)
        → All (λ (a : Schema). has_title a.title (xs ++ ys) ≡ true) zs
        → All
            (λ (a : Schema).
              All (λ (b : Schema). a.title ≡ b.title → compare_schema a b "#" ≡ ok []) (xs ++ ys))
            zs
        → All
            (λ (a : Schema).
              (has_title a.title (xs ++ ys) ≡ true)
              × All (λ (b : Schema). a.title ≡ b.title → compare_schema a b "#" ≡ ok []) (xs ++ ys))
            zs
    pair [] t h = tt
    pair (z ∷ zs) (t, ts) (h, hs) = ((t, h), pair zs ts hs)

-- The package file with schemas added behind its own.
abbrev pub add_schemas : PackageFile → List Schema → PackageFile
add_schemas p ys = record p { schemas = p.schemas ++ ys }

-- If the comparison of configurations and of update methods is reflexive, and titles, property
-- keys and slugs are unique, a package file that differs from the prior one only by schemas added
-- behind the prior ones has no differences, and counts as `Identical`.
pub added_schemas_unseen :
    (deep_equal : DeepEqual)
    → IsReflexive deep_equal
    → (p : PackageFile) (ys : List Schema) → IsWellFormed (add_schemas p ys)
    → (compare_packages deep_equal p (add_schemas p ys) ≡ ok [])
      × (diff_compatibility [] ≡ ok identical)
unfolding compare_packages diff_compatibility
added_schemas_unseen deep_equal reflexive p ys w = (
  rw (
    compare_schemas-append p.schemas ys w.titles w.keys,
    compare_sources_self deep_equal reflexive p.sources w.slugs w.stream_slugs,
    compare_members-same p ys,
  ),
  refl,
)
  where
    compare_members-same :
        (p : PackageFile) (ys : List Schema) → compare_members deep_equal p (add_schemas p ys) ≡ []
    compare_members-same p ys = unfold compare_members in (compare_members_self deep_equal p)
