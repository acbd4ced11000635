-- ===== src/Compare/Unchanged/Packages.antt =====
-- lib/src/PackageUtil.ts: `comparePackages` of a package file with itself.
use mathlib.Core.Bool.{not}
use datapm.Common.{
  String, true, Option, none, some, List, [], ◌∷◌, ◌++◌, ◌≡◌, refl, ◌==◌, ok, ◌>>=◌, for_each-nil,
  All, All-map, any, Unique, same_key_All, any_key, find_self, find, nat_eq_refl, text_eq_refl,
  if◌then◌else◌, Bool-cases, eq_iff, eq_refl, inl, inr,
}
use datapm.PackageFile.{PackageFile, Source, StreamSet, Schema, DpmConfiguration, UpdateMethod}
use datapm.Compare.Difference.{push_if, remove_source, identical, diff_compatibility}
use datapm.Compare.Schemas.{
  compare_schema, compare_with_schemas, has_title, missing_schema, compare_schemas,
}
use datapm.Compare.Sources.{
  DeepEqual, compare_config_objects, compare_stream_set, compare_stream_sets, compare_source,
  compare_with_sources, compare_sources, compare_members, compare_packages,
}
use datapm.Compare.Unchanged.Properties.{DistinctKeys, compare_properties_self}

pub record IsReflexive (deep_equal : DeepEqual) : Type 0 where
  pub configurations : (c : DpmConfiguration) → deep_equal.configurations c c ≡ true
  pub update_methods : (us : List UpdateMethod) → deep_equal.update_methods us us ≡ true

-- The keys by which the parts of a package file are compared are unique.
pub record IsWellFormed (p : PackageFile) : Type 0 where
  pub titles : Unique (λ (s : Schema). s.title) p.schemas
  pub keys : All (λ (s : Schema). DistinctKeys s.properties) p.schemas
  pub slugs : Unique (λ (s : Source). s.slug) p.sources
  pub stream_slugs :
      All (λ (s : Source). Unique (λ (t : StreamSet). t.slug) s.stream_sets) p.sources

pub compare_members_self :
    (deep_equal : DeepEqual) (p : PackageFile) → compare_members deep_equal p p ≡ []
unfolding compare_members
compare_members_self deep_equal p = rw (
  eq_refl p.description,
  eq_refl p.display_name,
  eq_refl p.version,
  text_eq_refl p.readme_file,
  text_eq_refl p.website,
  text_eq_refl p.contact_email,
  text_eq_refl p.readme_markdown,
  text_eq_refl p.license_file,
  text_eq_refl p.license_markdown,
  eq_refl p.generated_by,
  nat_eq_refl p.updated_date,
)

pub compare_with_schemas-nil :
    (a : Schema) (bs : List Schema)
    → All (λ (b : Schema). a.title ≡ b.title → compare_schema a b "#" ≡ ok []) bs
    → compare_with_schemas a bs ≡ ok []
unfolding compare_with_schemas
compare_with_schemas-nil a [] h = refl
compare_with_schemas-nil a (b ∷ bs) (e, h) = elim (Bool-cases (a.title == b.title)) [
  | inl t ↦ rw (t, e ((eq_iff a.title b.title).0 t), compare_with_schemas-nil a bs h)
  | inr f ↦ rw (f, compare_with_schemas-nil a bs h)
]

pub compare_schema_self : (a : Schema) → DistinctKeys a.properties → compare_schema a a "#" ≡ ok []
unfolding compare_schema
compare_schema_self a d = compare_properties_self a.properties _ d

pub compare_schemas_self :
    (xs : List Schema)
    → Unique (λ (s : Schema). s.title) xs
    → All (λ (s : Schema). DistinctKeys s.properties) xs
    → compare_schemas xs xs ≡ ok []
unfolding compare_schemas
compare_schemas_self xs u d = for_each-nil xs _ (
    both xs (any_key (λ (s : Schema). s.title) xs) (
      same_key_All (λ (s : Schema). s.title) (λ a b. compare_schema a b "#" ≡ ok []) xs u
        (All-map _ _ compare_schema_self xs d)))
  where
    both :
        (ys : List Schema)
        → All (λ (a : Schema). has_title a.title xs ≡ true) ys
        → All
            (λ (a : Schema).
              All (λ (b : Schema). a.title ≡ b.title → compare_schema a b "#" ≡ ok []) xs)
            ys
        → All
            (λ (a : Schema).
              (compare_with_schemas a xs >>= λ matched.
              ok (matched ++ (if has_title a.title xs then [] else missing_schema a)))
              ≡ ok [])
            ys
    both [] t h = tt
    both (y ∷ ys) (t, ts) (h, hs) = (rw (compare_with_schemas-nil y xs h, t), both ys ts hs)

module _ (deep_equal : DeepEqual) (reflexive : IsReflexive deep_equal) where
  compare_stream_set_self :
      (t : StreamSet) (pointer : String) → compare_stream_set deep_equal t (some t) pointer ≡ []
  unfolding compare_stream_set
  compare_stream_set_self t pointer = rw (
    reflexive.update_methods t.update_methods,
    nat_eq_refl t.stream_stats.inspected_count,
    text_eq_refl t.last_update_hash,
  )

  compare_stream_sets_self :
      (ts : List StreamSet) (s : Source) (pointer : String)
      → All
          (λ (t : StreamSet). find (λ (u : StreamSet). u.slug == t.slug) s.stream_sets ≡ some t)
          ts
      → compare_stream_sets deep_equal ts (some s) pointer ≡ ok []
  unfolding compare_stream_sets
  compare_stream_sets_self [] s pointer h = refl
  compare_stream_sets_self (t ∷ ts) s pointer (f, h) =
      rw (compare_stream_sets_self ts s pointer h, f, compare_stream_set_self t pointer)

  compare_config_self : (c : Option DpmConfiguration) → compare_config_objects deep_equal c c ≡ true
  unfolding compare_config_objects
  compare_config_self none = refl
  compare_config_self (some c) = reflexive.configurations c

  compare_source_self :
      (s : Source)
      → Unique (λ (t : StreamSet). t.slug) s.stream_sets
      → compare_source deep_equal (some s) (some s) "#" ≡ ok []
  unfolding compare_source
  compare_source_self s u = rw (
    compare_stream_sets_self s.stream_sets s "#"
        (find_self (λ (t : StreamSet). t.slug) s.stream_sets u),
    eq_refl s.type,
    compare_config_self s.configuration,
    reflexive.configurations s.connection_configuration,
    text_eq_refl s.credentials_identifier,
  )

  compare_with_sources-nil :
      (a : Source) (bs : List Source)
      → All
          (λ (b : Source).
            a.slug ≡ b.slug → compare_source deep_equal (some a) (some b) "#" ≡ ok [])
          bs
      → compare_with_sources deep_equal a bs ≡ ok []
  unfolding compare_with_sources
  compare_with_sources-nil a [] h = refl
  compare_with_sources-nil a (b ∷ bs) (e, h) = elim (Bool-cases (a.slug == b.slug)) [
    | inl t ↦ rw (t, e ((eq_iff a.slug b.slug).0 t), compare_with_sources-nil a bs h)
    | inr f ↦ rw (f, compare_with_sources-nil a bs h)
  ]

  pub compare_sources_self :
      (xs : List Source)
      → Unique (λ (s : Source). s.slug) xs
      → All (λ (s : Source). Unique (λ (t : StreamSet). t.slug) s.stream_sets) xs
      → compare_sources deep_equal xs xs ≡ ok []
  unfolding compare_sources
  compare_sources_self xs u d = for_each-nil xs _ (
      both xs (any_key (λ (s : Source). s.slug) xs) (
        same_key_All (λ (s : Source). s.slug)
          (λ a b. compare_source deep_equal (some a) (some b) "#" ≡ ok []) xs u
          (All-map _ _ compare_source_self xs d)))
    where
      both :
          (ys : List Source)
          → All (λ (a : Source). any (λ (b : Source). a.slug == b.slug) xs ≡ true) ys
          → All
              (λ (a : Source).
                All
                  (λ (b : Source).
                    a.slug ≡ b.slug → compare_source deep_equal (some a) (some b) "#" ≡ ok [])
                  xs)
              ys
          → All
              (λ (a : Source).
                (compare_with_sources deep_equal a xs >>= λ matched. ok (
                  matched
                  ++ push_if (not (any (λ (b : Source). a.slug == b.slug) xs)) remove_source ""))
                ≡ ok [])
              ys
      both [] t h = tt
      both (y ∷ ys) (t, ts) (h, hs) = (rw (compare_with_sources-nil y xs h, t), both ys ts hs)

  -- If the comparison of configurations and of update methods is reflexive, a package file with
  -- unique schema titles, property keys, source slugs and stream set slugs is compared with itself
  -- without a throw and without a difference, which is `Identical`.
  pub compare_packages_self :
      (p : PackageFile)
      → IsWellFormed p
      → (compare_packages deep_equal p p ≡ ok []) × (diff_compatibility [] ≡ ok identical)
  unfolding compare_packages diff_compatibility
  compare_packages_self p w = (
    rw (
      compare_schemas_self p.schemas w.titles w.keys,
      compare_sources_self p.sources w.slugs w.stream_slugs,
      compare_members_self deep_equal p,
    ),
    refl,
  )
