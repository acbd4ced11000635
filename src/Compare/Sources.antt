-- ===== src/Compare/Sources.antt =====
-- lib/src/PackageUtil.ts: the comparison of sources, stream sets and whole package files.
-- `deep_equal` is the package fast-deep-equal, at the two types that it is used at.
use mathlib.Core.Bool.{not}
use datapm.Common.{
  String, Bool, true, false, Option, none, some, List, [], ◌∷◌, ◌++◌, ◌==◌, ◌&&◌, Result, ok, err,
  type_error, ◌>>=◌, >>=-eq-ok, ok_injective, ◌≡◌, for_each, find, any, nat_eq, text_eq,
  if◌then◌else◌,
}
use datapm.PackageFile.{PackageFile, Source, StreamSet, UpdateMethod, DpmConfiguration}
use datapm.Compare.Difference.{
  Difference, diff, push_if, change_source, change_source_configuration, change_source_connection,
  change_source_credentials, remove_stream_set, change_stream_update_method, change_stream_stats,
  change_stream_update_hash, remove_source, change_package_description, change_package_display_name,
  change_version, change_readme_file, change_website, change_contact_email, change_readme_markdown,
  change_license_file, change_license_markdown, change_generated_by, change_updated_date,
}
use datapm.Compare.Schemas.{compare_schemas}

pub record DeepEqual : Type 0 where
  pub configurations : DpmConfiguration → DpmConfiguration → Bool
  pub update_methods : List UpdateMethod → List UpdateMethod → Bool

-- `compareStream`, whose four tests read the same member.
unfoldable pub compare_stream : StreamSet → StreamSet → String → List Difference
compare_stream prior new pointer =
    (if not (nat_eq prior.stream_stats.inspected_count new.stream_stats.inspected_count)
      then diff change_stream_stats pointer ∷ []
      else if not (nat_eq prior.stream_stats.inspected_count new.stream_stats.inspected_count)
      then diff change_stream_stats pointer ∷ []
      else if not (nat_eq prior.stream_stats.inspected_count new.stream_stats.inspected_count)
      then diff change_stream_stats pointer ∷ []
      else if not (nat_eq prior.stream_stats.inspected_count new.stream_stats.inspected_count)
      then diff change_stream_stats pointer ∷ []
      else [])
    ++ push_if
        (not (text_eq prior.last_update_hash new.last_update_hash)
          && not (text_eq prior.last_update_hash none))
        change_stream_update_hash pointer

module _ (deep_equal : DeepEqual) where
  -- `compareArrays`, at lists of update methods: both are given.
  unfoldable pub compare_arrays : Option (List UpdateMethod) → Option (List UpdateMethod) → Bool
  compare_arrays none none = true
  compare_arrays none (some new) = false
  compare_arrays (some prior) none = false
  compare_arrays (some prior) (some new) = deep_equal.update_methods prior new

  unfoldable pub compare_config_objects : Option DpmConfiguration → Option DpmConfiguration → Bool
  compare_config_objects none none = true
  compare_config_objects none (some new) = false
  compare_config_objects (some prior) none = false
  compare_config_objects (some prior) (some new) = deep_equal.configurations prior new

  -- The head of `compareSource`; `none` is a source that is null.
  unfoldable pub compare_source_head : Option Source → Option Source → String → List Difference
  unfolding compare_config_objects
  compare_source_head none none pointer = []
  compare_source_head none (some new) pointer = diff change_source pointer ∷ []
  compare_source_head (some prior) none pointer = diff change_source pointer ∷ []
  compare_source_head (some prior) (some new) pointer =
      if not (prior.type == new.type)
      then diff change_source pointer ∷ []
      else push_if (not (compare_config_objects prior.configuration new.configuration))
          change_source_configuration pointer
        ++ (push_if
              (not (
                compare_config_objects (some prior.connection_configuration)
                  (some new.connection_configuration)))
              change_source_connection pointer
            ++ push_if (not (text_eq prior.credentials_identifier new.credentials_identifier))
                change_source_credentials pointer)

  -- One round of the loop of `compareSource`.
  unfoldable pub compare_stream_set : StreamSet → Option StreamSet → String → List Difference
  unfolding compare_arrays compare_stream
  compare_stream_set prior none pointer = diff remove_stream_set pointer ∷ []
  compare_stream_set prior (some new) pointer =
      push_if (not (compare_arrays (some new.update_methods) (some prior.update_methods)))
        change_stream_update_method pointer
      ++ compare_stream prior new pointer

  -- The loop: `newSource.streamSets` is read for each stream set of the prior source.
  unfoldable pub compare_stream_sets :
      List StreamSet → Option Source → String → Result (List Difference)
  unfolding compare_stream_set
  compare_stream_sets [] new pointer = ok []
  compare_stream_sets (prior ∷ rest) none pointer = err type_error
  compare_stream_sets (prior ∷ rest) (some new) pointer = do
    others ← compare_stream_sets rest (some new) pointer
    ok (
        compare_stream_set prior (find (λ s. s.slug == prior.slug) new.stream_sets) pointer
        ++ others)

  unfoldable pub compare_source : Option Source → Option Source → String → Result (List Difference)
  unfolding compare_source_head compare_stream_sets
  compare_source none new pointer = err type_error
  compare_source (some prior) new pointer = do
    streams ← compare_stream_sets prior.stream_sets new pointer
    ok (compare_source_head (some prior) new pointer ++ streams)

  -- The inner loop of `compareSources`.
  unfoldable pub compare_with_sources : Source → List Source → Result (List Difference)
  unfolding compare_source
  compare_with_sources a [] = ok []
  compare_with_sources a (b ∷ bs) = do
    here ← (if a.slug == b.slug then compare_source (some a) (some b) "#" else ok [])
    rest ← compare_with_sources a bs
    ok (here ++ rest)

  unfoldable pub compare_sources : List Source → List Source → Result (List Difference)
  unfolding compare_with_sources
  compare_sources prior_sources new_sources = for_each prior_sources λ a. do
    matched ← compare_with_sources a new_sources
    ok (matched ++ push_if (not (any (λ b. a.slug == b.slug) new_sources)) remove_source "")

  -- The comparisons of single members in `comparePackages`.
  unfoldable pub compare_members : PackageFile → PackageFile → List Difference
  compare_members a b =
      push_if (not (a.description == b.description)) change_package_description "#"
      ++ (push_if (not (a.display_name == b.display_name)) change_package_display_name "#"
          ++ (push_if (not (a.version == b.version)) change_version "#"
              ++ (push_if (not (text_eq a.readme_file b.readme_file)) change_readme_file "#"
                  ++ (push_if (not (text_eq a.website b.website)) change_website "#"
                      ++ (push_if (not (text_eq a.contact_email b.contact_email))
                            change_contact_email "#"
                          ++ (push_if (not (text_eq a.readme_markdown b.readme_markdown))
                                change_readme_markdown "#"
                              ++ (push_if (not (text_eq a.license_file b.license_file))
                                    change_license_file "#"
                                  ++ (push_if (not (text_eq a.license_markdown b.license_markdown))
                                        change_license_markdown "#"
                                      ++ (push_if (not (a.generated_by == b.generated_by))
                                            change_generated_by "#"
                                          ++ push_if (not (nat_eq a.updated_date b.updated_date))
                                              change_updated_date "#")))))))))

  unfoldable pub compare_packages : PackageFile → PackageFile → Result (List Difference)
  unfolding compare_members compare_sources compare_schemas
  compare_packages a b = do
    schemas ← compare_schemas a.schemas b.schemas
    sources ← compare_sources a.sources b.sources
    ok (compare_members a b ++ (schemas ++ sources))

  -- The differences of two package files, in three parts.
  pub compare_packages-parts :
      (a b : PackageFile) (ds : List Difference)
      → compare_packages a b ≡ ok ds
      → (schemas sources : List Difference) × (compare_schemas a.schemas b.schemas ≡ ok schemas)
        × (compare_sources a.sources b.sources ≡ ok sources)
        × (compare_members a b ++ (schemas ++ sources) ≡ ds)
  unfolding compare_packages
  compare_packages-parts a b ds e =
      let (schemas, e₁, k₁) = >>=-eq-ok (compare_schemas a.schemas b.schemas) _ e in
      let (sources, e₂, k₂) =
        >>=-eq-ok (compare_sources a.sources b.sources)
          (λ found. ok (compare_members a b ++ (schemas ++ found))) k₁ in
      (schemas, sources, e₁, e₂, ok_injective k₂)
