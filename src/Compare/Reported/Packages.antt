-- ===== src/Compare/Reported/Packages.antt =====
-- lib/src/PackageUtil.ts: `diffCompatibility` never throws on what `comparePackages` returns.
use mathlib.Core.Bool.{not}
use datapm.Common.{
  List, ◌++◌, ◌≡◌, subst, ◌==◌, ok, for_each-All, All, All-map, any, nat_eq, text_eq,
}
use datapm.PackageFile.{PackageFile, Source}
use datapm.Compare.Difference.{
  Compability, DifferenceType, Difference, push_if, add_schema, change_source_uris,
  diff_compatibility, change_package_description, change_package_display_name, change_version,
  change_readme_file, change_website, change_contact_email, change_readme_markdown,
  change_license_file, change_license_markdown, change_generated_by, change_updated_date,
  remove_source,
}
use datapm.Compare.Severity.{IsMapped, diff_compatibility-breaking}
use datapm.Compare.Sources.{
  DeepEqual, compare_with_sources, compare_sources, compare_members, compare_packages,
  compare_packages-parts,
}
use datapm.Compare.Reported.Entries.{IsReported, AllReported, both, push_if-Reported, push_then}
use datapm.Compare.Reported.Parts.{
  compare_schemas-Reported, compare_with_sources-Reported, round-Reported,
}

IsMapped_of_reported : (t : DifferenceType) → IsReported t → IsMapped t
IsMapped_of_reported add_schema h = absurd h
IsMapped_of_reported change_source_uris h = absurd h
IsMapped_of_reported _ h = tt

module _ (deep_equal : DeepEqual) where
  compare_sources-Reported :
      (xs ys : List Source) (ds : List Difference)
      → compare_sources deep_equal xs ys ≡ ok ds
      → AllReported ds
  unfolding compare_sources
  compare_sources-Reported xs ys ds e =
      for_each-All (λ d. IsReported d.type) xs _
        (λ a.
          round-Reported (compare_with_sources deep_equal a ys)
            (push_if (not (any (λ (b : Source). a.slug == b.slug) ys)) remove_source "")
            (compare_with_sources-Reported deep_equal a ys)
            (push_if-Reported (not (any (λ (b : Source). a.slug == b.slug) ys)) remove_source ""
              tt))
        ds e

  compare_members-Reported : (a b : PackageFile) → AllReported (compare_members deep_equal a b)
  unfolding compare_members
  compare_members-Reported a b =
      push_then (not (a.description == b.description)) change_package_description "#" _ tt (
        push_then (not (a.display_name == b.display_name)) change_package_display_name "#" _ tt (
          push_then (not (a.version == b.version)) change_version "#" _ tt (
            push_then (not (text_eq a.readme_file b.readme_file)) change_readme_file "#" _ tt (
              push_then (not (text_eq a.website b.website)) change_website "#" _ tt (
                push_then (not (text_eq a.contact_email b.contact_email)) change_contact_email "#" _
                  tt
                  (push_then (not (text_eq a.readme_markdown b.readme_markdown))
                    change_readme_markdown "#" _ tt
                    (push_then (not (text_eq a.license_file b.license_file)) change_license_file "#"
                      _ tt
                      (push_then (not (text_eq a.license_markdown b.license_markdown))
                        change_license_markdown "#" _ tt
                        (push_then (not (a.generated_by == b.generated_by)) change_generated_by "#"
                          _ tt
                          (push_if-Reported (not (nat_eq a.updated_date b.updated_date))
                            change_updated_date "#" tt))))))))))

  -- No comparison of package files reports an added schema, changed source URIs or a changed
  -- property format.
  compare_packages-AllReported :
      (a b : PackageFile) (ds : List Difference)
      → compare_packages deep_equal a b ≡ ok ds
      → All (λ d. IsReported d.type) ds
  compare_packages-AllReported a b ds e =
      let (schemas, sources, e₁, e₂, whole) = compare_packages-parts deep_equal a b ds e in
      subst AllReported whole (
        both (compare_members deep_equal a b) (schemas ++ sources) (compare_members-Reported a b) (
          both schemas sources (compare_schemas-Reported a.schemas b.schemas schemas e₁)
            (compare_sources-Reported a.sources b.sources sources e₂)))

  -- If the comparison of two package files returns, so does `diffCompatibility` of its result.
  pub compatibility_of_comparison :
      (a b : PackageFile) (ds : List Difference)
      → compare_packages deep_equal a b ≡ ok ds
      → (c : Compability) × (diff_compatibility ds ≡ ok c)
  compatibility_of_comparison a b ds e =
      let (c, known, _) = diff_compatibility-breaking ds (
        All-map _ _ (λ d h. IsMapped_of_reported d.type h) ds
          (compare_packages-AllReported a b ds e)) in
      (c, known)
