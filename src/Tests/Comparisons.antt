-- ===== src/Tests/Comparisons.antt =====
-- The comparison of package files at concrete inputs.
use datapm.Common.{List, [], ◌∷◌, ◌≡◌, ◌≢◌, refl, ok, for_each, All, Any, ◌↔◌}
use datapm.PackageFile.PropertyTree.{no_properties, has_key}
use datapm.Compare.Difference.{
  Compability, identical, compatible_change, breaking_change, Difference, diff, diff_compatibility,
  apply_difference, change_version, remove_hidden_property, add_property,
}
use datapm.Compare.Sources.{compare_packages}
use datapm.Compare.Compatible.{KeptSchema, compatible-keeps_properties}
use datapm.Compare.Severity.{IsBreaking, diff_compatibility-breaking}
use datapm.Compare.Unchanged.Packages.{IsWellFormed, compare_packages_self}
use datapm.Compare.Reported.Packages.{compatibility_of_comparison}
use datapm.Compare.Additions.{add_schemas, added_schemas_unseen}
use datapm.Compare.Unchanged.Properties.{DistinctKeys}
use datapm.Tests.Packages.{
  distinct, key_equality, key_equality-IsReflexive, schema_of, prior_file, new_file,
}

abbrev differences : List Difference
differences =
    diff change_version "#"
    ∷ diff remove_hidden_property "#/people/properties/note"
    ∷ diff add_property "#/people/properties/name"
    ∷ []

pub compared : compare_packages key_equality prior_file new_file ≡ ok differences
unfolding compare_packages for_each
compared = refl

pub rated : diff_compatibility differences ≡ ok compatible_change
unfolding diff_compatibility apply_difference
rated = refl

not_breaking : compatible_change ≢ breaking_change
not_breaking p = cc

compatible-keeps_properties_example : All (KeptSchema new_file.schemas) prior_file.schemas
compatible-keeps_properties_example =
    compatible-keeps_properties key_equality prior_file new_file differences compatible_change
      compared rated not_breaking

diff_compatibility-breaking_example :
    (c : Compability) × (diff_compatibility differences ≡ ok c)
    × ((c ≡ breaking_change) ↔ Any (λ d. IsBreaking d.type) differences)
diff_compatibility-breaking_example = diff_compatibility-breaking differences (tt, (tt, (tt, tt)))

well_formed : IsWellFormed (add_schemas prior_file (schema_of "places" no_properties ∷ []))
unfolding DistinctKeys has_key
well_formed = record {
  titles = ((distinct "people" "places" refl, tt), (tt, tt));
  keys = ((refl, (tt, tt), (refl, (tt, tt), tt)), (tt, tt));
  slugs = (tt, tt);
  stream_slugs = ((tt, tt), tt);
}

prior-IsWellFormed : IsWellFormed prior_file
unfolding DistinctKeys has_key
prior-IsWellFormed = record {
  titles = (tt, tt);
  keys = ((refl, (tt, tt), (refl, (tt, tt), tt)), tt);
  slugs = (tt, tt);
  stream_slugs = ((tt, tt), tt);
}

compare_packages_self_example :
    (compare_packages key_equality prior_file prior_file ≡ ok [])
    × (diff_compatibility [] ≡ ok identical)
compare_packages_self_example =
    compare_packages_self key_equality key_equality-IsReflexive prior_file prior-IsWellFormed

compatibility_of_comparison_example : (c : Compability) × (diff_compatibility differences ≡ ok c)
compatibility_of_comparison_example =
    compatibility_of_comparison key_equality prior_file new_file differences compared

added_schemas_unseen_example :
    (compare_packages key_equality prior_file
        (add_schemas prior_file (schema_of "places" no_properties ∷ []))
      ≡ ok [])
    × (diff_compatibility [] ≡ ok identical)
added_schemas_unseen_example =
    added_schemas_unseen key_equality key_equality-IsReflexive prior_file
      (schema_of "places" no_properties ∷ []) well_formed
