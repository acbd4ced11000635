-- ===== src/Tests/Uploads.antt =====
-- An upload at a concrete input, with the few versions that it needs as `semver`.
use datapm.Common.{
  ℕ, String, true, none, some, List, [], ◌∷◌, ◌≡◌, ◌≢◌, refl, Result, ok, err, thrown, All,
  if◌then◌else◌, ◌==◌, for_each, ltb, nat_eq, ◌⊎◌,
}
use datapm.PackageFile.{PackageFile}
use datapm.PackageFile.Json.{Json, string, object, member, end, get, Number}
use datapm.Compare.Difference.{
  Compability, identical, Difference, diff, diff_compatibility, apply_difference, change_version,
  remove_hidden_property, add_property,
}
use datapm.Compare.Sources.{compare_packages}
use datapm.Compare.Compatible.{KeptSchema}
use datapm.Upgrade.Objects.{read, read_optional, to_text}
use datapm.Upgrade.Chain.{upgrade_package_file}
use datapm.Registry.Versions.{
  SemVerPackage, Comparison, lower, same, higher, Effect, save_version, update_readme_vectors,
  create_activity_log, save_version_comparison, write_package_file, version_created,
  version_updated, version_minor_change, Answers, next_version, proposed_version,
  create_or_update_version,
}
use datapm.Registry.Accepted.{saved, logged, accepted-keeps_properties, accepted-saves}
use datapm.Tests.Packages.{key_equality, people₂, file_of, prior_file, new_file}

data Release : Type 0 where
  one_zero_zero one_zero_one one_one_zero two_zero_zero : Release

abbrev number : Release → ℕ
number one_zero_zero = 100
number one_zero_one = 101
number one_one_zero = 110
number two_zero_zero = 200

abbrev text : Release → String
text one_zero_zero = "1.0.0"
text one_zero_one = "1.0.1"
text one_one_zero = "1.1.0"
text two_zero_zero = "2.0.0"

abbrev made : String → Result Release
made s =
    if s == "1.0.0"
    then ok one_zero_zero
    else if s == "1.0.1"
    then ok one_zero_one
    else if s == "1.1.0"
    then ok one_one_zero
    else if s == "2.0.0"
    then ok two_zero_zero
    else err (thrown "Invalid Version")

abbrev compared_with : Release → Result Release → Comparison
compared_with a (ok b) =
    if ltb (number b) (number a)
    then higher
    else if nat_eq (number a) (number b)
    then same
    else lower
compared_with a (err e) = lower

abbrev releases : SemVerPackage
releases = record {
  SemVer = Release;
  make = made;
  version = text;
  inc_major = λ v. two_zero_zero;
  inc_minor = λ v. one_one_zero;
  inc_patch = λ v. one_zero_one;
  compare = λ v s. compared_with v (made s);
}

abbrev as_number : String → Number
as_number s = record { text = s }

abbrev as_package_file : Json → PackageFile
as_package_file file = file_of (to_text (read_optional "version" file)) (people₂ ∷ [])

abbrev uploaded : Json
uploaded = object (
    member "$schema" (string "https://datapm.io/docs/package-file-schema-v0.32.1.json")
      (member "version" (string "1.1.0") end))

abbrev answers : Answers
answers = record {
  latest_version = some 1;
  stored_package_file = ok prior_file;
  saved_id = 2;
  package_found = ok tt;
  recalled = true;
}

abbrev differences : List Difference
differences =
    diff change_version "#"
    ∷ diff remove_hidden_property "#/people/properties/note"
    ∷ diff add_property "#/people/properties/name"
    ∷ []

abbrev effects : List (Effect Release)
effects =
    save_version 2 new_file
    ∷ update_readme_vectors none
    ∷ create_activity_log version_created version_minor_change 2
    ∷ save_version_comparison 2 1 differences
    ∷ write_package_file one_one_zero uploaded
    ∷ []

proposed : proposed_version releases uploaded ≡ ok one_one_zero
unfolding proposed_version read get
proposed = refl

upgraded : upgrade_package_file as_number as_number uploaded ≡ ok uploaded
unfolding upgrade_package_file
upgraded = refl

created :
    create_or_update_version releases key_equality "c/people" answers as_number as_number
      as_package_file uploaded
    ≡ ok effects
unfolding create_or_update_version for_each apply_difference
created = refl

accepted-keeps_properties_example : All (KeptSchema new_file.schemas) prior_file.schemas
unfolding to_text read_optional get
accepted-keeps_properties_example =
    accepted-keeps_properties releases key_equality "c/people" answers as_number as_number
      as_package_file uploaded uploaded 1 prior_file one_zero_zero one_zero_zero one_one_zero
      effects refl refl refl refl proposed upgraded created refl

accepted-saves_example :
    (ds : List Difference) × (c : Compability) × (min : Release) × (compare_packages key_equality
        prior_file
        (as_package_file uploaded)
      ≡ ok ds)
    × (diff_compatibility ds ≡ ok c)
    × (next_version releases one_zero_zero c ≡ ok min)
    × (((c ≡ identical) × (saved effects ≡ []) × (logged effects ≡ version_updated ∷ []))
        ⊎ ((c ≢ identical)
            × (saved effects ≡ as_package_file uploaded ∷ [])
            × (logged effects ≡ version_created ∷ [])
            × (compared_with min (made "1.1.0") ≢ higher)))
accepted-saves_example =
    accepted-saves releases key_equality "c/people" answers as_number as_number as_package_file
      uploaded uploaded 1 prior_file one_zero_zero one_one_zero effects refl refl refl proposed
      upgraded created
