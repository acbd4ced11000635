-- ===== src/Compare/Difference.antt =====
-- lib/src/PackageUtil.ts: the differences between package files, and how compatible they are.
use datapm.Common.{
  ℕ, String, Bool, List, [], ◌∷◌, Result, ok, err, thrown, ◌>>=◌, ltb, nat_eq, if◌then◌else◌,
}

pub data Compability : Type 0 where
  identical minor_change compatible_change breaking_change : Compability

-- The numbers of the enumeration.
abbrev pub rank : Compability → ℕ
rank identical = 0
rank minor_change = 1
rank compatible_change = 2
rank breaking_change = 3

pub data DifferenceType : Type 0 where
  remove_schema remove_hidden_schema add_schema remove_source : DifferenceType
  change_package_display_name change_package_description change_source : DifferenceType
  change_source_connection change_source_credentials change_source_configuration : DifferenceType
  change_stream_update_method change_source_uris change_stream_stats : DifferenceType
  change_stream_update_hash add_property hide_property unhide_property : DifferenceType
  remove_property remove_hidden_property change_property_type change_property_format :
      DifferenceType
  change_property_unit change_property_description change_generated_by : DifferenceType
  change_updated_date change_version change_readme_markdown change_license_markdown : DifferenceType
  change_readme_file change_license_file change_website change_contact_email : DifferenceType
  remove_stream_set : DifferenceType

pub record Difference : Type 0 where
  pub type : DifferenceType
  pub pointer : String

abbrev pub diff : DifferenceType → String → Difference
diff t p = record { type = t; pointer = p }

-- `if (test) response.push({ type, pointer })`
abbrev pub push_if : Bool → DifferenceType → String → List Difference
push_if test t p = if test then diff t p ∷ [] else []

unfoldable pub least_compatible : Compability → Compability → Compability
least_compatible a b =
    if nat_eq (rank a) (rank b) then a else if ltb (rank a) (rank b) then b else a

-- `Math.max` of two members of the enumeration.
unfoldable pub max_compability : Compability → Compability → Compability
max_compability a b = if ltb (rank a) (rank b) then b else a

-- The `switch` of `diffCompatibility`: the new `returnValue`.
unfoldable pub apply_difference : Compability → DifferenceType → Result Compability
unfolding max_compability
apply_difference value remove_property = ok breaking_change
apply_difference value remove_schema = ok breaking_change
apply_difference value change_property_format = ok breaking_change
apply_difference value change_property_type = ok breaking_change
apply_difference value hide_property = ok breaking_change
apply_difference value add_property = ok (max_compability value compatible_change)
apply_difference value add_schema = ok (max_compability value compatible_change)
apply_difference value unhide_property = ok (max_compability value compatible_change)
apply_difference value change_source = ok (max_compability value minor_change)
apply_difference value change_source_configuration = ok (max_compability value minor_change)
apply_difference value change_source_connection = ok (max_compability value minor_change)
apply_difference value change_source_credentials = ok (max_compability value minor_change)
apply_difference value remove_hidden_property = ok (max_compability value minor_change)
apply_difference value remove_hidden_schema = ok (max_compability value minor_change)
apply_difference value change_version = ok (max_compability value minor_change)
apply_difference value remove_source = ok (max_compability value minor_change)
apply_difference value remove_stream_set = ok (max_compability value minor_change)
apply_difference value change_property_unit = ok (max_compability value minor_change)
apply_difference value change_package_description = ok (max_compability value minor_change)
apply_difference value change_package_display_name = ok (max_compability value minor_change)
apply_difference value change_property_description = ok (max_compability value minor_change)
apply_difference value change_readme_markdown = ok (max_compability value minor_change)
apply_difference value change_license_markdown = ok (max_compability value minor_change)
apply_difference value change_website = ok (max_compability value minor_change)
apply_difference value change_contact_email = ok (max_compability value minor_change)
apply_difference value change_stream_update_hash = ok value
apply_difference value change_stream_stats = ok value
apply_difference value change_generated_by = ok value
apply_difference value change_updated_date = ok value
apply_difference value change_readme_file = ok value
apply_difference value change_license_file = ok value
apply_difference value change_stream_update_method = ok value
apply_difference value _ = err (thrown "Diff type not mapped")

-- The loop of `diffCompatibility`, from a value of `returnValue`.
unfoldable pub compatibility_from : Compability → List Difference → Result Compability
compatibility_from value [] = ok value
compatibility_from value (d ∷ ds) = do
  next ← apply_difference value d.type
  compatibility_from next ds

unfoldable pub diff_compatibility : List Difference → Result Compability
unfolding compatibility_from
diff_compatibility ds = compatibility_from identical ds

unfoldable pub compatibility_to_string : Compability → String
compatibility_to_string breaking_change = "breaking"
compatibility_to_string compatible_change = "compatibile"
compatibility_to_string minor_change = "minor"
compatibility_to_string identical = "no"
