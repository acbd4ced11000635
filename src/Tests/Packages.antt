-- ===== src/Tests/Packages.antt =====
-- Package files for the tests, and an instance of `fast-deep-equal`'s part: it compares keys in order.
use datapm.Common.{
  ℕ, String, Bool, true, false, Option, none, some, List, [], ◌∷◌, ◌≡◌, refl, ◌==◌, ◌&&◌, eq_refl,
  eq_iff, sym, ◌∙◌, ◌≢◌, nat_eq, nat_eq_refl,
}
use datapm.PackageFile.{
  PackageFile, Schema, Source, StreamSet, UpdateMethod, batch_full_set, append_only_log, continuous,
}
use datapm.PackageFile.Json.{Json, Members, end, member}
use datapm.PackageFile.PropertyTree.{
  Property, property, Properties, no_properties, entry, no_types, value_type, statistics,
  ScalarStatistics, without_types, without_properties, DpmPropertyType,
}
use datapm.Compare.Sources.{DeepEqual}
use datapm.Compare.Unchanged.Packages.{IsReflexive}

abbrev same_keys : Members → Members → Bool
same_keys end end = true
same_keys end (member j w n) = false
same_keys (member k v m) end = false
same_keys (member k v m) (member j w n) = k == j && same_keys m n

abbrev method_number : UpdateMethod → ℕ
method_number batch_full_set = 0
method_number append_only_log = 1
method_number continuous = 2

abbrev same_methods : List UpdateMethod → List UpdateMethod → Bool
same_methods [] [] = true
same_methods [] (v ∷ vs) = false
same_methods (u ∷ us) [] = false
same_methods (u ∷ us) (v ∷ vs) = nat_eq (method_number u) (method_number v) && same_methods us vs

abbrev pub key_equality : DeepEqual
key_equality = record { configurations = same_keys; update_methods = same_methods }

pub key_equality-IsReflexive : IsReflexive key_equality
key_equality-IsReflexive = record { configurations = keys; update_methods = methods }
  where
    keys : (c : Members) → same_keys c c ≡ true
    keys end = refl
    keys (member k v m) = rw (eq_refl k) (keys m)

    methods : (us : List UpdateMethod) → same_methods us us ≡ true
    methods [] = refl
    methods (u ∷ us) = rw (nat_eq_refl (method_number u)) (methods us)

abbrev no_statistics : ScalarStatistics
no_statistics = record {
  record_count = none;
  string_max_length = none;
  string_min_length = none;
  number_max_value = none;
  number_min_value = none;
  number_max_precision = none;
  number_max_scale = none;
  boolean_true_count = none;
  boolean_false_count = none;
  date_max_value = none;
  date_min_value = none;
  date_max_millseconds_precision = none;
  string_options = none;
  content_labels = none;
  array_min_length = none;
  array_max_length = none;
}

abbrev pub text_property : String → Option Bool → Property
text_property title hidden =
    property
      (record {
        title = title;
        description = none;
        hidden = hidden;
        unit = none;
        first_seen = none;
        last_seen = none;
      })
      (value_type DpmPropertyType.string (statistics no_statistics without_types without_properties)
        no_types)

abbrev pub schema_of : String → Properties → Schema
schema_of title properties = record {
  title = title;
  description = none;
  properties = properties;
  hidden = none;
  records_inspected_count = none;
  record_count = none;
  records_not_present = none;
  record_count_precision = none;
  sample_records = none;
  derived_from_description = none;
  derived_from = none;
  unit = none;
  update_methods = none;
}

abbrev stream_set : StreamSet
stream_set = record {
  slug = "people.csv";
  schema_titles = "people" ∷ [];
  last_update_hash = some "1a";
  stream_stats = record {
    byte_count = none;
    byte_count_precision = none;
    inspected_count = 3;
    record_count = none;
    record_count_precision = none;
  };
  update_methods = batch_full_set ∷ [];
  end_reached = none;
}

abbrev source : Source
source = record {
  type = "http";
  slug = "web";
  connection_configuration = end;
  credentials_identifier = none;
  configuration = some (member "uris" Json.null end);
  update_configuration = none;
  stream_sets = stream_set ∷ [];
}

abbrev pub file_of : String → List Schema → PackageFile
file_of version schemas = record {
  schema_url = "https://datapm.io/docs/package-file-schema-v0.32.1.json";
  canonical = true;
  modified_properties = none;
  package_slug = "people";
  display_name = "People";
  description = "About people";
  sources = source ∷ [];
  schemas = schemas;
  version = version;
  generated_by = "hand";
  updated_date = 7;
  readme_file = none;
  readme_markdown = none;
  license_file = none;
  license_markdown = none;
  website = none;
  contact_email = none;
  registries = none;
}

abbrev pub people : Schema
people = schema_of "people" (
    entry "id" (text_property "id" none)
      (entry "note" (text_property "note" (some true)) no_properties))

-- Without the hidden property, and with a new one.
abbrev pub people₂ : Schema
people₂ =
    schema_of "people" (
      entry "id" (text_property "id" none) (entry "name" (text_property "name" none) no_properties))

abbrev pub prior_file : PackageFile
prior_file = file_of "1.0.0" (people ∷ [])

abbrev pub new_file : PackageFile
new_file = file_of "1.1.0" (people₂ ∷ [])

pub distinct : (a b : String) → (a == b) ≡ false → a ≢ b
distinct a b f p = let t = (eq_iff a b).1 p in true≢false (sym t ∙ f)
  where
    true≢false : true ≡ false → ⊥
    true≢false q = cc
