-- ===== src/Tests/Values.antt =====
-- Casts of values, and statistics of values, at concrete inputs.
use datapm.Common.{
  ◌⊎◌, ℕ, String, true, false, none, some, List, [], ◌∷◌, length, ◌≡◌, refl, All, ok, err, ◌==◌,
  type_error, if◌then◌else◌, Bool-cases, inl, inr, ◌||◌, ltb, any, Unique,
}
use datapm.PackageFile.Json.{Number}
use datapm.PackageFile.PropertyTree.{
  no_properties, entry, lookup_property, ValueTypes, no_types, value_type, statistics,
  without_types, without_properties, DpmPropertyType, count, nan,
}
use datapm.Combine.Values.{NumberOrder}
use datapm.Combine.Trees.{lookup_type, has_type}
use datapm.Deconflict.Choices.{DeconflictOptions, cast_to_integer, skip}
use datapm.Deconflict.Values.{RecordValue, text, number, Language}
use datapm.Deconflict.Casts.{resolve_conflict}
use datapm.Deconflict.CastTypes.{conforms, is_null, resolve_conflict-IsCast}
use datapm.Deconflict.Records.{RecordStreamContext, deconflict_chunks}
use datapm.Deconflict.Deconflicted.{AreDeconflicted, deconflict_chunks-AreDeconflicted}
use datapm.Deconflict.Sanitized.{sanitize_chunks, has_member, sanitize_chunks-hidden}
use datapm.PackageFile.{Schema}
use datapm.Tests.Packages.{text_property, schema_of}
use datapm.Stats.Updates.{Measures, count_option}
use datapm.Stats.Types.{Nothing, fresh, fresh_scalars, inspect_values, updated}
use datapm.Stats.Options.{text_stats}
use datapm.Stats.Counts.{
  tally, occurrences, expected_count, option_name, is_long, text_stats-counts,
}
use datapm.Combine.Labels.{option_count}
use datapm.Stats.Lost.{inspect_values-loses}

-- Numbers with a decimal point are told by their texts, and two lengths are.
abbrev language : {C : Type 0} → Language C
language = record {
  has_point = λ s. s == "1.5";
  positive = λ n. n.text == "1.5";
  round = λ n. if n.text == "1.5" then record { text = "2" } else n;
  to_number = λ s. record { text = s };
  parse_int = λ s. record { text = s };
  date_of = λ n. none;
  is_number = λ s. s == "1.5";
  lower_trimmed = λ s. s;
  date_text = λ d. "a date";
  contents_text = λ c. "";
  iso_text = λ d. ok "a date";
  stringify = λ c. err type_error;
  time_text = λ t. "0";
  utc_date = λ v. none;
  matches_date = λ s. false;
}

abbrev measures : {C : Type 0} → Measures C
measures = record {
  text_length = λ s. if s == "abc" then 3 else 1;
  array_length = λ c. 0;
  parse_number = λ s. record { text = s };
  part_lengths = λ s. 1 ∷ [];
  new_date = λ s. none;
  text_precision = λ s. none;
}

abbrev order : NumberOrder
order = record { is_number = λ n. true; below = λ m n. false }

abbrev half : Number
half = record { text = "1.5" }

abbrev two : Number
two = record { text = "2" }

abbrev whole : Number
whole = record { text = "7" }

round_twice :
    (n : Number)
    → (language {C = Nothing}).round ((language {C = Nothing}).round n)
      ≡ (language {C = Nothing}).round n
round_twice n = elim (Bool-cases (n.text == "1.5")) [ inl t ↦ rw t refl | inr f ↦ rw f (rw f refl) ]

half_as_integer :
    resolve_conflict {C = Nothing} language (number half) cast_to_integer
    ≡ ok (record { skip_record = false; value = number two })
unfolding resolve_conflict
half_as_integer = refl

resolve_conflict-IsCast_example :
    (conforms {C = Nothing} language DpmPropertyType.integer (number two) ≡ true)
    × (is_null {C = Nothing} (number two) ≡ false)
resolve_conflict-IsCast_example =
    resolve_conflict-IsCast language round_twice (number half) cast_to_integer
      (record { skip_record = false; value = number two }) half_as_integer refl

abbrev record_of : ℕ → RecordValue Nothing → RecordStreamContext Nothing ℕ
record_of n value = record { context = n; record_members = ("age", value) ∷ [] }

abbrev skip_texts : List (String × DeconflictOptions)
skip_texts = ("age", skip) ∷ []

records_sent :
    deconflict_chunks language skip_texts (record_of 1 (text "x") ∷ record_of 2 (number whole) ∷ [])
    ≡ ok (record_of 2 (number whole) ∷ [])
unfolding deconflict_chunks resolve_conflict
records_sent = refl

deconflict_chunks-AreDeconflicted_example :
    AreDeconflicted language skip_texts
      (record_of 1 (text "x") ∷ record_of 2 (number whole) ∷ [])
      (record_of 2 (number whole) ∷ [])
deconflict_chunks-AreDeconflicted_example =
    deconflict_chunks-AreDeconflicted language round_twice skip_texts
      (record_of 1 (text "x") ∷ record_of 2 (number whole) ∷ []) (record_of 2 (number whole) ∷ [])
      (tt, tt) records_sent

abbrev texts : List String
texts = "abc" ∷ "toString" ∷ "abc" ∷ []

-- The second text is the name of a member that each object has.
tally_of_texts : tally texts [] ≡ ("abc", count 2) ∷ ("toString", nan) ∷ []
unfolding tally count_option
tally_of_texts = refl

text_stats-counts_example :
    ((text_stats {C = Nothing} language measures order texts fresh_scalars).string_options ≡ (
      if any (is_long {C = Nothing} language measures order) texts
        || ltb 50 (length (tally texts []))
      then none
      else some (tally texts [])))
    × Unique option_name (tally texts [])
    × ((k : String) → option_count k (tally texts []) ≡ expected_count k (occurrences k texts))
text_stats-counts_example =
    text_stats-counts {C = Nothing} language measures order texts fresh_scalars refl

-- Statistics of numbers that have counted a thousand values.
abbrev thousand : ValueTypes
thousand =
    value_type DpmPropertyType.number
      (statistics (record fresh_scalars { record_count = some 1000 }) without_types
        without_properties)
      no_types

thousand-numbers : has_type DpmPropertyType.number thousand ≡ true
unfolding has_type
thousand-numbers = refl

thousand-integers : has_type DpmPropertyType.integer thousand ≡ false
unfolding has_type
thousand-integers = refl

inspect_values-loses_example :
    (out : ValueTypes) × (inspect_values language measures order
        (number whole ∷ number half ∷ [])
        thousand
      ≡ ok out)
    × (lookup_type DpmPropertyType.number out
        ≡ some (updated language measures order (number whole) DpmPropertyType.number (some fresh)))
inspect_values-loses_example =
    inspect_values-loses language measures order whole half thousand refl refl thousand-numbers
      thousand-integers

-- A schema that hides the names of people.
abbrev hiding : Schema
hiding = schema_of "people" (entry "name" (text_property "name" (some true)) no_properties)

abbrev person : List (String × RecordValue Nothing) → RecordStreamContext Nothing String
person members = record { context = "people"; record_members = members }

name_hidden :
    sanitize_chunks
      (λ slug. slug)
      (hiding ∷ [])
      (person (("name", text "x") ∷ ("age", number whole) ∷ []) ∷ [])
    ≡ ok (person (("age", number whole) ∷ []) ∷ [])
unfolding sanitize_chunks
name_hidden = refl

name_there : lookup_property "name" hiding.properties ≡ some (text_property "name" (some true))
unfolding lookup_property
name_there = refl

sanitize_chunks-hidden_example :
    All
      (λ chunk.
        ((chunk.context == "people") ≡ false) ⊎ (has_member "name" chunk.record_members ≡ false))
      (person (("age", number whole) ∷ []) ∷ [])
sanitize_chunks-hidden_example =
    sanitize_chunks-hidden (λ slug. slug) (hiding ∷ [])
      (person (("name", text "x") ∷ ("age", number whole) ∷ []) ∷ [])
      (person (("age", number whole) ∷ []) ∷ []) "people" "name" hiding
      (text_property "name" (some true)) refl name_there refl (refl, tt) name_hidden
