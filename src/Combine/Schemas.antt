-- ===== src/Combine/Schemas.antt =====
-- client-lib/src/util/SchemaUtil.ts: `combineSchemas` and `combineSchema`.
use datapm.Common.{
  String, Bool, Option, none, some, List, [], ◌∷◌, ◌++◌, if◌then◌else◌, ◌==◌, any, find,
}
use datapm.PackageFile.{Schema}
use datapm.Combine.Values.{NumberOrder, last_then_first, either_flag, sum_or_null}
use datapm.Combine.Labels.{combine_sample_records}
use datapm.Combine.Trees.{combine_properties}

abbrev pub titled : String → List Schema → Bool
titled title schemas = any (λ (s : Schema). s.title == title) schemas

-- The second loop, from a value of `returnValue`.
unfoldable pub add_new_schemas : List Schema → List Schema → List Schema
add_new_schemas schemas [] = schemas
add_new_schemas schemas (n ∷ new) =
    add_new_schemas (if titled n.title schemas then schemas else schemas ++ (n ∷ [])) new

module _ (order : NumberOrder) where
  -- The result has no `updateMethods`.
  unfoldable pub combine_schema : Schema → Schema → Schema
  unfolding last_then_first either_flag sum_or_null combine_sample_records combine_properties
  combine_schema existing new = record {
    title = existing.title;
    description = last_then_first existing.description new.description;
    properties = combine_properties order existing.properties new.properties;
    hidden = either_flag existing.hidden new.hidden;
    records_inspected_count =
        sum_or_null existing.records_inspected_count new.records_inspected_count;
    record_count = new.record_count;
    records_not_present = sum_or_null existing.records_not_present new.records_not_present;
    record_count_precision = new.record_count_precision;
    sample_records = combine_sample_records existing.sample_records new.sample_records;
    derived_from_description =
        last_then_first existing.derived_from_description new.derived_from_description;
    derived_from = last_then_first existing.derived_from new.derived_from;
    unit = last_then_first existing.unit new.unit;
    update_methods = none;
  }

  unfoldable pub combine_found : Schema → Option Schema → Schema
  unfolding combine_schema
  combine_found existing none = existing
  combine_found existing (some new) = combine_schema existing new

  -- The first loop of `combineSchemas`.
  unfoldable pub combined_schemas : List Schema → List Schema → List Schema
  unfolding combine_found
  combined_schemas [] new = []
  combined_schemas (e ∷ es) new =
      combine_found e (find (λ (s : Schema). s.title == e.title) new) ∷ combined_schemas es new

  unfoldable pub combine_schemas : List Schema → List Schema → List Schema
  unfolding combined_schemas add_new_schemas
  combine_schemas existing new = add_new_schemas (combined_schemas existing new) new
