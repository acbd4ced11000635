-- ===== src/PackageFile.antt =====
-- lib/src/PackageFile-v0.32.1.ts: the package file. An absent optional member is `none`.
-- Objects with free keys are lists of entries in the order of `Object.keys`. Counts, lengths and
-- times (milliseconds) are natural numbers; a number that is only carried along is a `Number`.
pub mod Json
pub mod PropertyTree
use PropertyTree.{Properties}
use datapm.Common.{ℕ, String, Bool, Option, List}

pub data CountPrecision : Type 0 where
  exact approximate greater_than : CountPrecision

pub data PublishMethod : Type 0 where
  schema_only schema_and_data schema_proxy_data : PublishMethod

-- DataHandlingUtil.ts
pub data UpdateMethod : Type 0 where
  batch_full_set append_only_log continuous : UpdateMethod

pub record StreamStats : Type 0 where
  pub byte_count : Option ℕ
  pub byte_count_precision : Option CountPrecision
  pub inspected_count : ℕ
  pub record_count : Option ℕ
  pub record_count_precision : Option CountPrecision

pub record RegistryReference : Type 0 where
  pub url : String
  pub catalog_slug : String
  pub publish_method : PublishMethod

pub record StreamSet : Type 0 where
  pub slug : String
  pub schema_titles : List String
  pub last_update_hash : Option String
  pub stream_stats : StreamStats
  pub update_methods : List UpdateMethod
  pub end_reached : Option Bool

-- A `DPMConfiguration`: the members of a JSON object.
abbrev pub DpmConfiguration : Type 0
DpmConfiguration = Json.Members

pub record Source : Type 0 where
  pub type : String
  pub slug : String
  pub connection_configuration : DpmConfiguration
  pub credentials_identifier : Option String
  pub configuration : Option DpmConfiguration
  pub update_configuration : Option DpmConfiguration
  pub stream_sets : List StreamSet

pub record MajorVersionIdentifier : Type 0 where
  pub registry_url : String
  pub catalog_slug : String
  pub package_slug : String
  pub major_version : ℕ

pub record SchemaIdentifier : Type 0 where
  pub version_identifier : MajorVersionIdentifier
  pub schema_title : String

pub record DerivedFrom : Type 0 where
  pub display_name : String
  pub url : Option String
  pub schema_identifier : Option SchemaIdentifier

pub record Schema : Type 0 where
  pub title : String
  pub description : Option String
  pub properties : Properties
  pub hidden : Option Bool
  pub records_inspected_count : Option ℕ
  pub record_count : Option ℕ
  pub records_not_present : Option ℕ
  pub record_count_precision : Option CountPrecision
  pub sample_records : Option (List Json.Members)
  pub derived_from_description : Option String
  pub derived_from : Option (List DerivedFrom)
  pub unit : Option String
  pub update_methods : Option (List UpdateMethod)

pub record PackageFile : Type 0 where
  pub schema_url : String
  pub canonical : Bool
  pub modified_properties : Option (List String)
  pub package_slug : String
  pub display_name : String
  pub description : String
  pub sources : List Source
  pub schemas : List Schema
  pub version : String
  pub generated_by : String
  pub updated_date : ℕ
  pub readme_file : Option String
  pub readme_markdown : Option String
  pub license_file : Option String
  pub license_markdown : Option String
  pub website : Option String
  pub contact_email : Option String
  pub registries : Option (List RegistryReference)
