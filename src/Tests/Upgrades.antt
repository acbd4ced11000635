-- ===== src/Tests/Upgrades.antt =====
-- The upgrade of old package files at concrete inputs.
use datapm.Common.{String, false, some, ◌≡◌, refl, Result, ok, err, inl, inr, not, ◌⊎◌}
use datapm.PackageFile.Json.{
  Json, null, string, object, array, Items, empty, item, Members, member, end, get, Number,
}
use datapm.Upgrade.Objects.{read_optional}
use datapm.Upgrade.Early.{upgrade_020, source_of_schema}
use datapm.Upgrade.Late.{document_steps, given}
use datapm.Upgrade.Chain.{upgrade_package_file, current_schema_url}
use datapm.Upgrade.Reads.Whole.{upgrade-carries}
use datapm.Upgrade.Reads.Version.{IsReleased, upgrade-current}
use datapm.Upgrade.Documents.{documents_exclusive}
use datapm.Upgrade.Returns.{upgrade-returns}
use datapm.Upgrade.Sources.{last_of, sources_of, LacksConfiguration, upgrade_020-last_source}

abbrev as_number : String → Number
as_number s = record { text = s }

abbrev schema : Json
schema = object (member "title" (string "people") (member "properties" (object end) end))

-- A package file of version 0.9.0, and what becomes of it.
abbrev old_file : Json
old_file = object (
    member "$schema" (string "https://datapm.io/docs/package-file-schema-v0.9.0.json") (
      member "displayName" (string "People") (
        member "schemas" (array (item schema empty)) (
          member "readmeFile" (string "README.md")
            (member "readmeMarkdown" (string "Hello") end)))))

abbrev current_file : Json
current_file = object (
    member "$schema" (string current_schema_url) (
      member "displayName" (string "People") (
        member "schemas" (array (item schema empty)) (
          member "readmeMarkdown" (string "Hello")
            (member "licenseMarkdown" (string "No license defined") end)))))

upgraded : upgrade_package_file as_number as_number old_file ≡ ok current_file
unfolding upgrade_package_file
upgraded = refl

upgrade-carries_example :
    read_optional "displayName" current_file ≡ read_optional "displayName" old_file
upgrade-carries_example =
    upgrade-carries "displayName"
      (record {
        schemas = refl;
        sources = refl;
        registries = refl;
        canonical = refl;
        document = record {
          readme_file = refl;
          readme_markdown = refl;
          license_file = refl;
          license_markdown = refl;
        };
      })
      refl as_number as_number old_file current_file upgraded

released : IsReleased (read_optional "$schema" old_file)
unfolding read_optional get
released = inr (inr (inr (inr (inr (inr (inr (inr (inr (inl refl)))))))))

upgrade-current_example : read_optional "$schema" current_file ≡ string current_schema_url
upgrade-current_example =
    upgrade-current as_number as_number old_file current_file released upgraded

abbrev documents : Members
documents = member "readmeFile" (string "README.md") (member "readmeMarkdown" (string "Hello") end)

documents_exclusive_example :
    (w : Members) × (document_steps (object documents) ≡ ok (object w))
    × (given "readmeFile" (object w) ≡ not (given "readmeMarkdown" (object w)))
    × (given "licenseFile" (object w) ≡ not (given "licenseMarkdown" (object w)))
    × ((given "readmeMarkdown" (object documents) ≡ false)
        ⊎ (get "readmeMarkdown" w ≡ get "readmeMarkdown" documents))
    × ((given "licenseMarkdown" (object documents) ≡ false)
        ⊎ (get "licenseMarkdown" w ≡ get "licenseMarkdown" documents))
documents_exclusive_example = documents_exclusive documents

abbrev schema_from : String → String → Json
schema_from title uri = object (
    member "title" (string title) (
      member "source" (object (member "uri" (string uri) (member "type" (string "http") end))) end))

abbrev two_schemas : Items
two_schemas = item (schema_from "a" "http://a") (item (schema_from "b" "http://b") empty)

abbrev file_020 : Members
file_020 = member "schemas" (array two_schemas) end

abbrev value_or_null : Result Json → Json
value_or_null (ok v) = v
value_or_null (err e) = null

unfoldable upgraded_020 : Json
unfolding upgrade_020
upgraded_020 = value_or_null (upgrade_020 (object file_020))

abbrev last_source : Json
last_source =
    source_of_schema (schema_from "b" "http://b")
      (object (member "uri" (string "http://b") (member "type" (string "http") end)))

upgraded_from_020 : upgrade_020 (object file_020) ≡ ok upgraded_020
unfolding upgrade_020 upgraded_020
upgraded_from_020 = refl

schemas_020 : get "schemas" file_020 ≡ array two_schemas
unfolding get
schemas_020 = refl

last_of_two : last_of (sources_of two_schemas) ≡ some last_source
unfolding source_of_schema read_optional get
last_of_two = refl

upgrade_020-last_source_example :
    read_optional "sources" upgraded_020 ≡ array (item last_source empty)
upgrade_020-last_source_example =
    upgrade_020-last_source file_020 two_schemas upgraded_020 last_source schemas_020 last_of_two
      upgraded_from_020

abbrev bare_sources : Items
bare_sources = item (object (member "slug" (string "web") end)) empty

sources_040 : get "sources" (member "sources" (array bare_sources) end) ≡ array bare_sources
unfolding get
sources_040 = refl

lacks_040 : LacksConfiguration bare_sources
unfolding get
lacks_040 = inl refl

abbrev file_0315 : Members
file_0315 =
    member "$schema" (string "https://datapm.io/docs/package-file-schema-v0.31.5.json")
      (member "displayName" (string "People") end)

schema_0315 :
    get "$schema" file_0315 ≡ string "https://datapm.io/docs/package-file-schema-v0.31.5.json"
unfolding get
schema_0315 = refl

upgrade-returns_example :
    (w : Members) × (upgrade_package_file as_number as_number (object file_0315) ≡ ok (object w))
    × (get "$schema" w ≡ string current_schema_url)
upgrade-returns_example = upgrade-returns as_number as_number file_0315 schema_0315
