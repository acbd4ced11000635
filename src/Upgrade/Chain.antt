-- ===== src/Upgrade/Chain.antt =====
-- lib/src/PackageUtil.ts, `upgradePackageFile`: the chain of the steps.
use datapm.Common.{String, Bool, Result, ok, err, type_error, ◌>>=◌, if◌then◌else◌}
use datapm.PackageFile.Json.{Json, string, Number, is_null}
use datapm.Upgrade.Objects.{read, read_optional, is_text, ends_with}
use datapm.Upgrade.Early.{
  schema_url_020, schema_url_030, upgrade_010, upgrade_020, upgrade_030, schema_url_040,
}
use datapm.Upgrade.Middle.{
  schema_url_050, schema_url_060, schema_url_070, schema_url_080, schema_url_081, upgrade_040,
  upgrade_050, upgrade_060, upgrade_070, upgrade_080, rename_patterns,
}
use datapm.Upgrade.ValueTypes.{upgrade_081}
use datapm.Upgrade.Late.{upgrade_090, upgrade_0315}

abbrev pub current_schema_url : String
current_schema_url = "https://datapm.io/docs/package-file-schema-v0.32.1.json"

-- `if ($schema === url) …`
abbrev pub at_version : String → Json → (Json → Result Json) → Result Json
at_version url file step =
    let next = step file in if is_text url (read_optional "$schema" file) then next else ok file

-- `if ((url as string).endsWith(end)) …`: what is no text has no such method.
unfoldable pub made_if_ends : Json → String → Json → (Json → Result Json) → Result Json
unfolding ends_with
made_if_ends (string url) ending file step =
    let next = step file in if ends_with url ending then next else ok file
made_if_ends _ ending file step = err type_error

abbrev pub at_ending : String → Json → (Json → Result Json) → Result Json
at_ending ending file step = made_if_ends (read_optional "$schema" file) ending file step

-- The rest of the chain from each version on, the last first.
unfoldable pub from_0315 : Json → Result Json
unfolding read_optional made_if_ends upgrade_0315
from_0315 file = at_ending "v0.31.5.json" file upgrade_0315

unfoldable pub from_090 : Json → Result Json
unfolding read_optional made_if_ends upgrade_090 from_0315
from_090 file = at_ending "v0.9.0.json" file upgrade_090 >>= from_0315

unfoldable pub from_081 : Bool → Json → Result Json
unfolding read_optional rename_patterns upgrade_081 from_090
from_081 shared file = do
  renamed ← at_version schema_url_081 file (rename_patterns shared)
  typed ← at_version schema_url_081 renamed upgrade_081
  from_090 typed

unfoldable pub from_080 : Bool → Json → Result Json
unfolding read_optional upgrade_080 from_081
from_080 shared file = at_version schema_url_080 file upgrade_080 >>= from_081 shared

unfoldable pub from_070 : Bool → Json → Result Json
unfolding read_optional upgrade_070 from_080
from_070 shared file = at_version schema_url_070 file upgrade_070 >>= from_080 shared

unfoldable pub from_060 : Bool → Json → Result Json
unfolding read_optional upgrade_060 from_070
from_060 shared file = at_version schema_url_060 file upgrade_060 >>= from_070 shared

-- From here on `connectionConfiguration` is shared with `configuration`, if the step is made.
unfoldable pub from_050 : Json → Result Json
unfolding read_optional upgrade_050 from_060
from_050 file =
    at_version schema_url_050 file upgrade_050
    >>= from_060 (is_text schema_url_050 (read_optional "$schema" file))

unfoldable pub from_040 : Json → Result Json
unfolding read_optional upgrade_040 from_050
from_040 file = at_version schema_url_040 file upgrade_040 >>= from_050

-- The first step.
unfoldable pub from_010 : Json → Json → Result Json
unfolding upgrade_010
from_010 url file = let next = upgrade_010 file in if is_null url then next else ok file

module _ (parse_float parse_int : String → Number) where
  unfoldable pub from_030 : Json → Result Json
  unfolding read_optional upgrade_030 from_040
  from_030 file = at_version schema_url_030 file (upgrade_030 parse_float parse_int) >>= from_040

  unfoldable pub from_020 : Json → Result Json
  unfolding read_optional upgrade_020 from_030
  from_020 file = at_version schema_url_020 file upgrade_020 >>= from_030

  unfoldable pub upgrade_package_file : Json → Result Json
  unfolding read from_010 from_020
  upgrade_package_file file = do
    url ← read "$schema" file
    file₂ ← from_010 url file
    from_020 file₂
