-- ===== src/Upgrade/Late.antt =====
-- lib/src/PackageUtil.ts, `upgradePackageFile`: the steps from schema versions 0.9.0 and 0.31.5.
use datapm.Common.{
  ◌&◌, String, Bool, ◌==◌, ◌&&◌, Result, ok, err, type_error, ◌>>=◌, if◌then◌else◌, not,
}
use datapm.PackageFile.Json.{
  Json, undefined, null, string, object, Members, end, member, get, put, delete, is_null,
}
use datapm.Upgrade.Objects.{read, read_optional, assign, remove, for_of, modify, replace, to_text}

-- `{ ...v, objectProperties: properties }`
abbrev spread_with : Json → Json → Json
spread_with (object m) properties = object (put "objectProperties" properties m)
spread_with _ properties = object (member "objectProperties" properties end)

-- The `if` of `recurseProperties` for one property; `nested` is its `properties` after the call.
unfoldable pub move_properties : Members → Result Json → Result Json
unfolding read read_optional assign get put delete
move_properties m nested = if is_null (get "properties" m) then ok (object m) else do
  object_type ← read "object" (get "types" m)
  if is_null object_type then ok (object m) else do
    properties ← nested
    types ← assign "object" (spread_with object_type properties) (get "types" m)
    ok (object (delete "properties" (put "types" types m)))

-- `recurseProperties`, over the tree of properties.
unfoldable mutual
  unfolding move_properties

  pub recurse_properties : Members → Result Members
  recurse_properties end = ok end
  recurse_properties (member key property rest) = do
    property' ← recurse_property property
    rest' ← recurse_properties rest
    ok (member key property' rest')

  pub recurse_property : Json → Result Json
  recurse_property undefined = err type_error
  recurse_property null = err type_error
  recurse_property (object m) = let nested = recurse_found m in move_properties m nested
  recurse_property v = ok v

  -- The call for the member `properties`.
  pub recurse_found : Members → Result Json
  recurse_found end = ok undefined
  recurse_found (member k v m) =
      let here = recurse_value v in
      let later = recurse_found m in if k == "properties" then here else later

  pub recurse_value : Json → Result Json
  recurse_value undefined = err type_error
  recurse_value null = err type_error
  recurse_value (object ps) = do ps' ← recurse_properties ps; ok (object ps')
  recurse_value v = ok v

unfoldable pub upgrade_090 : Json → Result Json
unfolding read modify for_of recurse_value replace to_text
upgrade_090 file = do
  url ← read "$schema" file
  marked ← assign "$schema" (string (replace (to_text url) "0.9.0" "0.31.5")) file
  modify "schemas" (for_of (modify "properties" recurse_value)) marked

abbrev pub given : String → Json → Bool
given k file = not (is_null (read_optional k file))

-- `"# " + displayName ?? …`: the sum is never null, so what follows it is not used.
abbrev pub no_readme : Json → Json
no_readme file = string ("# " & to_text (read_optional "displayName" file))

-- The four `if` statements of the step.
unfoldable pub drop_readme_file : Json → Result Json
drop_readme_file file =
    if given "readmeFile" file && given "readmeMarkdown" file
    then remove "readmeFile" file
    else ok file

unfoldable pub drop_license_file : Json → Result Json
drop_license_file file =
    if given "licenseFile" file && given "licenseMarkdown" file
    then remove "licenseFile" file
    else ok file

unfoldable pub fill_readme : Json → Result Json
fill_readme file =
    if not (given "readmeFile" file) && not (given "readmeMarkdown" file)
    then assign "readmeMarkdown" (no_readme file) file
    else ok file

unfoldable pub fill_license : Json → Result Json
fill_license file =
    if not (given "licenseFile" file) && not (given "licenseMarkdown" file)
    then assign "licenseMarkdown" (string "No license defined") file
    else ok file

unfoldable pub document_steps : Json → Result Json
unfolding read_optional assign remove to_text drop_readme_file drop_license_file fill_readme
    fill_license
document_steps file = do
  a ← drop_readme_file file
  b ← drop_license_file a
  c ← fill_readme b
  fill_license c

unfoldable pub upgrade_0315 : Json → Result Json
unfolding read assign replace to_text document_steps
upgrade_0315 file = do
  url ← read "$schema" file
  marked ← assign "$schema" (string (replace (to_text url) "0.31.5" "0.32.1")) file
  document_steps marked
