-- ===== src/Upgrade/Returns.antt =====
-- lib/src/PackageUtil.ts, `upgradePackageFile`: package files whose upgrade returns.
use datapm.Common.{String, ◌≡◌, ap, ◌∙◌, ok, ◌>>=◌, inl, inr}
use datapm.PackageFile.Json.{Json, string, object, Members, Number, get, put}
use datapm.Upgrade.Objects.{read, read_optional, assign, ends_with, replace, to_text}
use datapm.Upgrade.Late.{upgrade_0315, document_steps}
use datapm.Upgrade.Chain.{
  upgrade_package_file, from_010, from_020, from_030, from_040, from_050, from_060, from_070,
  from_080, from_081, from_090, from_0315, made_if_ends, current_schema_url,
}
use datapm.Upgrade.Documents.{documents_exclusive}
use datapm.Upgrade.Reads.Version.{upgrade-current}

abbrev url_0315 : String
url_0315 = "https://datapm.io/docs/package-file-schema-v0.31.5.json"

-- What the last step does to an object returns one.
step_returns :
    (m : Members)
    → (w : Members) × ((assign "$schema" (string current_schema_url) (object m) >>= document_steps)
        ≡ ok (object w))
unfolding assign
step_returns m =
    let (w, e, _, _, _, _) = documents_exclusive (put "$schema" (string current_schema_url) m) in
    (w, e)

module _ (parse_float parse_int : String → Number) where
  only_last_step :
      (v : Json)
      → read "$schema" v ≡ ok (string url_0315)
      → read_optional "$schema" v ≡ string url_0315
      → upgrade_package_file parse_float parse_int v
        ≡ (assign "$schema" (string current_schema_url) v >>= document_steps)
  unfolding upgrade_package_file from_010 from_020 from_030 from_040 from_050 from_060 from_070
      from_080 from_081 from_090 from_0315 made_if_ends ends_with replace to_text upgrade_0315
  only_last_step v r o = rw (r, o, o, o, o, o, o, o, o, o, o, o, r)

  -- The upgrade of every package file of version 0.31.5 returns a package file, and that has the
  -- `$schema` of the current version.
  pub upgrade-returns :
      (m : Members)
      → get "$schema" m ≡ string url_0315
      → (w : Members) × (upgrade_package_file parse_float parse_int (object m) ≡ ok (object w))
        × (get "$schema" w ≡ string current_schema_url)
  unfolding read read_optional
  upgrade-returns m h =
      let (w, e) = step_returns m in
      let whole = only_last_step (object m) (ap ok h) h ∙ e in
      (
        w,
        whole,
        upgrade-current parse_float parse_int (object m) (object w)
            (inr (inr (inr (inr (inr (inr (inr (inr (inr (inr (inl h))))))))))) whole,
      )
