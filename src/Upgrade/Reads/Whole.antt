-- ===== src/Upgrade/Reads/Whole.antt =====
-- lib/src/PackageUtil.ts, `upgradePackageFile`: the `$schema` that it reaches, and the members that
-- it leaves alone.
use datapm.Common.{
  String, Bool, true, false, ◌==◌, ◌≡◌, sym, ap, ◌∙◌, inl, inr, eq_iff, Result, ok, ◌>>=◌,
  >>=-eq-ok, ok_injective, Bool-cases,
}
use datapm.PackageFile.Json.{
  Json, undefined, null, boolean, number, string, array, object, Number, is_null,
}
use datapm.Upgrade.Objects.{read, read_optional, is_text, ends_with}
use datapm.Upgrade.Early.{schema_url_020, schema_url_030, schema_url_040, upgrade_020, upgrade_030}
use datapm.Upgrade.Middle.{
  schema_url_050, schema_url_060, schema_url_070, schema_url_080, schema_url_081, upgrade_040,
  upgrade_050, upgrade_060, upgrade_070, upgrade_080, rename_patterns,
}
use datapm.Upgrade.ValueTypes.{upgrade_081}
use datapm.Upgrade.Late.{upgrade_090, upgrade_0315}
use datapm.Upgrade.Chain.{
  at_version, made_if_ends, at_ending, from_0315, from_090, from_081, from_080, from_070, from_060,
  from_050, from_040, from_030, from_020, from_010, upgrade_package_file,
}
use datapm.Upgrade.Reads.Steps.{
  Reads, IsNotDocument, upgrade_010-Reads, upgrade_020-Reads, upgrade_030-Reads, upgrade_040-Reads,
  upgrade_050-Reads, upgrade_060-Reads, upgrade_070-Reads, upgrade_080-Reads, rename_patterns-reads,
  upgrade_081-Reads, upgrade_090-Reads, upgrade_0315-Reads,
}

-- A key that no step loops over or writes, `$schema` apart.
pub record IsCarried (k : String) : Type 0 where
  pub schemas : ("schemas" == k) ≡ false
  pub sources : ("sources" == k) ≡ false
  pub registries : ("registries" == k) ≡ false
  pub canonical : ("canonical" == k) ≡ false
  pub document : IsNotDocument k

text_of_test : (url : String) (x : Json) → is_text url x ≡ true → x ≡ string url
text_of_test url (string s) t = ap string ((eq_iff s url).0 t)
text_of_test url undefined t = cc
text_of_test url null t = cc
text_of_test url (boolean b) t = cc
text_of_test url (number n) t = cc
text_of_test url (array vs) t = cc
text_of_test url (object m) t = cc

Carries : String → (Json → Result Json) → Type 0
Carries k f = (v w : Json) → f v ≡ ok w → read_optional k w ≡ read_optional k v

module _ (k : String) (carried : IsCarried k) (other : ("$schema" == k) ≡ false) where
  Carries-bind : (f g : Json → Result Json) → Carries k f → Carries k g → Carries k (λ v. f v >>= g)
  unfolding Carries
  Carries-bind f g cf cg v w e = let (u, e₁, e₂) = >>=-eq-ok (f v) g e in cg u w e₂ ∙ cf v u e₁

  Carries-Reads :
      (url : String) (v w : Json) → Reads url k v w → read_optional k w ≡ read_optional k v
  Carries-Reads url v w h = rw other at h

  -- A step that is made at one version.
  Carries-at :
      (url : String) (f : Json → Result Json) → Carries k f → Carries k (λ v. at_version url v f)
  unfolding Carries
  Carries-at url f cf v w e = elim (Bool-cases (is_text url (read_optional "$schema" v))) [
    | inl t ↦ cf v w (rw t at e)
    | inr n ↦ ap (read_optional k) (sym (ok_injective (rw n at e)))
  ]

  Carries-ending :
      (ending : String) (f : Json → Result Json)
      → Carries k f
      → Carries k (λ v. at_ending ending v f)
  unfolding Carries made_if_ends
  Carries-ending ending f cf v w e = by_url (read_optional "$schema" v) e
    where
      by_url : (x : Json) → made_if_ends x ending v f ≡ ok w → read_optional k w ≡ read_optional k v
      by_url (string s) e = elim (Bool-cases (ends_with s ending)) [
        | inl t ↦ cf v w (rw t at e)
        | inr n ↦ ap (read_optional k) (sym (ok_injective (rw n at e)))
      ]
      by_url undefined e = cc
      by_url null e = cc
      by_url (boolean b) e = cc
      by_url (number n) e = cc
      by_url (array vs) e = cc
      by_url (object m) e = cc

  carried_0315 : Carries k from_0315
  unfolding Carries from_0315
  carried_0315 =
      Carries-ending "v0.31.5.json" upgrade_0315
        λ v w e. Carries-Reads _ v w (upgrade_0315-Reads v w k e carried.document)

  carried_090 : Carries k from_090
  unfolding Carries from_090
  carried_090 =
      Carries-bind (λ v. at_ending "v0.9.0.json" v upgrade_090) from_0315
        (Carries-ending "v0.9.0.json" upgrade_090
          λ v w e. Carries-Reads _ v w (upgrade_090-Reads v w k e carried.schemas))
        carried_0315

  carried_081 : (shared : Bool) → Carries k (from_081 shared)
  unfolding Carries from_081
  carried_081 shared =
      Carries-bind (λ v. at_version schema_url_081 v (rename_patterns shared))
        (λ v. at_version schema_url_081 v upgrade_081 >>= from_090)
        (Carries-at schema_url_081 (rename_patterns shared)
          λ v w e. rename_patterns-reads shared v w k e carried.sources)
        (Carries-bind (λ v. at_version schema_url_081 v upgrade_081) from_090
          (Carries-at schema_url_081 upgrade_081
            λ v w e. Carries-Reads _ v w (upgrade_081-Reads v w k e carried.schemas))
          carried_090)

  carried_080 : (shared : Bool) → Carries k (from_080 shared)
  unfolding Carries from_080
  carried_080 shared =
      Carries-bind (λ v. at_version schema_url_080 v upgrade_080) (from_081 shared)
        (Carries-at schema_url_080 upgrade_080
          λ v w e. Carries-Reads _ v w (upgrade_080-Reads v w k e carried.sources))
        (carried_081 shared)

  carried_070 : (shared : Bool) → Carries k (from_070 shared)
  unfolding Carries from_070
  carried_070 shared =
      Carries-bind (λ v. at_version schema_url_070 v upgrade_070) (from_080 shared)
        (Carries-at schema_url_070 upgrade_070
          λ v w e. Carries-Reads _ v w (upgrade_070-Reads v w k e carried.canonical))
        (carried_080 shared)

  carried_060 : (shared : Bool) → Carries k (from_060 shared)
  unfolding Carries from_060
  carried_060 shared =
      Carries-bind (λ v. at_version schema_url_060 v upgrade_060) (from_070 shared)
        (Carries-at schema_url_060 upgrade_060
          λ v w e. Carries-Reads _ v w (upgrade_060-Reads v w k e carried.registries))
        (carried_070 shared)

  carried_050 : Carries k from_050
  unfolding Carries from_050
  carried_050 v =
      Carries-bind (λ v. at_version schema_url_050 v upgrade_050)
        (from_060 (is_text schema_url_050 (read_optional "$schema" v)))
        (Carries-at schema_url_050 upgrade_050
          λ v w e. Carries-Reads _ v w (upgrade_050-Reads v w k e carried.sources))
        (carried_060 (is_text schema_url_050 (read_optional "$schema" v))) v

  carried_040 : Carries k from_040
  unfolding Carries from_040
  carried_040 =
      Carries-bind (λ v. at_version schema_url_040 v upgrade_040) from_050
        (Carries-at schema_url_040 upgrade_040
          λ v w e. Carries-Reads _ v w (upgrade_040-Reads v w k e carried.sources))
        carried_050

  module _ (parse_float parse_int : String → Number) where
    carried_030 : Carries k (from_030 parse_float parse_int)
    unfolding Carries from_030
    carried_030 =
        Carries-bind (λ v. at_version schema_url_030 v (upgrade_030 parse_float parse_int)) from_040
          (Carries-at schema_url_030 (upgrade_030 parse_float parse_int) λ v w e.
            Carries-Reads _ v w (upgrade_030-Reads parse_float parse_int v w k e carried.schemas))
          carried_040

    carried_020 : Carries k (from_020 parse_float parse_int)
    unfolding Carries from_020
    carried_020 =
        Carries-bind (λ v. at_version schema_url_020 v upgrade_020) (from_030 parse_float parse_int)
          (Carries-at schema_url_020 upgrade_020 λ v w e.
            Carries-Reads _ v w (upgrade_020-Reads v w k e carried.schemas carried.sources))
          carried_030

    carried_010 : (url : Json) → Carries k (from_010 url)
    unfolding Carries from_010
    carried_010 url v w e = elim (Bool-cases (is_null url)) [
      | inl t ↦ Carries-Reads _ v w (upgrade_010-Reads v w k (rw t at e) carried.schemas)
      | inr n ↦ ap (read_optional k) (sym (ok_injective (rw n at e)))
    ]

    -- If the upgrade of a package file returns, every member but `$schema`, the schemas, the
    -- sources, the registries, `canonical` and those of the readme and the license has the value
    -- that it had.
    pub upgrade-carries :
        (v w : Json)
        → upgrade_package_file parse_float parse_int v ≡ ok w
        → read_optional k w ≡ read_optional k v
    unfolding upgrade_package_file
    upgrade-carries v w e =
        let (url, _, e₁) =
          >>=-eq-ok (read "$schema" v) (λ url. from_010 url v >>= from_020 parse_float parse_int)
            e in
        (unfold Carries in
          Carries-bind (from_010 url) (from_020 parse_float parse_int) (carried_010 url) carried_020
            v w e₁)
