-- ===== src/Upgrade/Reads/Steps.antt =====
-- lib/src/PackageUtil.ts, `upgradePackageFile`: the members of a package file after each step.
use datapm.Common.{
  String, Bool, true, false, Option, none, some, ◌==◌, ◌≡◌, sym, ap, subst, ◌∙◌, Result, ok, ◌>>=◌,
  >>=-eq-ok, ok_injective, if◌then◌else◌,
}
use datapm.PackageFile.Json.{
  Json, undefined, null, boolean, number, string, array, object, Number, get, is_null, get-put,
  get-delete,
}
use datapm.Upgrade.Objects.{
  read, read_optional, assign, remove, modify, write_back, for_of, for_in, replace, to_text,
}
use datapm.Upgrade.Early.{
  schema_url_020, schema_url_030, schema_url_040, upgrade_010, upgrade_020, upgrade_030,
  move_sources, move_sources_into, assign_if, count_schema, clean_statistics,
}
use datapm.Upgrade.Middle.{
  schema_url_050, schema_url_060, schema_url_070, schema_url_080, schema_url_081, upgrade_040,
  upgrade_050, upgrade_060, upgrade_070, upgrade_080, rename_patterns, rename_source_pattern,
  move_uris, share_configuration, set_publish_methods, set_update_methods,
}
use datapm.Upgrade.ValueTypes.{schema_url_090, upgrade_081, set_types, upgrade_schemas}
use datapm.Upgrade.Late.{
  upgrade_090, upgrade_0315, recurse_value, no_readme, document_steps, drop_readme_file,
  drop_license_file, fill_readme, fill_license,
}

pub assign-reads :
    (j : String) (x v w : Json) (k : String)
    → assign j x v ≡ ok w
    → read_optional k w ≡ (if j == k then x else read_optional k v)
unfolding assign read_optional
assign-reads j x (object m) w k e =
    subst (λ r. read_optional k r ≡ (if j == k then x else get k m)) (ok_injective e)
      (get-put j k x m)
assign-reads j x undefined w k e = cc
assign-reads j x null w k e = cc
assign-reads j x (boolean b) w k e = cc
assign-reads j x (number n) w k e = cc
assign-reads j x (string s) w k e = cc
assign-reads j x (array vs) w k e = cc

pub remove-reads :
    (j : String) (v w : Json) (k : String)
    → remove j v ≡ ok w
    → (j == k) ≡ false
    → read_optional k w ≡ read_optional k v
unfolding remove read_optional
remove-reads j (object m) w k e ne =
    subst (λ r. read_optional k r ≡ get k m) (ok_injective e) (rw (get-delete j k m, ne))
remove-reads j undefined w k e ne = cc
remove-reads j null w k e ne = cc
remove-reads j (boolean b) w k e ne = ap (read_optional k) (sym (ok_injective e))
remove-reads j (number n) w k e ne = ap (read_optional k) (sym (ok_injective e))
remove-reads j (string s) w k e ne = ap (read_optional k) (sym (ok_injective e))
remove-reads j (array vs) w k e ne = ap (read_optional k) (sym (ok_injective e))

write_back-reads :
    (j : String) (old new v w : Json) (k : String)
    → write_back j old new v ≡ ok w
    → (j == k) ≡ false
    → read_optional k w ≡ read_optional k v
unfolding write_back
write_back-reads j undefined new v w k e ne = ap (read_optional k) (sym (ok_injective e))
write_back-reads j null new v w k e ne = rw (assign-reads j new v w k e, ne)
write_back-reads j (boolean b) new v w k e ne = rw (assign-reads j new v w k e, ne)
write_back-reads j (number n) new v w k e ne = rw (assign-reads j new v w k e, ne)
write_back-reads j (string s) new v w k e ne = rw (assign-reads j new v w k e, ne)
write_back-reads j (array vs) new v w k e ne = rw (assign-reads j new v w k e, ne)
write_back-reads j (object m) new v w k e ne = rw (assign-reads j new v w k e, ne)

pub modify-reads :
    (j : String) (f : Json → Result Json) (v w : Json) (k : String)
    → modify j f v ≡ ok w
    → (j == k) ≡ false
    → read_optional k w ≡ read_optional k v
unfolding modify
modify-reads j f v w k e ne =
    let (old, _, k₁) = >>=-eq-ok (read j v) (λ o. f o >>= λ n. write_back j o n v) e in
    let (new, _, k₂) = >>=-eq-ok (f old) (λ n. write_back j old n v) k₁ in
    write_back-reads j old new v w k k₂ ne

-- What a step leaves of the member `k`: `$schema` is written, and the rest stays.
abbrev pub Reads : String → String → Json → Json → Type 0
Reads url k v w = read_optional k w ≡ (if "$schema" == k then string url else read_optional k v)

-- A step that writes `$schema` and loops over one member.
mark_modify-Reads :
    (url j : String) (f : Json → Result Json) (v w : Json) (k : String)
    → (assign "$schema" (string url) v >>= λ marked. modify j f marked) ≡ ok w
    → (j == k) ≡ false
    → Reads url k v w
mark_modify-Reads url j f v w k e ne =
    let (marked, e₁, k₁) = >>=-eq-ok (assign "$schema" (string url) v) (λ m. modify j f m) e in
    modify-reads j f marked w k k₁ ne ∙ assign-reads "$schema" (string url) v marked k e₁

pub upgrade_010-Reads :
    (v w : Json) (k : String)
    → upgrade_010 v ≡ ok w
    → ("schemas" == k) ≡ false
    → Reads schema_url_020 k v w
upgrade_010-Reads v w k e ne =
    mark_modify-Reads schema_url_020 "schemas" (for_of count_schema) v w k (unfold upgrade_010 in e)
      ne

assign_if-reads :
    (j : String) (o : Option Json) (v w : Json) (k : String)
    → assign_if j o v ≡ ok w
    → (j == k) ≡ false
    → read_optional k w ≡ read_optional k v
assign_if-reads j none v w k e ne = ap (read_optional k) (sym (ok_injective e))
assign_if-reads j (some x) v w k e ne = rw (assign-reads j x v w k e, ne)

move_sources-Reads :
    (schemas marked w : Json) (k : String)
    → move_sources_into schemas marked ≡ ok w
    → ("schemas" == k) ≡ false
    → ("sources" == k) ≡ false
    → read_optional k w ≡ read_optional k marked
unfolding move_sources_into
move_sources-Reads (array items) marked w k e ne₁ ne₂ =
    let (moved, _, k₁) =
      >>=-eq-ok (move_sources items none)
        (λ p. assign_if "sources" p.1 marked >>= λ filled. assign "schemas" (array p.0) filled) e in
    let (filled, e₂, k₂) =
      >>=-eq-ok (assign_if "sources" moved.1 marked) (λ f. assign "schemas" (array moved.0) f) k₁ in
    rw (assign-reads "schemas" (array moved.0) filled w k k₂, ne₁)
      (assign_if-reads "sources" moved.1 marked filled k e₂ ne₂)
move_sources-Reads (string s) marked w k e ne₁ ne₂ =
    let (_, _, k₁) = >>=-eq-ok (for_of (λ v. ok v) (string s)) (λ _. ok marked) e in
    ap (read_optional k) (sym (ok_injective k₁))
move_sources-Reads undefined marked w k e ne₁ ne₂ = unfold for_of in (cc)
move_sources-Reads null marked w k e ne₁ ne₂ = unfold for_of in (cc)
move_sources-Reads (boolean b) marked w k e ne₁ ne₂ = unfold for_of in (cc)
move_sources-Reads (number n) marked w k e ne₁ ne₂ = unfold for_of in (cc)
move_sources-Reads (object m) marked w k e ne₁ ne₂ = unfold for_of in (cc)

pub upgrade_020-Reads :
    (v w : Json) (k : String)
    → upgrade_020 v ≡ ok w
    → ("schemas" == k) ≡ false
    → ("sources" == k) ≡ false
    → Reads schema_url_030 k v w
unfolding upgrade_020
upgrade_020-Reads v w k e ne₁ ne₂ =
    let (marked, e₁, k₁) =
      >>=-eq-ok (assign "$schema" (string schema_url_030) v)
        (λ m. read "schemas" m >>= λ s. move_sources_into s m) e in
    let (schemas, _, k₂) = >>=-eq-ok (read "schemas" marked) (λ s. move_sources_into s marked) k₁ in
    move_sources-Reads schemas marked w k k₂ ne₁ ne₂
    ∙ assign-reads "$schema" (string schema_url_030) v marked k e₁

pub upgrade_030-Reads :
    (parse_float parse_int : String → Number) (v w : Json) (k : String)
    → upgrade_030 parse_float parse_int v ≡ ok w
    → ("schemas" == k) ≡ false
    → Reads schema_url_040 k v w
upgrade_030-Reads pf pi v w k e ne =
    mark_modify-Reads schema_url_040 "schemas"
      (for_of
        (modify "properties" (for_in (modify "valueTypes" (for_in (clean_statistics pf pi))))))
      v w k (unfold upgrade_030 in e) ne

pub upgrade_040-Reads :
    (v w : Json) (k : String)
    → upgrade_040 v ≡ ok w
    → ("sources" == k) ≡ false
    → Reads schema_url_050 k v w
upgrade_040-Reads v w k e ne =
    mark_modify-Reads schema_url_050 "sources" (for_of move_uris) v w k (unfold upgrade_040 in e) ne

pub upgrade_050-Reads :
    (v w : Json) (k : String)
    → upgrade_050 v ≡ ok w
    → ("sources" == k) ≡ false
    → Reads schema_url_060 k v w
upgrade_050-Reads v w k e ne =
    mark_modify-Reads schema_url_060 "sources" (for_of share_configuration) v w k
      (unfold upgrade_050 in e) ne

pub upgrade_060-Reads :
    (v w : Json) (k : String)
    → upgrade_060 v ≡ ok w
    → ("registries" == k) ≡ false
    → Reads schema_url_070 k v w
upgrade_060-Reads v w k e ne =
    mark_modify-Reads schema_url_070 "registries" set_publish_methods v w k
      (unfold upgrade_060 in e) ne

-- `if (test) v[j] = x`
pub assign_when-reads :
    (test : Bool) (j : String) (x v w : Json) (k : String)
    → (if test then assign j x v else ok v) ≡ ok w
    → (j == k) ≡ false
    → read_optional k w ≡ read_optional k v
assign_when-reads true j x v w k e ne = rw (assign-reads j x v w k e, ne)
assign_when-reads false j x v w k e ne = ap (read_optional k) (sym (ok_injective e))

pub remove_when-reads :
    (test : Bool) (j : String) (v w : Json) (k : String)
    → (if test then remove j v else ok v) ≡ ok w
    → (j == k) ≡ false
    → read_optional k w ≡ read_optional k v
remove_when-reads true j v w k e ne = remove-reads j v w k e ne
remove_when-reads false j v w k e ne = ap (read_optional k) (sym (ok_injective e))

pub upgrade_070-Reads :
    (v w : Json) (k : String)
    → upgrade_070 v ≡ ok w
    → ("canonical" == k) ≡ false
    → Reads schema_url_080 k v w
unfolding upgrade_070
upgrade_070-Reads v w k e ne =
    let set = λ (m c : Json). if is_null c then assign "canonical" (boolean true) m else ok m in
    let (marked, e₁, k₁) =
      >>=-eq-ok (assign "$schema" (string schema_url_080) v) (λ m. read "canonical" m >>= set m)
        e in
    let (canonical, _, k₂) = >>=-eq-ok (read "canonical" marked) (set marked) k₁ in
    assign_when-reads (is_null canonical) "canonical" (boolean true) marked w k k₂ ne
    ∙ assign-reads "$schema" (string schema_url_080) v marked k e₁

pub upgrade_080-Reads :
    (v w : Json) (k : String)
    → upgrade_080 v ≡ ok w
    → ("sources" == k) ≡ false
    → Reads schema_url_081 k v w
upgrade_080-Reads v w k e ne =
    mark_modify-Reads schema_url_081 "sources"
      (for_of (modify "streamSets" (for_of set_update_methods))) v w k (unfold upgrade_080 in e) ne

pub rename_patterns-reads :
    (shared : Bool) (v w : Json) (k : String)
    → rename_patterns shared v ≡ ok w
    → ("sources" == k) ≡ false
    → read_optional k w ≡ read_optional k v
rename_patterns-reads shared v w k e ne =
    modify-reads "sources" (for_of (rename_source_pattern shared)) v w k
      (unfold rename_patterns in e) ne

set_types-Reads :
    (schemas marked w : Json) (k : String)
    → set_types schemas marked ≡ ok w
    → ("schemas" == k) ≡ false
    → read_optional k w ≡ read_optional k marked
unfolding set_types
set_types-Reads (array items) marked w k e ne =
    let (items', _, k₁) =
      >>=-eq-ok (upgrade_schemas items 0 items) (λ p. assign "schemas" (array p) marked) e in
    rw (assign-reads "schemas" (array items') marked w k k₁, ne)
set_types-Reads (string s) marked w k e ne =
    let (_, _, k₁) = >>=-eq-ok (for_of (λ v. ok v) (string s)) (λ _. ok marked) e in
    ap (read_optional k) (sym (ok_injective k₁))
set_types-Reads undefined marked w k e ne = unfold for_of in (cc)
set_types-Reads null marked w k e ne = unfold for_of in (cc)
set_types-Reads (boolean b) marked w k e ne = unfold for_of in (cc)
set_types-Reads (number n) marked w k e ne = unfold for_of in (cc)
set_types-Reads (object m) marked w k e ne = unfold for_of in (cc)

pub upgrade_081-Reads :
    (v w : Json) (k : String)
    → upgrade_081 v ≡ ok w
    → ("schemas" == k) ≡ false
    → Reads schema_url_090 k v w
unfolding upgrade_081
upgrade_081-Reads v w k e ne =
    let (marked, e₁, k₁) =
      >>=-eq-ok (assign "$schema" (string schema_url_090) v)
        (λ m. read "schemas" m >>= λ s. set_types s m) e in
    let (schemas, _, k₂) = >>=-eq-ok (read "schemas" marked) (λ s. set_types s marked) k₁ in
    set_types-Reads schemas marked w k k₂ ne
    ∙ assign-reads "$schema" (string schema_url_090) v marked k e₁

pub read-eq : (k : String) (v x : Json) → read k v ≡ ok x → read_optional k v ≡ x
unfolding read read_optional
read-eq k undefined x e = cc
read-eq k null x e = cc
read-eq k (object m) x e = ok_injective e
read-eq k (boolean b) x e = ok_injective e
read-eq k (number n) x e = ok_injective e
read-eq k (string s) x e = ok_injective e
read-eq k (array vs) x e = ok_injective e

-- The steps that rewrite the version in the URL itself.
pub upgrade_090-Reads :
    (v w : Json) (k : String)
    → upgrade_090 v ≡ ok w
    → ("schemas" == k) ≡ false
    → Reads (replace (to_text (read_optional "$schema" v)) "0.9.0" "0.31.5") k v w
unfolding upgrade_090
upgrade_090-Reads v w k e ne =
    let rest = λ (url : Json).
      assign "$schema" (string (replace (to_text url) "0.9.0" "0.31.5")) v >>= λ m.
      modify "schemas" (for_of (modify "properties" recurse_value)) m in
    let (url, e₁, k₁) = >>=-eq-ok (read "$schema" v) rest e in
    subst (λ u. Reads (replace (to_text u) "0.9.0" "0.31.5") k v w)
      (sym (read-eq "$schema" v url e₁))
      (mark_modify-Reads (replace (to_text url) "0.9.0" "0.31.5") "schemas"
        (for_of (modify "properties" recurse_value)) v w k k₁ ne)

-- No member of the readme or the license.
pub record IsNotDocument (k : String) : Type 0 where
  pub readme_file : ("readmeFile" == k) ≡ false
  pub readme_markdown : ("readmeMarkdown" == k) ≡ false
  pub license_file : ("licenseFile" == k) ≡ false
  pub license_markdown : ("licenseMarkdown" == k) ≡ false

document_steps-reads :
    (file w : Json) (k : String)
    → document_steps file ≡ ok w
    → IsNotDocument k
    → read_optional k w ≡ read_optional k file
unfolding document_steps
document_steps-reads file w k e d =
    let (a, e₁, k₁) =
      >>=-eq-ok (drop_readme_file file)
        (λ a. drop_license_file a >>= λ b. fill_readme b >>= fill_license) e in
    let (b, e₂, k₂) = >>=-eq-ok (drop_license_file a) (λ b. fill_readme b >>= fill_license) k₁ in
    let (c, e₃, k₃) = >>=-eq-ok (fill_readme b) fill_license k₂ in
    assign_when-reads _ "licenseMarkdown" (string "No license defined") c w k
      (unfold fill_license in k₃) d.license_markdown
    ∙ (assign_when-reads _ "readmeMarkdown" (no_readme b) b c k (unfold fill_readme in e₃)
          d.readme_markdown
        ∙ (remove_when-reads _ "licenseFile" a b k (unfold drop_license_file in e₂) d.license_file
            ∙ remove_when-reads _ "readmeFile" file a k (unfold drop_readme_file in e₁)
                d.readme_file))

pub upgrade_0315-Reads :
    (v w : Json) (k : String)
    → upgrade_0315 v ≡ ok w
    → IsNotDocument k
    → Reads (replace (to_text (read_optional "$schema" v)) "0.31.5" "0.32.1") k v w
unfolding upgrade_0315
upgrade_0315-Reads v w k e d =
    let rest = λ (url : Json).
      assign "$schema" (string (replace (to_text url) "0.31.5" "0.32.1")) v >>= document_steps in
    let (url, e₁, k₁) = >>=-eq-ok (read "$schema" v) rest e in
    let (marked, e₂, k₂) =
      >>=-eq-ok (assign "$schema" (string (replace (to_text url) "0.31.5" "0.32.1")) v)
        document_steps k₁ in
    subst (λ u. Reads (replace (to_text u) "0.31.5" "0.32.1") k v w)
      (sym (read-eq "$schema" v url e₁))
      (document_steps-reads marked w k k₂ d
        ∙ assign-reads "$schema" (string (replace (to_text url) "0.31.5" "0.32.1")) v marked k e₂)
