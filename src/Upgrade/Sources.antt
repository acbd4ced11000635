-- ===== src/Upgrade/Sources.antt =====
-- lib/src/PackageUtil.ts, `upgradePackageFile`: what becomes of the sources of old package files.
use datapm.Common.{
  String, true, Option, none, some, ◌≡◌, refl, sym, ap, subst, ◌∙◌, ◌⊎◌, inl, inr, Result, ok, err,
  type_error, ◌>>=◌, >>=-eq-ok, ok_injective, if◌then◌else◌, Bool-cases,
}
use datapm.PackageFile.Json.{
  Json, undefined, null, boolean, number, string, array, object, Items, empty, item, Members, get,
  put, is_null, get-put,
}
use datapm.Upgrade.Objects.{read, read_optional, assign, remove, for_items}
use datapm.Upgrade.Early.{
  schema_url_030, has_source, source_of_schema, move_sources, move_sources_into, upgrade_020,
  assign_if,
}
use datapm.Upgrade.Middle.{schema_url_050, move_uris, upgrade_040}
use datapm.Upgrade.Reads.Steps.{assign-reads}

-- The sources that the schemas of a package file name, in order.
abbrev pub sources_of : Items → Items
sources_of empty = empty
sources_of (item schema rest) =
    let later = sources_of rest in
    if has_source schema
    then item (source_of_schema schema (read_optional "source" schema)) later
    else later

abbrev pub last_of : Items → Option Json
last_of empty = none
last_of (item v empty) = some v
last_of (item v (item w vs)) = last_of (item w vs)

-- The one that the step keeps.
kept_source : Option Json → Items → Option Json
kept_source before empty = before
kept_source before (item v vs) = kept_source (some (array (item v empty))) vs

move_sources-kept :
    (items : Items) (before : Option Json) (r : Items × Option Json)
    → move_sources items before ≡ ok r
    → r.1 ≡ kept_source before (sources_of items)
unfolding move_sources kept_source
move_sources-kept empty before r e = ap (λ x. x.1) (sym (ok_injective e))
move_sources-kept (item schema rest) before r e =
    let next =
      if has_source schema
      then some (array (item (source_of_schema schema (read_optional "source" schema)) empty))
      else before in
    let (schema', _, k₁) =
      >>=-eq-ok (if has_source schema then remove "source" schema else ok schema)
        (λ s. move_sources rest next >>= λ m. ok (item s m.0, m.1)) e in
    let (moved, e₂, k₂) = >>=-eq-ok (move_sources rest next) (λ m. ok (item schema' m.0, m.1)) k₁ in
    ap (λ x. x.1) (sym (ok_injective k₂)) ∙ move_sources-kept rest next moved e₂ ∙ split schema
  where
    split :
        (s : Json)
        → kept_source
            (if has_source s
              then some (array (item (source_of_schema s (read_optional "source" s)) empty))
              else before)
            (sources_of rest)
          ≡ kept_source before (sources_of (item s rest))
    split s = elim (Bool-cases (has_source s)) [ inl t ↦ rw t | inr n ↦ rw n ]

kept_source-last :
    (vs : Items) (before : Option Json) (v : Json)
    → last_of vs ≡ some v
    → kept_source before vs ≡ some (array (item v empty))
unfolding kept_source
kept_source-last empty before v e = cc
kept_source-last (item w empty) before v e = ap (λ x. some (array (item x empty))) (same e)
  where
    same : {a b : Json} → some a ≡ some b → a ≡ b
    same e = cc
kept_source-last (item w (item x vs)) before v e =
    kept_source-last (item x vs) (some (array (item w empty))) v e

move_sources_into-last :
    (items : Items) (marked w v : Json)
    → last_of (sources_of items) ≡ some v
    → move_sources_into (array items) marked ≡ ok w
    → read_optional "sources" w ≡ array (item v empty)
unfolding move_sources_into
move_sources_into-last items marked w v last e =
    let (moved, e₁, k₁) =
      >>=-eq-ok (move_sources items none)
        (λ p. assign_if "sources" p.1 marked >>= λ filled. assign "schemas" (array p.0) filled) e in
    let (filled, e₂, k₂) =
      >>=-eq-ok (assign_if "sources" moved.1 marked) (λ f. assign "schemas" (array moved.0) f) k₁ in
    let kept =
      move_sources-kept items none moved e₁ ∙ kept_source-last (sources_of items) none v last in
    assign-reads "schemas" (array moved.0) filled w "sources" k₂
    ∙ assign-reads "sources" (array (item v empty)) marked filled "sources"
        (subst (λ o. assign_if "sources" o marked ≡ ok filled) kept e₂)

-- If the step from schema version 0.2.0 returns for a package file whose schemas are an array, and
-- the last schema that has a source gives the source `v`, then the sources of the result are `v`
-- alone, whatever sources the schemas before it have.
pub upgrade_020-last_source :
    (file : Members) (items : Items) (w v : Json)
    → get "schemas" file ≡ array items
    → last_of (sources_of items) ≡ some v
    → upgrade_020 (object file) ≡ ok w
    → read_optional "sources" w ≡ array (item v empty)
unfolding upgrade_020
upgrade_020-last_source file items w v at last e =
    let marked = object (put "$schema" (string schema_url_030) file) in
    let (s, e₁, k₁) = >>=-eq-ok (read "schemas" marked) (λ s. move_sources_into s marked) e in
    let found : s ≡ array items =
      sym (ok_injective e₁) ∙ get-put "$schema" "schemas" (string schema_url_030) file ∙ at in
    move_sources_into-last items marked w v last
      (subst (λ x. move_sources_into x marked ≡ ok w) found k₁)

-- Some source of a list of sources is an object without `configuration`.
abbrev pub LacksConfiguration : Items → Type 0
LacksConfiguration empty = ⊥
LacksConfiguration (item (object m) vs) =
    (is_null (get "configuration" m) ≡ true) ⊎ LacksConfiguration vs
LacksConfiguration (item _ vs) = LacksConfiguration vs

assign_null : (k : String) (v x : Json) → is_null x ≡ true → assign k v x ≡ err type_error
unfolding assign
assign_null k v undefined h = refl
assign_null k v null h = refl
assign_null k v (boolean b) h = cc
assign_null k v (number n) h = cc
assign_null k v (string s) h = cc
assign_null k v (array vs) h = cc
assign_null k v (object m) h = cc

-- All throws of the step are those of the language.
OnlyTypeErrors : Result Json → Type 0
OnlyTypeErrors (ok v) = Unit
OnlyTypeErrors (err e) = e ≡ type_error

move_uris-OnlyTypeErrors : (v : Json) → OnlyTypeErrors (move_uris v)
unfolding move_uris OnlyTypeErrors
move_uris-OnlyTypeErrors undefined = refl
move_uris-OnlyTypeErrors null = refl
move_uris-OnlyTypeErrors (boolean b) = refl
move_uris-OnlyTypeErrors (number n) = refl
move_uris-OnlyTypeErrors (string s) = refl
move_uris-OnlyTypeErrors (array vs) = refl
move_uris-OnlyTypeErrors (object m) = by_configuration (get "configuration" m)
  where
    by_configuration :
        (c : Json)
        → OnlyTypeErrors
            (assign "uris" (get "uris" m) c >>= λ f. assign "configuration" f (object m))
    by_configuration undefined = refl
    by_configuration null = refl
    by_configuration (boolean b) = refl
    by_configuration (number n) = refl
    by_configuration (string s) = refl
    by_configuration (array vs) = refl
    by_configuration (object c) = tt

move_uris-lacking :
    (m : Members) → is_null (get "configuration" m) ≡ true → move_uris (object m) ≡ err type_error
unfolding move_uris
move_uris-lacking m h = rw (assign_null "uris" (get "uris" m) (get "configuration" m) h)

for_items-lacking : (vs : Items) → LacksConfiguration vs → for_items move_uris vs ≡ err type_error
unfolding for_items
for_items-lacking empty h = elim h [ ]
for_items-lacking (item (object m) vs) (inl h) = rw (move_uris-lacking m h)
for_items-lacking (item (object m) vs) (inr h) =
    later (move_uris (object m)) (move_uris-OnlyTypeErrors (object m)) (for_items-lacking vs h)
  where
    later :
        (r : Result Json)
        → OnlyTypeErrors r
        → for_items move_uris vs ≡ err type_error
        → (r >>= λ v. for_items move_uris vs >>= λ ws. ok (item v ws)) ≡ err type_error
    later (ok v) t e = rw e
    later (err x) t e = unfold OnlyTypeErrors in (ap err t)
for_items-lacking (item undefined vs) h = unfold move_uris in refl
for_items-lacking (item null vs) h = unfold move_uris in refl
for_items-lacking (item (boolean b) vs) h = unfold move_uris in refl
for_items-lacking (item (number n) vs) h = unfold move_uris in refl
for_items-lacking (item (string s) vs) h = unfold move_uris in refl
for_items-lacking (item (array ws) vs) h = unfold move_uris in refl

-- The step from schema version 0.4.0 throws a `TypeError` for every package file whose sources are
-- an array in which some source has no `configuration`, which is optional in that version.
upgrade_040-throws :
    (file : Members) (sources : Items)
    → get "sources" file ≡ array sources
    → LacksConfiguration sources
    → upgrade_040 (object file) ≡ err type_error
unfolding upgrade_040
upgrade_040-throws file sources at h =
    rw (get-put "$schema" "sources" (string schema_url_050) file, at, for_items-lacking sources h)
