-- ===== src/Upgrade/Documents.antt =====
-- lib/src/PackageUtil.ts, `upgradePackageFile`: the readme and the license after the step from
-- schema version 0.31.5.
use mathlib.Core.Bool.{not}
use datapm.Common.{
  String, Bool, true, false, ◌==◌, ◌≡◌, refl, ◌∙◌, ◌&&◌, arith, ok, if◌then◌else◌, Bool-cases, inl,
  inr, ◌⊎◌,
}
use datapm.PackageFile.Json.{
  Json, undefined, string, object, Members, get, put, delete, is_null, get-put, get-delete,
}
use datapm.Upgrade.Objects.{read_optional}
use datapm.Upgrade.Late.{given, no_readme, document_steps}

-- One document after both of its steps: the file reference `f` is dropped if there is the text
-- `t` too, and without either the text `fresh` is filled in.
file_after : Json → Json → Json
file_after f t = if not (is_null f) && not (is_null t) then undefined else f

module _ (f t fresh : Json) where
  text_after : Json
  text_after = if not (not (is_null f)) && not (not (is_null t)) then fresh else t

  -- Exactly one of the two is there.
  exactly_one :
      is_null fresh ≡ false → not (is_null (file_after f t)) ≡ not (not (is_null text_after))
  unfolding file_after text_after
  exactly_one h = ground arith

-- The step on an object is its four statements on the members.
drop : String → String → Members → Members
drop f t m = if not (is_null (get f m)) && not (is_null (get t m)) then delete f m else m

fill : String → String → Json → Members → Members
fill f t fresh m =
    if not (not (is_null (get f m))) && not (not (is_null (get t m))) then put t fresh m else m

drop-get :
    (f t : String) (m : Members) (k : String)
    → get k (drop f t m) ≡ (
        if f == k
        then (if not (is_null (get f m)) && not (is_null (get t m)) then undefined else get k m)
        else get k m)
unfolding drop
drop-get f t m k = elim (Bool-cases (not (is_null (get f m)) && not (is_null (get t m)))) [
  | inl e ↦ rw (e, get-delete f k m)
  | inr e ↦ rw e (same (f == k) (get k m))
]
  where
    same : (b : Bool) (v : Json) → v ≡ (if b then v else v)
    same true v = refl
    same false v = refl

fill-get :
    (f t : String) (fresh : Json) (m : Members) (k : String)
    → get k (fill f t fresh m) ≡ (
        if t == k
        then (if not (not (is_null (get f m))) && not (not (is_null (get t m)))
            then fresh
            else get k m)
        else get k m)
unfolding fill
fill-get f t fresh m k =
    elim (Bool-cases (not (not (is_null (get f m))) && not (not (is_null (get t m))))) [
      | inl e ↦ rw (e, get-put t k fresh m)
      | inr e ↦ rw e (same (t == k) (get k m))
    ]
  where
    same : (b : Bool) (v : Json) → v ≡ (if b then v else v)
    same true v = refl
    same false v = refl

no_license : Json
no_license = string "No license defined"

result_of : Members → Members
result_of m =
    let a = drop "licenseFile" "licenseMarkdown" (drop "readmeFile" "readmeMarkdown" m) in
    fill "licenseFile" "licenseMarkdown" no_license
      (fill "readmeFile" "readmeMarkdown" (no_readme (object a)) a)

branch :
    (b : Bool) (x y : Members)
    → (if b then ok (object x) else ok (object y)) ≡ ok (object (if b then x else y))
branch true x y = refl
branch false x y = refl

document_steps-result : (m : Members) → document_steps (object m) ≡ ok (object (result_of m))
unfolding document_steps result_of drop fill no_license
document_steps-result m = rw branch (rw branch (rw branch (rw branch)))

-- The text is filled in as if the reference had not been dropped before.
filled_same :
    (f t fresh : Json)
    → (if not (not (is_null (file_after f t))) && not (not (is_null t)) then fresh else t)
      ≡ text_after f t fresh
unfolding file_after text_after
filled_same f t fresh = ground arith

module _ (m : Members) where
  readme_file_after :
      get "readmeFile" (result_of m) ≡ file_after (get "readmeFile" m) (get "readmeMarkdown" m)
  unfolding result_of file_after
  readme_file_after = simp (fill-get, drop-get)

  readme_text_after :
      get "readmeMarkdown" (result_of m)
      ≡ text_after (get "readmeFile" m) (get "readmeMarkdown" m) (no_readme (object m))
  unfolding result_of read_optional
  readme_text_after =
      simp (fill-get, drop-get)
        (unfold file_after in
          filled_same (get "readmeFile" m) (get "readmeMarkdown" m) (no_readme (object m)))

  license_file_after :
      get "licenseFile" (result_of m) ≡ file_after (get "licenseFile" m) (get "licenseMarkdown" m)
  unfolding result_of file_after
  license_file_after = simp (fill-get, drop-get)

  license_text_after :
      get "licenseMarkdown" (result_of m)
      ≡ text_after (get "licenseFile" m) (get "licenseMarkdown" m) no_license
  unfolding result_of
  license_text_after =
      simp (fill-get, drop-get)
        (unfold file_after in
          filled_same (get "licenseFile" m) (get "licenseMarkdown" m) no_license)

  -- The statements of the step to the current version on the readme and the license of an object
  -- return an object that has either a readme file or a readme text, and not both; the same of
  -- the license; and texts that were there are kept.
  pub documents_exclusive :
      (w : Members) × (document_steps (object m) ≡ ok (object w))
      × (given "readmeFile" (object w) ≡ not (given "readmeMarkdown" (object w)))
      × (given "licenseFile" (object w) ≡ not (given "licenseMarkdown" (object w)))
      × ((given "readmeMarkdown" (object m) ≡ false)
          ⊎ (get "readmeMarkdown" w ≡ get "readmeMarkdown" m))
      × ((given "licenseMarkdown" (object m) ≡ false)
          ⊎ (get "licenseMarkdown" w ≡ get "licenseMarkdown" m))
  unfolding read_optional
  documents_exclusive = (
    result_of m,
    document_steps-result m,
    rw (readme_file_after, readme_text_after)
        (exactly_one (get "readmeFile" m) (get "readmeMarkdown" m) (no_readme (object m)) refl),
    rw (license_file_after, license_text_after)
        (exactly_one (get "licenseFile" m) (get "licenseMarkdown" m) no_license
          (unfold no_license in refl)),
    elim (Bool-cases (given "readmeMarkdown" (object m))) [
      | inl h ↦ inr (readme_text_after ∙ kept (get "readmeFile" m) (get "readmeMarkdown" m) _ h)
      | inr n ↦ inl n
    ],
    elim (Bool-cases (given "licenseMarkdown" (object m))) [
      | inl h ↦ inr (license_text_after ∙ kept (get "licenseFile" m) (get "licenseMarkdown" m) _ h)
      | inr n ↦ inl n
    ],
  )
    where
      kept : (f t fresh : Json) → not (is_null t) ≡ true → text_after f t fresh ≡ t
      kept f t fresh h = unfold text_after in (ground arith)
