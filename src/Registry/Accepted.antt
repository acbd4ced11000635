-- ===== src/Registry/Accepted.antt =====
-- backend/src/business/CreateVersion.ts: what an accepted upload means for the versions of a package.
use datapm.Common.{
  ℕ, String, Bool, true, false, Option, none, some, List, [], ◌∷◌, ◌++◌, ◌≡◌, ◌≢◌, refl, sym, ap,
  subst, ◌∙◌, ◌⊎◌, inl, inr, ok, err, Error, >>=-eq-ok, ok_injective, if◌then◌else◌, not, nat_eq,
  ◌&&◌, Bool-cases, All,
}
use datapm.PackageFile.{PackageFile}
use datapm.PackageFile.Json.{Json, Number}
use datapm.Compare.Difference.{
  Compability, identical, minor_change, compatible_change, breaking_change, Difference,
  diff_compatibility,
}
use datapm.Compare.Sources.{DeepEqual, compare_packages}
use datapm.Compare.Compatible.{KeptSchema, compatible-keeps_properties}
use datapm.Upgrade.Chain.{upgrade_package_file}
use datapm.Registry.Versions.{
  event_type_of, comparison_effects, is_empty, SemVerPackage, Effect, touch_version, save_version,
  update_readme_vectors, create_activity_log, save_version_comparison, write_package_file, Answers,
  Decision, Comparison, lower, same, higher, next_version, proposed_version, decide_by, decide,
  finish, create_or_update_version, is_higher, version_trivial_change, version_updated,
  version_created, ActivityLogEventType,
}

-- The package files of the versions that are saved, and the events that are logged.
module _ {V : Type 0} where
  abbrev pub saved : List (Effect V) → List PackageFile
  saved [] = []
  saved (save_version id p ∷ es) = p ∷ saved es
  saved (_ ∷ es) = saved es

  abbrev pub logged : List (Effect V) → List ActivityLogEventType
  logged [] = []
  logged (create_activity_log event change id ∷ es) = event ∷ logged es
  logged (_ ∷ es) = logged es

gate {ℓ} :
    {A : Type ℓ} (low : Comparison) (refusal : Error) (x d : A)
    → (if is_higher low then err refusal else ok x) ≡ ok d
    → (low ≢ higher) × (d ≡ x)
gate lower refusal x d e = (λ p. cc, ok_injective (sym e))
gate same refusal x d e = (λ p. cc, ok_injective (sym e))
gate higher refusal x d e = cc

if_ok {ℓ} :
    {A : Type ℓ} (b : Bool) (refusal : Error) (x d : A)
    → (if b then ok x else err refusal) ≡ ok d
    → x ≡ d
if_ok true refusal x d e = ok_injective e
if_ok false refusal x d e = cc

append_nil {ℓ} : {A : Type ℓ} (xs : List A) → xs ++ [] ≡ xs
append_nil [] = refl
append_nil (x ∷ xs) = ap (λ zs. x ∷ zs) (append_nil xs)

module _ {V : Type 0} where
  saved-append : (xs ys : List (Effect V)) → saved (xs ++ ys) ≡ saved xs ++ saved ys
  saved-append [] ys = refl
  saved-append (touch_version id ∷ xs) ys = saved-append xs ys
  saved-append (save_version id p ∷ xs) ys = ap (λ zs. p ∷ zs) (saved-append xs ys)
  saved-append (update_readme_vectors r ∷ xs) ys = saved-append xs ys
  saved-append (create_activity_log event change id ∷ xs) ys = saved-append xs ys
  saved-append (save_version_comparison a b ds ∷ xs) ys = saved-append xs ys
  saved-append (write_package_file v file ∷ xs) ys = saved-append xs ys

  logged-append : (xs ys : List (Effect V)) → logged (xs ++ ys) ≡ logged xs ++ logged ys
  logged-append [] ys = refl
  logged-append (touch_version id ∷ xs) ys = logged-append xs ys
  logged-append (save_version id p ∷ xs) ys = logged-append xs ys
  logged-append (update_readme_vectors r ∷ xs) ys = logged-append xs ys
  logged-append (create_activity_log event change id ∷ xs) ys =
      ap (λ zs. event ∷ zs) (logged-append xs ys)
  logged-append (save_version_comparison a b ds ∷ xs) ys = logged-append xs ys
  logged-append (write_package_file v file ∷ xs) ys = logged-append xs ys

module _ (semver : SemVerPackage) where
  -- A breaking change is accepted only when the proposed version is not below the next major one.
  decide_by-breaking :
      (name : String) (latest_id saved_id : ℕ) (new : PackageFile) (ds : List Difference)
      (latest copy proposed : semver.SemVer) (d : Decision semver.SemVer)
      → decide_by semver name latest_id saved_id new ds latest
          (semver.inc_major copy)
          proposed
          breaking_change
        ≡ ok d
      → semver.compare (semver.inc_major copy) (semver.version proposed) ≢ higher
  unfolding decide_by
  decide_by-breaking name latest_id saved_id new ds latest copy proposed d e =
      (gate (semver.compare (semver.inc_major copy) (semver.version proposed)) _ _ d e).0

  -- What the decision comes to for each compatibility.
  decide_by-cases :
      (name : String) (latest_id saved_id : ℕ) (new : PackageFile) (ds : List Difference)
      (latest min proposed : semver.SemVer) (c : Compability) (d : Decision semver.SemVer)
      → decide_by semver name latest_id saved_id new ds latest min proposed c ≡ ok d
      → ((c ≡ identical)
          × (d.change_type ≡ version_trivial_change)
          × (d.effects ≡ touch_version latest_id ∷ []))
        ⊎ ((c ≢ identical)
            × (event_type_of d.change_type ≡ version_created)
            × (d.effects ≡ save_version saved_id new ∷ [])
            × (semver.compare min (semver.version proposed) ≢ higher))
  unfolding decide_by
  decide_by-cases name latest_id saved_id new ds latest min proposed identical d e =
      let k = ok_injective (sym e) in inl (refl, ap (λ x. x.change_type) k, ap (λ x. x.effects) k)
  decide_by-cases name latest_id saved_id new ds latest min proposed minor_change d e =
      let (allowed, k) = gate (semver.compare min (semver.version proposed)) _ _ d e in
      inr (λ p. cc, ap (λ x. event_type_of x.change_type) k, ap (λ x. x.effects) k, allowed)
  decide_by-cases name latest_id saved_id new ds latest min proposed compatible_change d e =
      let (allowed, k) = gate (semver.compare min (semver.version proposed)) _ _ d e in
      inr (λ p. cc, ap (λ x. event_type_of x.change_type) k, ap (λ x. x.effects) k, allowed)
  decide_by-cases name latest_id saved_id new ds latest min proposed breaking_change d e =
      let (allowed, k) = gate (semver.compare min (semver.version proposed)) _ _ d e in
      inr (λ p. cc, ap (λ x. event_type_of x.change_type) k, ap (λ x. x.effects) k, allowed)

  module _ (deep_equal : DeepEqual) (name : String) (answers : Answers)
      (parse_float parse_int : String → Number) (as_package_file : Json → PackageFile) where
    -- What a call that returns has found, when there is a latest version.
    decide-parts :
        (latest_id : ℕ) (prior new : PackageFile) (latest proposed : semver.SemVer)
        (d : Decision semver.SemVer)
        → answers.stored_package_file ≡ ok prior
        → semver.make prior.version ≡ ok latest
        → decide semver deep_equal name answers (some latest_id) new proposed ≡ ok d
        → (ds : List Difference) × (c : Compability) × (min : semver.SemVer) × (compare_packages
              deep_equal prior new
            ≡ ok ds)
          × (diff_compatibility ds ≡ ok c)
          × (next_version semver latest c ≡ ok min)
          × (decide_by semver name latest_id answers.saved_id new ds latest min proposed c ≡ ok d)
    unfolding decide
    decide-parts latest_id prior new latest proposed d e₁ e₂ e =
        let after = rw e₂ at (rw e₁ at e) in
        let (ds, e₃, k₁) = >>=-eq-ok (compare_packages deep_equal prior new) _ after in
        let (c, e₄, k₂) = >>=-eq-ok (diff_compatibility ds) _ k₁ in
        let (min, e₅, k₃) = >>=-eq-ok (next_version semver latest c) _ k₂ in
        (ds, c, min, e₃, e₄, e₅, k₃)

    create-decides :
        (raw upgraded : Json) (proposed : semver.SemVer) (effects : List (Effect semver.SemVer))
        → proposed_version semver raw ≡ ok proposed
        → upgrade_package_file parse_float parse_int raw ≡ ok upgraded
        → create_or_update_version semver deep_equal name answers parse_float parse_int
            as_package_file raw
          ≡ ok effects
        → (d : Decision semver.SemVer) × (decide semver deep_equal name answers
              answers.latest_version
              (as_package_file upgraded)
              proposed
            ≡ ok d)
          × (finish semver deep_equal name answers (as_package_file upgraded) upgraded proposed d
              ≡ ok effects)
    unfolding create_or_update_version
    create-decides raw upgraded proposed effects v u e =
        >>=-eq-ok
          (decide semver deep_equal name answers answers.latest_version (as_package_file upgraded)
            proposed)
          _ (rw u at (rw v at e))

    comparison_effects-silent :
        (latest : Option ℕ) (d : Decision semver.SemVer)
        → (saved (comparison_effects semver deep_equal name answers latest d) ≡ [])
          × (logged (comparison_effects semver deep_equal name answers latest d) ≡ [])
    comparison_effects-silent none d = (refl, refl)
    comparison_effects-silent (some id) d =
        elim (Bool-cases (not (is_empty d.differences) && not (nat_eq id d.saved_version))) [
          | inl t ↦ (rw t, rw t)
          | inr f ↦ (rw f, rw f)
        ]

    finish-effects :
        (new : PackageFile) (upgraded : Json) (proposed : semver.SemVer)
        (d : Decision semver.SemVer) (effects : List (Effect semver.SemVer))
        → finish semver deep_equal name answers new upgraded proposed d ≡ ok effects
        → (saved effects ≡ saved d.effects)
          × (logged effects ≡ logged d.effects ++ (event_type_of d.change_type ∷ []))
    unfolding finish
    finish-effects new upgraded proposed d effects e =
        let (found, _, k) = >>=-eq-ok answers.package_found _ e in
        let compared = comparison_effects semver deep_equal name answers answers.latest_version d in
        let (no_saves, no_logs) = comparison_effects-silent answers.latest_version d in
        let whole = if_ok answers.recalled _ _ effects k in
        let written = write_package_file proposed upgraded ∷ [] in
        (
          sym (ap saved whole)
              ∙ saved-append d.effects _
              ∙ ap (λ zs. saved d.effects ++ zs)
                  (saved-append compared written ∙ ap (λ zs. zs ++ []) no_saves)
              ∙ append_nil (saved d.effects),
          sym (ap logged whole)
              ∙ logged-append d.effects _
              ∙ ap (λ zs. logged d.effects ++ (event_type_of d.change_type ∷ zs))
                  (logged-append compared written ∙ ap (λ zs. zs ++ []) no_logs),
        )

    -- If an upload is accepted for a package that has a latest version, and the proposed version is
    -- below the next major version of that one, then every schema of the stored package file that
    -- is not hidden has a schema of its title in the uploaded one; and every property of a schema,
    -- against every new schema of that title, is absent only if it was hidden, has the same value
    -- types on both sides, and is hidden in the new schema only if it was.
    pub accepted-keeps_properties :
        (raw upgraded : Json) (latest_id : ℕ) (prior : PackageFile)
        (latest copy proposed : semver.SemVer) (effects : List (Effect semver.SemVer))
        → answers.latest_version ≡ some latest_id
        → answers.stored_package_file ≡ ok prior
        → semver.make prior.version ≡ ok latest
        → semver.make (semver.version latest) ≡ ok copy
        → proposed_version semver raw ≡ ok proposed
        → upgrade_package_file parse_float parse_int raw ≡ ok upgraded
        → create_or_update_version semver deep_equal name answers parse_float parse_int
            as_package_file raw
          ≡ ok effects
        → semver.compare (semver.inc_major copy) (semver.version proposed) ≡ higher
        → All (KeptSchema (as_package_file upgraded).schemas) prior.schemas
    unfolding next_version
    accepted-keeps_properties raw upgraded latest_id prior latest copy proposed effects some_latest
          stored made copied v u e below =
        let (d, decided, _) = create-decides raw upgraded proposed effects v u e in
        let new = as_package_file upgraded in
        let (ds, c, min, compared, rated, next, chosen) =
          decide-parts latest_id prior new latest proposed d stored made (
            subst (λ o. decide semver deep_equal name answers o new proposed ≡ ok d) some_latest
              decided) in
        compatible-keeps_properties deep_equal prior new ds c compared rated (λ breaking.
          decide_by-breaking name latest_id answers.saved_id new ds latest copy proposed d
            (subst
              (λ x.
                decide_by semver name latest_id answers.saved_id new ds latest x proposed
                  breaking_change
                ≡ ok d)
              (next_of_breaking min
                (subst (λ x. next_version semver latest x ≡ ok min) breaking next))
              (subst
                (λ x.
                  decide_by semver name latest_id answers.saved_id new ds latest min proposed x
                  ≡ ok d)
                breaking chosen))
            below)
      where
        next_of_breaking :
            (min : semver.SemVer)
            → next_version semver latest breaking_change ≡ ok min
            → min ≡ semver.inc_major copy
        next_of_breaking min n = sym (ok_injective (rw copied at n))

    -- If an upload is accepted for a package that has a latest version, the comparison with it gives
    -- a compatibility. If that is `Identical`, no version is saved and one event is logged,
    -- `VERSION_UPDATED`; if not, the uploaded package file alone is saved as a version, its
    -- `VERSION_CREATED` alone is logged, and the proposed version is not below the one that
    -- `nextVersion` gives for that compatibility.
    pub accepted-saves :
        (raw upgraded : Json) (latest_id : ℕ) (prior : PackageFile)
        (latest proposed : semver.SemVer) (effects : List (Effect semver.SemVer))
        → answers.latest_version ≡ some latest_id
        → answers.stored_package_file ≡ ok prior
        → semver.make prior.version ≡ ok latest
        → proposed_version semver raw ≡ ok proposed
        → upgrade_package_file parse_float parse_int raw ≡ ok upgraded
        → create_or_update_version semver deep_equal name answers parse_float parse_int
            as_package_file raw
          ≡ ok effects
        → let new = as_package_file upgraded in
          (ds : List Difference) × (c : Compability) × (min : semver.SemVer) × (compare_packages
              deep_equal prior new
            ≡ ok ds)
          × (diff_compatibility ds ≡ ok c)
          × (next_version semver latest c ≡ ok min)
          × (((c ≡ identical) × (saved effects ≡ []) × (logged effects ≡ version_updated ∷ []))
              ⊎ ((c ≢ identical)
                  × (saved effects ≡ new ∷ [])
                  × (logged effects ≡ version_created ∷ [])
                  × (semver.compare min (semver.version proposed) ≢ higher)))
    accepted-saves raw upgraded latest_id prior latest proposed effects some_latest stored made v u
          e =
        let (d, decided, finished) = create-decides raw upgraded proposed effects v u e in
        let new = as_package_file upgraded in
        let (ds, c, min, compared, rated, next, chosen) =
          decide-parts latest_id prior new latest proposed d stored made (
            subst (λ o. decide semver deep_equal name answers o new proposed ≡ ok d) some_latest
              decided) in
        let (saves, logs) = finish-effects new upgraded proposed d effects finished in
        (
          ds,
          c,
          min,
          compared,
          rated,
          next,
          elim (decide_by-cases name latest_id answers.saved_id new ds latest min proposed c d
              chosen) [
                | inl (unchanged, trivial, touched) ↦ inl (
                  unchanged,
                  saves ∙ ap saved touched,
                  logs
                      ∙ ap (λ es. logged es ++ (event_type_of d.change_type ∷ [])) touched
                      ∙ ap (λ t. event_type_of t ∷ []) trivial,
                )
                | inr (changed, created, stored_new, allowed) ↦ inr (
                  changed,
                  saves ∙ ap saved stored_new,
                  logs
                      ∙ ap (λ es. logged es ++ (event_type_of d.change_type ∷ [])) stored_new
                      ∙ ap (λ event. event ∷ []) created,
                  allowed,
                )
              ],
        )
