-- ===== src/Compare/Severity.antt =====
-- lib/src/PackageUtil.ts: `diffCompatibility` against a table of severities.
use datapm.Common.{List, [], ◌∷◌, ◌≡◌, refl, arith, ok, All, Any, ◌↔◌, ◌⊎◌, inl, inr, ap, sym, ◌∙◌}
use datapm.Compare.Difference.{
  Compability, identical, minor_change, compatible_change, breaking_change, DifferenceType,
  Difference, remove_property, remove_schema, change_property_format, change_property_type,
  hide_property, add_property, add_schema, unhide_property, change_source_uris,
  change_stream_update_hash, change_stream_stats, change_generated_by, change_updated_date,
  change_readme_file, change_license_file, change_stream_update_method, least_compatible,
  apply_difference, compatibility_from, diff_compatibility,
}

-- Differences that a client of the data can be broken by.
abbrev pub IsBreaking : DifferenceType → Type 0
IsBreaking remove_property = Unit
IsBreaking remove_schema = Unit
IsBreaking change_property_format = Unit
IsBreaking change_property_type = Unit
IsBreaking hide_property = Unit
IsBreaking _ = ⊥

-- All types but the one of old package files, which `diffCompatibility` does not know.
abbrev pub IsMapped : DifferenceType → Type 0
IsMapped change_source_uris = ⊥
IsMapped _ = Unit

abbrev pub AllMapped : List Difference → Type 0
AllMapped ds = All (λ d. IsMapped d.type) ds

pub least_compatible_comm : (a b : Compability) → least_compatible a b ≡ least_compatible b a
unfolding least_compatible
least_compatible_comm a b = ground arith

-- The severities, as a table.
unfoldable pub severity : DifferenceType → Compability
severity remove_property = breaking_change
severity remove_schema = breaking_change
severity change_property_format = breaking_change
severity change_property_type = breaking_change
severity hide_property = breaking_change
severity add_property = compatible_change
severity add_schema = compatible_change
severity unhide_property = compatible_change
severity change_stream_update_hash = identical
severity change_stream_stats = identical
severity change_generated_by = identical
severity change_updated_date = identical
severity change_readme_file = identical
severity change_license_file = identical
severity change_stream_update_method = identical
severity _ = minor_change

apply_difference-eq :
    (v : Compability) (t : DifferenceType)
    → IsMapped t
    → apply_difference v t ≡ ok (least_compatible v (severity t))
unfolding apply_difference least_compatible severity
apply_difference-eq identical remove_schema h = refl
apply_difference-eq identical change_source_uris h = absurd h
apply_difference-eq identical _ h = refl
apply_difference-eq minor_change remove_schema h = refl
apply_difference-eq minor_change change_source_uris h = absurd h
apply_difference-eq minor_change _ h = refl
apply_difference-eq compatible_change remove_schema h = refl
apply_difference-eq compatible_change change_source_uris h = absurd h
apply_difference-eq compatible_change _ h = refl
apply_difference-eq breaking_change remove_schema h = refl
apply_difference-eq breaking_change change_source_uris h = absurd h
apply_difference-eq breaking_change _ h = refl

mapped? : (t : DifferenceType) → IsMapped t ⊎ (t ≡ change_source_uris)
mapped? change_source_uris = inr refl
mapped? remove_schema = inl tt
mapped? _ = inl tt

-- A list that `diffCompatibility` accepts has no difference that it does not know.
AllMapped-of_ok :
    (v : Compability) (ds : List Difference) {c : Compability}
    → compatibility_from v ds ≡ ok c
    → AllMapped ds
unfolding compatibility_from
AllMapped-of_ok v [] h = tt
AllMapped-of_ok v (d ∷ ds) h = elim (mapped? d.type) [
  | inl m ↦ (
    m,
    AllMapped-of_ok (least_compatible v (severity d.type)) ds
        (rw (apply_difference-eq v d.type m) at h),
  )
  | inr e ↦ absurd (unfold apply_difference in (let x = rw e at h in cc))
]

pub diff_compatibility-AllMapped :
    (ds : List Difference) {c : Compability} → diff_compatibility ds ≡ ok c → AllMapped ds
unfolding diff_compatibility
diff_compatibility-AllMapped ds h = AllMapped-of_ok identical ds h

breaking_of_severity : (t : DifferenceType) → severity t ≡ breaking_change → IsBreaking t
unfolding severity
breaking_of_severity remove_property h = tt
breaking_of_severity remove_schema h = tt
breaking_of_severity change_property_format h = tt
breaking_of_severity change_property_type h = tt
breaking_of_severity hide_property h = tt
breaking_of_severity _ h = cc

severity_of_breaking : (t : DifferenceType) → IsBreaking t → severity t ≡ breaking_change
unfolding severity
severity_of_breaking remove_property h = refl
severity_of_breaking remove_schema h = refl
severity_of_breaking change_property_format h = refl
severity_of_breaking change_property_type h = refl
severity_of_breaking hide_property h = refl
severity_of_breaking _ h = absurd h

least_compatible-eq-breaking :
    (a b : Compability)
    → least_compatible a b ≡ breaking_change
    → (a ≡ breaking_change) ⊎ (b ≡ breaking_change)
unfolding least_compatible
least_compatible-eq-breaking a b h = ground arith

breaking_least_compatible : (b : Compability) → least_compatible breaking_change b ≡ breaking_change
unfolding least_compatible
breaking_least_compatible b = ground arith

least_compatible_breaking : (a : Compability) → least_compatible a breaking_change ≡ breaking_change
unfolding least_compatible
least_compatible_breaking a = ground arith

-- What a result of `breaking_change` tells of the differences, from any start.
breaking_sound :
    (v : Compability) (ds : List Difference)
    → compatibility_from v ds ≡ ok breaking_change
    → (v ≡ breaking_change) ⊎ Any (λ d. IsBreaking d.type) ds
unfolding compatibility_from
breaking_sound v [] h = inl (cc)
breaking_sound v (d ∷ ds) h = elim (mapped? d.type) [
  | inl m ↦ decide (
      breaking_sound (least_compatible v (severity d.type)) ds
        (rw (apply_difference-eq v d.type m) at h))
  | inr e ↦ absurd (unfold apply_difference in (let x = rw e at h in cc))
]
  where
    decide :
        (least_compatible v (severity d.type) ≡ breaking_change) ⊎ Any (λ d. IsBreaking d.type) ds
        → (v ≡ breaking_change) ⊎ Any (λ d. IsBreaking d.type) (d ∷ ds)
    decide (inr later) = inr (inr later)
    decide (inl p) = elim (least_compatible-eq-breaking v (severity d.type) p) [
      | inl q ↦ inl q
      | inr q ↦ inr (inl (breaking_of_severity d.type q))
    ]

compatibility_from-total :
    (v : Compability) (ds : List Difference)
    → AllMapped ds
    → (c : Compability) × (compatibility_from v ds ≡ ok c)
unfolding compatibility_from
compatibility_from-total v [] h = (v, refl)
compatibility_from-total v (d ∷ ds) (m, h) =
    rw (apply_difference-eq v d.type m)
      (compatibility_from-total (least_compatible v (severity d.type)) ds h)

breaking_stays :
    (ds : List Difference)
    → AllMapped ds
    → compatibility_from breaking_change ds ≡ ok breaking_change
unfolding compatibility_from
breaking_stays [] h = refl
breaking_stays (d ∷ ds) (m, h) =
    rw (apply_difference-eq breaking_change d.type m, breaking_least_compatible)
      (breaking_stays ds h)

breaking_complete :
    (v : Compability) (ds : List Difference)
    → AllMapped ds
    → Any (λ d. IsBreaking d.type) ds
    → compatibility_from v ds ≡ ok breaking_change
unfolding compatibility_from
breaking_complete v [] h b = elim b [ ]
breaking_complete v (d ∷ ds) (m, h) (inl b) =
    rw (apply_difference-eq v d.type m, severity_of_breaking d.type b, least_compatible_breaking)
      (breaking_stays ds h)
breaking_complete v (d ∷ ds) (m, h) (inr b) =
    rw (apply_difference-eq v d.type m)
      (breaking_complete (least_compatible v (severity d.type)) ds h b)

-- If no difference is of the type that `diffCompatibility` does not know, it returns, and it
-- returns `BreakingChange` exactly when the list has a difference that breaks a client.
pub diff_compatibility-breaking :
    (ds : List Difference)
    → AllMapped ds
    → (c : Compability) × (diff_compatibility ds ≡ ok c)
      × ((c ≡ breaking_change) ↔ Any (λ d. IsBreaking d.type) ds)
unfolding diff_compatibility
diff_compatibility-breaking ds h =
    let (c, e) = compatibility_from-total identical ds h in
    (
      c,
      e,
      (
        λ p. first (breaking_sound identical ds (e ∙ ap ok p)),
        λ b. same c (sym e ∙ breaking_complete identical ds h b),
      ),
    )
  where
    first :
        (identical ≡ breaking_change) ⊎ Any (λ d. IsBreaking d.type) ds
        → Any (λ d. IsBreaking d.type) ds
    first (inl p) = cc
    first (inr b) = b

    same : (c : Compability) → ok c ≡ ok breaking_change → c ≡ breaking_change
    same c p = cc
