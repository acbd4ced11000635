-- ===== src/Deconflict/Resolved.antt =====
-- client-lib/src/util/SchemaUtil.ts: what `updateSchemaWithDeconflictOptions` leaves.
use datapm.Common.{
  String, Bool, true, false, ◌||◌, Option, none, some, List, [], ◌∷◌, ◌≡◌, ◌≢◌, refl, subst, Result,
  ok, err, ◌==◌, ap, sym, ◌∙◌, All, Unique, Error, arith, Bool-cases, inl, inr, eq_iff, >>=-eq-ok,
  ok_injective, ◌⊎◌,
}
use datapm.PackageFile.PropertyTree.{
  DpmPropertyType, Property, property, info, types_of, Properties, no_properties, entry, ValueTypes,
  no_types, value_type,
}
use datapm.Deconflict.Choices.{DeconflictOptions}
use datapm.Deconflict.Updates.{
  find_titled, set_types, only_type, kept_type, is_all, update_found, update_properties, Updated,
}

-- The property has one value type.
abbrev pub has_one_type : Option Property → Bool
has_one_type none = false
has_one_type (some (property i no_types)) = false
has_one_type (some (property i (value_type t s no_types))) = true
has_one_type (some (property i (value_type t s (value_type u r ts)))) = false

-- The property of that title has one value type, unless all of them were asked for.
abbrev pub is_resolved : Properties → String × DeconflictOptions → Bool
is_resolved ps (title, option) = is_all option || has_one_type (find_titled title ps)

abbrev pub option_title : String × DeconflictOptions → String
option_title (title, option) = title

pub different : (a b : String) → a ≢ b → (a == b) ≡ false
different a b d = elim (Bool-cases (a == b)) [ inl e ↦ absurd (d ((eq_iff a b).0 e)) | inr n ↦ n ]

-- Another title is found as before.
find_titled-set_types :
    (title other : String) (types : ValueTypes) (ps : Properties)
    → title ≢ other
    → find_titled other (set_types title types ps) ≡ find_titled other ps
unfolding find_titled set_types
find_titled-set_types title other types no_properties d = refl
find_titled-set_types title other types (entry key p ps) d =
    elim (Bool-cases ((info p).title == title)) [
      | inl e ↦ rw e (
          rw
            (different (info p).title other
              (λ same. d (sym ((eq_iff (info p).title title).0 e) ∙ same)))
            refl)
      | inr n ↦ rw n (ground (arith, find_titled-set_types title other types ps d))
    ]

pub find_titled-set_self :
    (title : String) (types : ValueTypes) (ps : Properties) (p : Property)
    → find_titled title ps ≡ some p
    → find_titled title (set_types title types ps) ≡ some (property (info p) types)
unfolding find_titled set_types
find_titled-set_self title types no_properties p found = cc
find_titled-set_self title types (entry key q ps) p found =
    elim (Bool-cases ((info q).title == title)) [
      | inl e ↦ ground arith
      | inr n ↦ ground (arith, find_titled-set_self title types ps p)
    ]

-- A round that succeeds has found a property, and has left all of them or set its types to one.
pub update_found-inversion :
    (title : String) (option : DeconflictOptions) (ps qs : Properties) (found : Option Property)
    → update_found title option ps found ≡ ok qs
    → (p : Property) × (found ≡ some p)
      × (((is_all option ≡ true) × (qs ≡ ps))
          ⊎ ((kept : DpmPropertyType) × (qs ≡ set_types title (only_type kept (types_of p)) ps)))
unfolding update_found
update_found-inversion title option ps qs none done = cc
update_found-inversion title option ps qs (some p) done = elim (Bool-cases (is_all option)) [
  | inl all ↦ (p, refl, inl (all, ground arith))
  | inr few ↦
      let (kept, e, r) =
        >>=-eq-ok (kept_type title option (types_of p))
          (λ k. ok (set_types title (only_type k (types_of p)) ps)) (ground (arith, few)) in
      (p, refl, inr (kept, sym (ok_injective r)))
]

pub update_found-resolved :
    (title : String) (option : DeconflictOptions) (ps qs : Properties)
    → update_found title option ps (find_titled title ps) ≡ ok qs
    → is_resolved qs (title, option) ≡ true
update_found-resolved title option ps qs done =
    let (p, found, how) = update_found-inversion title option ps qs (find_titled title ps) done in
    elim how [
      | inl (all, same) ↦ ground (arith, all)
      | inr (kept, set) ↦
          rw (set, find_titled-set_self title (only_type kept (types_of p)) ps p found)
            (ground arith)
    ]

pub update_found-others :
    (title other : String) (option : DeconflictOptions) (ps qs : Properties)
    → title ≢ other
    → update_found title option ps (find_titled title ps) ≡ ok qs
    → find_titled other qs ≡ find_titled other ps
update_found-others title other option ps qs d done =
    let (p, found, how) = update_found-inversion title option ps qs (find_titled title ps) done in
    elim how [
      | inl (all, same) ↦ ap (find_titled other) same
      | inr (kept, set) ↦
          ap (find_titled other) set
          ∙ find_titled-set_types title other (only_type kept (types_of p)) ps d
    ]

Result-cases {ℓ} :
    {A : Type ℓ} (r : Result A) → ((e : Error) × (r ≡ err e)) ⊎ ((a : A) × (r ≡ ok a))
Result-cases (err e) = inl (e, refl)
Result-cases (ok a) = inr (a, refl)

pub update_round :
    (title : String) (option : DeconflictOptions) (ps : Properties)
    (options : List (String × DeconflictOptions))
    → (update_properties ps ((title, option) ∷ options)).error ≡ none
    → (qs : Properties) × (update_found title option ps (find_titled title ps) ≡ ok qs)
      × (update_properties ps ((title, option) ∷ options) ≡ update_properties qs options)
unfolding update_properties
update_round title option ps options done =
    elim (Result-cases (update_found title option ps (find_titled title ps))) [
      | inl (e, h) ↦ ground (arith, h)
      | inr (qs, h) ↦ (qs, h, rw (h, update_properties) refl)
    ]

-- A title that none of the options is for is found as before.
update_properties-others :
    (ps : Properties) (options : List (String × DeconflictOptions)) (title : String)
    → All (λ o. title ≢ option_title o) options
    → (update_properties ps options).error ≡ none
    → find_titled title (update_properties ps options).properties ≡ find_titled title ps
unfolding update_properties
update_properties-others ps [] title d done = refl
update_properties-others ps ((t, option) ∷ options) title (d, ds) done =
    let (qs, round, rest) = update_round t option ps options done in
    rw rest (
      update_properties-others qs options title ds (ap (λ u. u.error) (sym rest) ∙ done)
      ∙ update_found-others t title option ps qs (λ e. d (sym e)) round)

pub update_properties-resolved :
    (ps : Properties) (options : List (String × DeconflictOptions))
    → Unique option_title options
    → (update_properties ps options).error ≡ none
    → All (λ o. is_resolved (update_properties ps options).properties o ≡ true) options
update_properties-resolved ps [] unique done = tt
update_properties-resolved ps ((t, option) ∷ options) (d, unique) done =
    let (qs, round, rest) = update_round t option ps options done in
    let rest_done = ap (λ (u : Updated). u.error) (sym rest) ∙ done in
    let after = update_properties-others qs options t d rest_done in
    subst (λ u. All (λ o. is_resolved u.properties o ≡ true) ((t, option) ∷ options)) (sym rest)
      (
        ap (λ f. is_all option || has_one_type f) after
            ∙ update_found-resolved t option ps qs round,
        update_properties-resolved qs options unique rest_done,
      )
