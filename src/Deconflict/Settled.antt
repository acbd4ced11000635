-- ===== src/Deconflict/Settled.antt =====
-- client-lib/src/util/SchemaUtil.ts: the conflicts that are left after `updateSchemaWithDeconflictOptions`.
use datapm.Common.{
  String, Bool, true, false, Option, none, some, List, [], ◌∷◌, ◌≡◌, ◌≢◌, refl, sym, ok, ap, subst,
  ◌∙◌, ◌==◌, ◌⊎◌, inl, inr, length, ltb, All, Any, Unique, arith, Bool-cases, eq_iff, eq_refl,
}
use datapm.PackageFile.{Schema}
use datapm.PackageFile.PropertyTree.{
  Property, property, info, types_of, Properties, no_properties, entry, type_names, ValueTypes,
  no_types, value_type,
}
use datapm.Deconflict.Choices.{DeconflictOptions}
use datapm.Deconflict.Conflicts.{without_null, conflicts_of, check_schema_data_type_conflicts}
use datapm.Deconflict.Updates.{
  find_titled, set_types, only_type, is_all, update_found, update_properties, Updated,
  update_schema_with_deconflict_options,
}
use datapm.Deconflict.Resolved.{
  find_titled-set_self, has_one_type, is_resolved, option_title, different, update_found-inversion,
  update_found-others, update_round, update_properties-resolved,
}

-- The property has two types besides null.
abbrev conflicts : Property → Bool
conflicts p = ltb 1 (length (without_null (type_names (types_of p))))

abbrev has_conflict : Option Property → Bool
has_conflict none = false
has_conflict (some p) = conflicts p

-- Every property has its title as its key.
abbrev pub HasTitlesAsKeys : Properties → Type 0
HasTitlesAsKeys no_properties = Unit
HasTitlesAsKeys (entry key p ps) = (key ≡ (info p).title) × HasTitlesAsKeys ps

abbrev pub titles_of : Properties → List String
titles_of no_properties = []
titles_of (entry key p ps) = (info p).title ∷ titles_of ps

abbrev pub itself : String → String
itself title = title

-- Some option other than `ALL` is for that title.
abbrev pub IsAnswered : List (String × DeconflictOptions) → String → Type 0
IsAnswered options title = Any (λ o. (option_title o ≡ title) × (is_all o.1 ≡ false)) options

one_type-conflicts :
    (found : Option Property) → has_one_type found ≡ true → has_conflict found ≡ false
unfolding without_null
one_type-conflicts none h = refl
one_type-conflicts (some (property i no_types)) h = cc
one_type-conflicts (some (property i (value_type t s no_types))) h = ground arith
one_type-conflicts (some (property i (value_type t s (value_type u r ts)))) h = cc

differs : (a b : String) → (a == b) ≡ false → a ≢ b
differs a b n e = let same = (eq_iff a b).1 e in cc

-- A round makes no conflict.
update_found-has_conflict :
    (title other : String) (option : DeconflictOptions) (ps qs : Properties)
    → update_found title option ps (find_titled title ps) ≡ ok qs
    → has_conflict (find_titled other ps) ≡ false
    → has_conflict (find_titled other qs) ≡ false
update_found-has_conflict title other option ps qs done settled =
    let (p, found, how) = update_found-inversion title option ps qs (find_titled title ps) done in
    elim how [
      | inl (all, same) ↦ subst (λ q. has_conflict (find_titled other q) ≡ false) (sym same) settled
      | inr (kept, set) ↦ elim (Bool-cases (title == other)) [
        | inl e ↦
            let here = find_titled-set_self title (only_type kept (types_of p)) ps p found in
            let one =
              one_type-conflicts (some (property (info p) (only_type kept (types_of p)))) refl in
            subst (λ u. has_conflict (find_titled u qs) ≡ false) ((eq_iff title other).0 e)
              (ap (λ q. has_conflict (find_titled title q)) set ∙ ap has_conflict here ∙ one)
        | inr n ↦
            let unchanged =
              update_found-others title other option ps qs (λ e. differs title other n e) done in
            ap has_conflict unchanged ∙ settled
      ]
    ]

update_properties-has_conflict :
    (ps : Properties) (options : List (String × DeconflictOptions)) (title : String)
    → (update_properties ps options).error ≡ none
    → has_conflict (find_titled title ps) ≡ false
    → has_conflict (find_titled title (update_properties ps options).properties) ≡ false
unfolding update_properties
update_properties-has_conflict ps [] title done settled = settled
update_properties-has_conflict ps ((t, option) ∷ options) title done settled =
    let (qs, round, rest) = update_round t option ps options done in
    let rest_done = ap (λ (u : Updated). u.error) (sym rest) ∙ done in
    let next = update_found-has_conflict t title option ps qs round settled in
    subst (λ u. has_conflict (find_titled title u.properties) ≡ false) (sym rest)
      (update_properties-has_conflict qs options title rest_done next)

-- What is resolved under an option other than `ALL` has no conflict.
answered-has_conflict :
    (ps : Properties) (options : List (String × DeconflictOptions)) (title : String)
    → All (λ o. is_resolved ps o ≡ true) options
    → IsAnswered options title
    → has_conflict (find_titled title ps) ≡ false
answered-has_conflict ps [] title all h = elim h [ ]
answered-has_conflict ps ((t, option) ∷ options) title (now, all) (inr h) =
    answered-has_conflict ps options title all h
answered-has_conflict ps ((t, option) ∷ options) title (now, all) (inl (same, few)) =
    subst (λ u. has_conflict (find_titled u ps) ≡ false) same
      (one_type-conflicts (find_titled t ps) (ground (arith, now, few)))

-- A conflict is reported under its title.
conflict-reported :
    (P : String → Type 0) (ps : Properties) (title : String)
    → HasTitlesAsKeys ps
    → All (λ c. P c.0) (conflicts_of ps)
    → has_conflict (find_titled title ps) ≡ true
    → P title
unfolding conflicts_of find_titled
conflict-reported P no_properties title keys all h = cc
conflict-reported P (entry key p ps) title (same, keys) all h =
    elim (Bool-cases ((info p).title == title)) [
      | inl e ↦
          let here : conflicts p ≡ true = rw e at h in
          let (first, rest) = (rw here at all) in
          subst P (same ∙ (eq_iff (info p).title title).0 e) first
      | inr n ↦ conflict-reported P ps title keys (later (Bool-cases (conflicts p))) (rw n at h)
    ]
  where
    later : (conflicts p ≡ true) ⊎ (conflicts p ≡ false) → All (λ c. P c.0) (conflicts_of ps)
    later (inl e) = (rw e at all).1
    later (inr n) = rw n at all

find_titled-none :
    (title : String) (ps : Properties)
    → All (λ t. title ≢ t) (titles_of ps)
    → find_titled title ps ≡ none
unfolding find_titled
find_titled-none title no_properties h = refl
find_titled-none title (entry key p ps) (d, h) =
    rw (different (info p).title title (λ e. d (sym e))) (find_titled-none title ps h)

-- Where titles are distinct and nothing that is found has a conflict, there is none.
no_conflicts :
    (ps : Properties)
    → Unique itself (titles_of ps)
    → ((title : String) → has_conflict (find_titled title ps) ≡ false)
    → conflicts_of ps ≡ []
unfolding conflicts_of find_titled
no_conflicts no_properties u h = refl
no_conflicts (entry key p ps) (d, u) h =
    let here : conflicts p ≡ false = rw (eq_refl (info p).title) at (h (info p).title) in
    rw here (no_conflicts ps u later)
  where
    later : (title : String) → has_conflict (find_titled title ps) ≡ false
    later title = elim (Bool-cases ((info p).title == title)) [
      | inl e ↦
          subst (λ t. has_conflict (find_titled t ps) ≡ false) ((eq_iff (info p).title title).0 e)
            (ap has_conflict (find_titled-none (info p).title ps d))
      | inr n ↦ rw n at (h title)
    ]

titles_of-set_types :
    (title : String) (types : ValueTypes) (ps : Properties)
    → titles_of (set_types title types ps) ≡ titles_of ps
unfolding set_types
titles_of-set_types title types no_properties = refl
titles_of-set_types title types (entry key p ps) = elim (Bool-cases ((info p).title == title)) [
  | inl e ↦ rw e refl
  | inr n ↦ rw n (ap (λ ts. (info p).title ∷ ts) (titles_of-set_types title types ps))
]

titles_of-update_properties :
    (ps : Properties) (options : List (String × DeconflictOptions))
    → (update_properties ps options).error ≡ none
    → titles_of (update_properties ps options).properties ≡ titles_of ps
unfolding update_properties
titles_of-update_properties ps [] done = refl
titles_of-update_properties ps ((t, option) ∷ options) done =
    let (qs, round, rest) = update_round t option ps options done in
    let rest_done = ap (λ (u : Updated). u.error) (sym rest) ∙ done in
    let (p, found, how) = update_found-inversion t option ps qs (find_titled t ps) round in
    ap (λ (u : Updated). titles_of u.properties) rest
    ∙ titles_of-update_properties qs options rest_done
    ∙ (elim how [
      | inl (all, same) ↦ ap titles_of same
      | inr (kept, set) ↦ ap titles_of set ∙ titles_of-set_types t (only_type kept (types_of p)) ps
    ])

-- In a schema whose properties have their titles, which are distinct, as their keys: if there is an
-- option other than `ALL` for every conflict that the check reports, and the update with the options throws
-- nothing, then the check of the updated schema reports no conflict.
pub update_schema-settles :
    (schema : Schema) (options : List (String × DeconflictOptions))
    → HasTitlesAsKeys schema.properties
    → Unique itself (titles_of schema.properties)
    → Unique option_title options
    → All (λ c. IsAnswered options c.0) (check_schema_data_type_conflicts schema)
    → (update_schema_with_deconflict_options schema options).1 ≡ none
    → check_schema_data_type_conflicts (update_schema_with_deconflict_options schema options).0 ≡ []
unfolding update_schema_with_deconflict_options check_schema_data_type_conflicts
update_schema-settles schema options keys distinct unique answered done =
    no_conflicts (update_properties schema.properties options).properties
      (subst (Unique itself) (sym (titles_of-update_properties schema.properties options done))
        distinct)
      settled
  where
    settled :
        (title : String)
        → has_conflict (find_titled title (update_properties schema.properties options).properties)
          ≡ false
    settled title = elim (Bool-cases (has_conflict (find_titled title schema.properties))) [
      | inl conflict ↦
          answered-has_conflict (update_properties schema.properties options).properties options
            title (update_properties-resolved schema.properties options unique done)
            (conflict-reported (IsAnswered options) schema.properties title keys answered conflict)
      | inr none_before ↦
          update_properties-has_conflict schema.properties options title done none_before
    ]
