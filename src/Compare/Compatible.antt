-- ===== src/Compare/Compatible.antt =====
-- lib/src/PackageUtil.ts: what a client may rely on when `diffCompatibility` of the differences
-- between two package files is not `BreakingChange`.
use mathlib.Core.Bool.{not}
use datapm.Common.{
  String, Bool, true, false, Option, none, some, List, [], ◌∷◌, ◌++◌, ◌≡◌, ◌≢◌, ◌⊎◌, inl, inr, refl,
  arith, sym, subst, ◌∙◌, ◌==◌, ◌||◌, ◌&&◌, ok, ◌>>=◌, >>=-eq-ok, ok_injective, for_each,
  for_each-inversion, All, Any, All-append_left, All-append_right, All-map, any, is_set,
  if◌then◌else◌, Bool-cases, eq_iff,
}
use datapm.PackageFile.{Schema, PackageFile}
use datapm.PackageFile.PropertyTree.{
  DpmPropertyType, Property, Properties, entries, info, types_of, type_names, lookup_property,
  same_type,
}
use datapm.Compare.Difference.{
  Compability, breaking_change, Difference, diff, push_if, diff_compatibility, hide_property,
  unhide_property, change_property_type,
}
use datapm.Compare.Severity.{IsBreaking, diff_compatibility-breaking, diff_compatibility-AllMapped}
use datapm.Compare.Schemas.{
  all_among, compare_property, compare_forward, forward, compare_schema, compare_with_schemas,
  has_title, missing_schema, compare_schemas,
}
use datapm.Compare.Sources.{DeepEqual, compare_members, compare_packages, compare_packages-parts}

abbrev pub Harmless : Difference → Type 0
Harmless d = ¬ IsBreaking d.type

-- Each type of one list is in the other.
abbrev pub Among : List DpmPropertyType → List DpmPropertyType → Type 0
Among ts us = All (λ t. Any (λ u. t ≡ u) us) ts

-- What a new version keeps of a property: one that is hidden may go; else it is there, has the
-- same value types, and is hidden only if it was.
abbrev pub Kept : Property → Option Property → Type 0
Kept prior none = is_set (info prior).hidden ≡ true
Kept prior (some new) =
    Among (type_names (types_of prior)) (type_names (types_of new))
    × Among (type_names (types_of new)) (type_names (types_of prior))
    × ((is_set (info new).hidden ≡ false) ⊎ (is_set (info prior).hidden ≡ true))

abbrev pub KeptProperties : Properties → Properties → Type 0
KeptProperties prior new = All (λ e. Kept e.1 (lookup_property e.0 new)) (entries prior)

-- A schema that was not hidden is still there, and its properties are kept in every new schema
-- of its title.
abbrev pub KeptSchema : List Schema → Schema → Type 0
KeptSchema bs a =
    ((is_set a.hidden ≡ true) ⊎ Any (λ (b : Schema). a.title ≡ b.title) bs)
    × All (λ (b : Schema). (a.title ≢ b.title) ⊎ KeptProperties a.properties b.properties) bs

same_type_sound : (t u : DpmPropertyType) → same_type t u ≡ true → t ≡ u
same_type_sound t u h = ground arith

any-same_type :
    (t : DpmPropertyType) (us : List DpmPropertyType)
    → any (same_type t) us ≡ true
    → Any (λ u. t ≡ u) us
any-same_type t [] h = cc
any-same_type t (u ∷ us) h = elim (Bool-cases (same_type t u)) [
  | inl p ↦ inl (same_type_sound t u p)
  | inr q ↦ inr (any-same_type t us (rw q at h))
]

all_among-Among : (ts us : List DpmPropertyType) → all_among ts us ≡ true → Among ts us
all_among-Among [] us h = tt
all_among-Among (t ∷ ts) us h = elim (Bool-cases (any (same_type t) us)) [
  | inl p ↦ (any-same_type t us p, all_among-Among ts us (rw p at h))
  | inr q ↦ absurd (let x = rw q at h in cc)
]

Harmless-type_test :
    (test : Bool) (p : String) → All Harmless (push_if test change_property_type p) → test ≡ false
Harmless-type_test true p (h, _) = absurd (h tt)
Harmless-type_test false p h = refl

Harmless-hidden :
    (was is : Bool) (p : String)
    → All Harmless (
        if not was && is
        then diff hide_property p ∷ []
        else if was && not is
        then diff unhide_property p ∷ []
        else [])
    → (is ≡ false) ⊎ (was ≡ true)
Harmless-hidden true is p h = inr refl
Harmless-hidden false true p (h, _) = absurd (h tt)
Harmless-hidden false false p h = inl refl

not_or : (a b : Bool) → (not a || not b) ≡ false → (a ≡ true) × (b ≡ true)
not_or a b h = ground arith

compare_property-Kept :
    (prior new : Property) (p : String)
    → All Harmless (compare_property prior new p)
    → Kept prior (some new)
unfolding compare_property
compare_property-Kept prior new p h =
    let later = All-append_right Harmless (push_if _ _ p) _ h in
    let types = Harmless-type_test _ p (All-append_left Harmless (push_if _ _ p) _ later) in
    let rest = All-append_right Harmless (push_if _ _ p) _ later in
    let (among, back) = not_or _ _ types in
    (
      all_among-Among _ _ among,
      all_among-Among _ _ back,
      Harmless-hidden (is_set (info prior).hidden) (is_set (info new).hidden) p
          (All-append_left Harmless _ _ rest),
    )

compare_forward-Kept :
    (prior : Property) (new : Option Property) (p : String)
    → All Harmless (compare_forward prior new p)
    → Kept prior new
unfolding compare_forward
compare_forward-Kept prior none p h = elim (Bool-cases (is_set (info prior).hidden)) [
  | inl e ↦ e
  | inr e ↦ absurd ((rw e at h).0 tt)
]
compare_forward-Kept prior (some new) p h = compare_property-Kept prior new p h

forward-Kept :
    (es : List (String × Property)) (new : Properties) (p : String)
    → All Harmless (forward es new p)
    → All (λ e. Kept e.1 (lookup_property e.0 new)) es
unfolding forward
forward-Kept [] new p h = tt
forward-Kept ((k, prior) ∷ es) new p h = (
  compare_forward-Kept prior _ _ (All-append_left Harmless _ _ h),
  forward-Kept es new p (All-append_right Harmless (compare_forward prior _ _) _ h),
)

compare_schema-Kept :
    (a b : Schema) (p : String) (ds : List Difference)
    → compare_schema a b p ≡ ok ds
    → All Harmless ds
    → KeptProperties a.properties b.properties
unfolding compare_schema
compare_schema-Kept a b p ds e h =
    let (added, _, k) = >>=-eq-ok (for_each (entries b.properties) _) _ e in
    let whole = subst (All Harmless) (sym (ok_injective k)) h in
    forward-Kept _ b.properties _ (All-append_left Harmless _ added whole)

compare_with_schemas-Kept :
    (a : Schema) (bs : List Schema) (ds : List Difference)
    → compare_with_schemas a bs ≡ ok ds
    → All Harmless ds
    → All (λ (b : Schema). (a.title ≢ b.title) ⊎ KeptProperties a.properties b.properties) bs
unfolding compare_with_schemas
compare_with_schemas-Kept a [] ds e h = tt
compare_with_schemas-Kept a (b ∷ bs) ds e h =
    let (here, e₁, k₁) =
      >>=-eq-ok (if a.title == b.title then compare_schema a b "#" else ok []) _ e in
    let (rest, e₂, k₂) = >>=-eq-ok (compare_with_schemas a bs) _ k₁ in
    let whole = subst (All Harmless) (sym (ok_injective k₂)) h in
    (
      elim (Bool-cases (a.title == b.title)) [
        | inl same ↦ inr (
            compare_schema-Kept a b "#" here (rw same at e₁)
              (All-append_left Harmless here rest whole))
        | inr other ↦ inl (λ same. true≢false (sym ((eq_iff a.title b.title).1 same) ∙ other))
      ],
      compare_with_schemas-Kept a bs rest e₂ (All-append_right Harmless here rest whole),
    )
  where
    true≢false : true ≡ false → ⊥
    true≢false q = cc

has_title-Any :
    (a : Schema) (bs : List Schema)
    → has_title a.title bs ≡ true
    → Any (λ (b : Schema). a.title ≡ b.title) bs
has_title-Any a [] h = cc
has_title-Any a (b ∷ bs) h = elim (Bool-cases (a.title == b.title)) [
  | inl p ↦ inl ((eq_iff a.title b.title).0 p)
  | inr q ↦ inr (has_title-Any a bs (rw q at h))
]

missing_schema-hidden : (a : Schema) → All Harmless (missing_schema a) → is_set a.hidden ≡ true
unfolding missing_schema
missing_schema-hidden a h = elim (Bool-cases (is_set a.hidden)) [
  | inl e ↦ e
  | inr e ↦ absurd ((rw e at h).0 tt)
]

compare_round-Kept :
    (a : Schema) (bs : List Schema) (ds : List Difference)
    → (compare_with_schemas a bs >>= λ matched.
        ok (matched ++ (if has_title a.title bs then [] else missing_schema a)))
      ≡ ok ds
    → All Harmless ds
    → KeptSchema bs a
compare_round-Kept a bs ds e h =
    let (matched, e₁, k) = >>=-eq-ok (compare_with_schemas a bs) _ e in
    let whole = subst (All Harmless) (sym (ok_injective k)) h in
    (
      found (All-append_right Harmless matched _ whole),
      compare_with_schemas-Kept a bs matched e₁ (All-append_left Harmless matched _ whole),
    )
  where
    found :
        All Harmless (if has_title a.title bs then [] else missing_schema a)
        → (is_set a.hidden ≡ true) ⊎ Any (λ (b : Schema). a.title ≡ b.title) bs
    found k = elim (Bool-cases (has_title a.title bs)) [
      | inl p ↦ inr (has_title-Any a bs p)
      | inr q ↦ inl (missing_schema-hidden a (rw q at k))
    ]

compare_schemas-Kept :
    (xs bs : List Schema) (ds : List Difference)
    → compare_schemas xs bs ≡ ok ds
    → All Harmless ds
    → All (KeptSchema bs) xs
unfolding compare_schemas
compare_schemas-Kept xs bs ds e h =
    All-map _ _ (λ a (zs, e₁, k). compare_round-Kept a bs zs e₁ k) xs
      (for_each-inversion Harmless xs _ ds e h)

Harmless-of_compatible :
    (ds : List Difference) {c : Compability}
    → diff_compatibility ds ≡ ok c
    → c ≢ breaking_change
    → All Harmless ds
Harmless-of_compatible ds e ne =
    let mapped = diff_compatibility-AllMapped ds e in
    let (d, e', breaks) = diff_compatibility-breaking ds mapped in
    none_of ds (λ b. ne (ok_injective (sym e ∙ e') ∙ breaks.1 b))
  where
    none_of : (ds : List Difference) → ¬ Any (λ d. IsBreaking d.type) ds → All Harmless ds
    none_of [] n = tt
    none_of (d ∷ ds) n = (λ b. n (inl b), none_of ds (λ b. n (inr b)))

-- If two package files are compared without a throw, and the compatibility of the differences is
-- not `BreakingChange`, then every schema of the first that is not hidden has a schema of its
-- title in the second; and every property of a schema, against every new schema of that title,
-- is absent only if it was hidden, has the same value types on both sides, and is hidden in the
-- new schema only if it was.
pub compatible-keeps_properties :
    (deep_equal : DeepEqual) (a b : PackageFile) (ds : List Difference) (c : Compability)
    → compare_packages deep_equal a b ≡ ok ds
    → diff_compatibility ds ≡ ok c
    → c ≢ breaking_change
    → All (KeptSchema b.schemas) a.schemas
compatible-keeps_properties deep_equal a b ds c e compatible ne =
    let (schemas, sources, e₁, _, whole) = compare_packages-parts deep_equal a b ds e in
    let harmless = subst (All Harmless) (sym whole) (Harmless-of_compatible ds compatible ne) in
    compare_schemas-Kept a.schemas b.schemas schemas e₁ (
      All-append_left Harmless schemas sources
        (All-append_right Harmless (compare_members deep_equal a b) _ harmless))
