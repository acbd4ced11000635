-- ===== src/Combine/Kept.antt =====
-- client-lib/src/util/SchemaUtil.ts, `combineSchemas`: which schemas there are after it.
use datapm.Common.{
  String, Bool, true, false, ◌||◌, Option, none, some, List, [], ◌∷◌, ◌++◌, ◌==◌, ◌≡◌, refl, ap,
  subst, ◌∙◌, inl, inr, Bool-cases, eq_iff, arith, any, find, All, All-map, Any, Any-append_left,
}
use datapm.PackageFile.{Schema}
use datapm.Combine.Values.{NumberOrder}
use datapm.Combine.Covers.{Covers, IsObject, combine_properties-Covers, Covers-self}
use datapm.Combine.Schemas.{
  titled, combine_schema, combine_found, combined_schemas, add_new_schemas, combine_schemas,
}

-- A schema of the title of the other one that covers its properties.
abbrev pub CoversSchema : Schema → Schema → Type 0
CoversSchema existing s = (s.title ≡ existing.title) × Covers existing.properties s.properties

add_new_schemas-Any :
    (P : Schema → Type 0) (schemas new : List Schema)
    → Any P schemas
    → Any P (add_new_schemas schemas new)
unfolding add_new_schemas
add_new_schemas-Any P schemas [] h = h
add_new_schemas-Any P schemas (n ∷ new) h = elim (Bool-cases (titled n.title schemas)) [
  | inl there ↦ rw there (add_new_schemas-Any P schemas new h)
  | inr missing ↦
      rw missing
        (add_new_schemas-Any P (schemas ++ (n ∷ [])) new (Any-append_left P schemas (n ∷ []) h))
]

any-append {ℓ} :
    {A : Type ℓ} (p : A → Bool) (xs ys : List A) → any p (xs ++ ys) ≡ (any p xs || any p ys)
any-append p [] ys = refl
any-append p (x ∷ xs) ys = ap (λ b. p x || b) (any-append p xs ys) ∙ or_assoc (p x) _ _
  where
    or_assoc : (a b c : Bool) → (a || (b || c)) ≡ ((a || b) || c)
    or_assoc a b c = ground arith

add_new_schemas-titled :
    (t : String) (schemas new : List Schema)
    → titled t (add_new_schemas schemas new) ≡ (titled t schemas || titled t new)
unfolding add_new_schemas
add_new_schemas-titled t schemas [] = or_false (titled t schemas)
  where
    or_false : (b : Bool) → b ≡ (b || false)
    or_false b = ground arith
add_new_schemas-titled t schemas (n ∷ new) = elim (Bool-cases (titled n.title schemas)) [
  | inl there ↦
      rw there (add_new_schemas-titled t schemas new ∙ there_too (n.title == t) _ _ (known there))
  | inr missing ↦ rw missing (
      add_new_schemas-titled t (schemas ++ (n ∷ [])) new
      ∙ ap (λ b. b || titled t new) (any-append (λ (s : Schema). s.title == t) schemas (n ∷ []))
      ∙ last_one (titled t schemas) (n.title == t) _)
]
  where
    known : titled n.title schemas ≡ true → (n.title == t) ≡ true → titled t schemas ≡ true
    known there e = subst (λ x. titled x schemas ≡ true) ((eq_iff n.title t).0 e) there

    there_too : (a s r : Bool) → (a ≡ true → s ≡ true) → (s || r) ≡ (s || (a || r))
    there_too true s r h = rw (h refl) refl
    there_too false s r h = refl

    last_one : (s a r : Bool) → ((s || (a || false)) || r) ≡ (s || (a || r))
    last_one s a r = ground arith

module _ (order : NumberOrder) where
  combine_found-title : (e : Schema) (o : Option Schema) → (combine_found order e o).title ≡ e.title
  unfolding combine_found combine_schema
  combine_found-title e none = refl
  combine_found-title e (some n) = refl

  combined_schemas-titled :
      (t : String) (existing new : List Schema)
      → titled t (combined_schemas order existing new) ≡ titled t existing
  unfolding combined_schemas
  combined_schemas-titled t [] new = refl
  combined_schemas-titled t (e ∷ es) new = rw (
    combine_found-title e (find (λ (s : Schema). s.title == e.title) new),
    combined_schemas-titled t es new,
  )

  combine_found-Covers :
      (e : Schema) (o : Option Schema)
      → IsObject e.properties
      → CoversSchema e (combine_found order e o)
  unfolding combine_found combine_schema
  combine_found-Covers e none d = (refl, Covers-self order e.properties d)
  combine_found-Covers e (some n) d =
      (refl, combine_properties-Covers order e.properties n.properties d)

  combined_schemas-Covers :
      (existing new : List Schema)
      → All (λ (e : Schema). IsObject e.properties) existing
      → All (λ (e : Schema). Any (CoversSchema e) (combined_schemas order existing new)) existing
  unfolding combined_schemas
  combined_schemas-Covers [] new d = tt
  combined_schemas-Covers (e ∷ es) new (d, ds) =
      let first = combine_found order e (find (λ (s : Schema). s.title == e.title) new) in
      (
        inl (combine_found-Covers e _ d),
        All-map _ (λ (x : Schema). Any (CoversSchema x) (first ∷ combined_schemas order es new))
            (λ x h. inr h) es (combined_schemas-Covers es new ds),
      )

  -- The combined schemas have exactly the titles of the existing and of the new ones; and if no
  -- object among the existing properties has a key twice, every existing schema has one of its
  -- title among them that has all its properties, nested ones included, with all their value types.
  pub combine_schemas-keeps :
      (existing new : List Schema)
      → All (λ (e : Schema). IsObject e.properties) existing
      → ((t : String)
          → titled t (combine_schemas order existing new) ≡ (titled t existing || titled t new))
        × All (λ (e : Schema). Any (CoversSchema e) (combine_schemas order existing new)) existing
  unfolding combine_schemas
  combine_schemas-keeps existing new d = (
    λ t.
        add_new_schemas-titled t (combined_schemas order existing new) new
        ∙ ap (λ b. b || titled t new) (combined_schemas-titled t existing new),
    All-map _ _
        (λ e h. add_new_schemas-Any (CoversSchema e) (combined_schemas order existing new) new h)
        existing (combined_schemas-Covers existing new d),
  )
