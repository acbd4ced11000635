-- ===== src/Deconflict/Sanitized.antt =====
-- client-lib/src/util/SchemaUtil.ts, `createStreamAndTransformPipeLine`: the transform that takes hidden
-- properties out of the records of a stream and puts titles in place of keys.
use datapm.Common.{
  String, Bool, true, false, ◌||◌, not, ◌&&◌, Option, none, some, List, [], ◌∷◌, ◌==◌, ◌&◌, ◌≡◌,
  refl, sym, ap, subst, ◌∙◌, Result, ok, err, thrown, ◌>>=◌, >>=-eq-ok, ok_injective, if◌then◌else◌,
  arith, Bool-cases, inl, inr, ◌⊎◌, All, eq_iff, find, is_set,
}
use datapm.PackageFile.{Schema}
use datapm.PackageFile.PropertyTree.{
  Property, info, Properties, no_properties, entry, lookup_property,
}
use datapm.Deconflict.Values.{RecordValue}
use datapm.Deconflict.Records.{get, set, RecordStreamContext}

-- The property is not hidden and has that title.
abbrev pub is_shown_as : String → Property → Bool
is_shown_as key p = not (is_set (info p).hidden) && (info p).title == key

abbrev pub IsNotShown : String → Properties → Type 0
IsNotShown key no_properties = Unit
IsNotShown key (entry other p ps) = (is_shown_as key p ≡ false) × IsNotShown key ps

module _ {C : Type 0} where
  -- `delete record[key]`
  unfoldable pub delete : String → List (String × RecordValue C) → List (String × RecordValue C)
  delete key [] = []
  delete key ((other, value) ∷ members) =
      let rest = delete key members in if other == key then rest else (other, value) ∷ rest

  -- `key in record`
  unfoldable pub has_member : String → List (String × RecordValue C) → Bool
  has_member key [] = false
  has_member key ((other, value) ∷ members) = other == key || has_member key members

  -- One property of the schema: hidden, with a title of its own, or neither.
  unfoldable pub sanitize_property :
      String → Property → List (String × RecordValue C) → List (String × RecordValue C)
  unfolding delete get set
  sanitize_property key p members =
      if is_set (info p).hidden
      then delete key members
      else if (info p).title == key
      then members
      else delete key (set (info p).title (get key members) members)

  -- The loop over the properties.
  unfoldable pub sanitize_record :
      Properties → List (String × RecordValue C) → List (String × RecordValue C)
  unfolding sanitize_property
  sanitize_record no_properties members = members
  sanitize_record (entry key p ps) members = sanitize_record ps (sanitize_property key p members)

  abbrev pub sanitize_found :
      String
      → Option Schema
      → List (String × RecordValue C)
      → Result (List (String × RecordValue C))
  sanitize_found slug none members = err (thrown ("SCHEMA_UNKNOWN - " & slug))
  sanitize_found slug (some schema) members = ok (sanitize_record schema.properties members)

  -- The chunks that are passed on; where a chunk has its `schemaSlug` is given.
  unfoldable pub sanitize_chunks :
      {K : Type 0}
      → (K → String)
      → List Schema
      → List (RecordStreamContext C K)
      → Result (List (RecordStreamContext C K))
  unfolding sanitize_record
  sanitize_chunks slug schemas [] = ok []
  sanitize_chunks slug schemas (chunk ∷ chunks) = do
    left ←
        sanitize_found (slug chunk.context)
          (find (λ (s : Schema). s.title == slug chunk.context) schemas) chunk.record_members
    rest ← sanitize_chunks slug schemas chunks
    ok (record { context = chunk.context; record_members = left } ∷ rest)

  has_member-delete :
      (key other : String) (members : List (String × RecordValue C))
      → has_member key members ≡ false
      → has_member key (delete other members) ≡ false
  unfolding has_member delete
  has_member-delete key other [] h = refl
  has_member-delete key other ((k, v) ∷ members) h =
      ground (arith, has_member-delete key other members, h)

  has_member-delete_self :
      (key : String) (members : List (String × RecordValue C))
      → has_member key (delete key members) ≡ false
  unfolding has_member delete
  has_member-delete_self key [] = refl
  has_member-delete_self key ((k, v) ∷ members) = ground (arith, has_member-delete_self key members)

  has_member-set :
      (key title : String) (value : RecordValue C) (members : List (String × RecordValue C))
      → (title == key) ≡ false
      → has_member key members ≡ false
      → has_member key (set title value members) ≡ false
  unfolding has_member set
  has_member-set key title value [] d h = ground (arith, d)
  has_member-set key title value ((k, v) ∷ members) d h =
      ground (arith, has_member-set key title value members, d, h)

  sanitize_property-has_member :
      (key other : String) (p : Property) (members : List (String × RecordValue C))
      → is_shown_as key p ≡ false
      → has_member key members ≡ false
      → has_member key (sanitize_property other p members) ≡ false
  unfolding sanitize_property
  sanitize_property-has_member key other p members free h =
      elim (Bool-cases (is_set (info p).hidden)) [
        | inl e ↦ rw e (has_member-delete key other members h)
        | inr n ↦ elim (Bool-cases ((info p).title == other)) [
          | inl e ↦ rw (n, e) h
          | inr m ↦
              rw (n, m)
                (has_member-delete key other (set (info p).title (get other members) members) (
                  has_member-set key (info p).title (get other members) members
                    (ground (arith, n, free)) h))
        ]
      ]

  sanitize_record-has_member :
      (key : String) (ps : Properties) (members : List (String × RecordValue C))
      → IsNotShown key ps
      → has_member key members ≡ false
      → has_member key (sanitize_record ps members) ≡ false
  unfolding sanitize_record
  sanitize_record-has_member key no_properties members free h = h
  sanitize_record-has_member key (entry other p ps) members (now, free) h =
      sanitize_record-has_member key ps (sanitize_property other p members) free
        (sanitize_property-has_member key other p members now h)

  sanitize_property-hidden :
      (key : String) (p : Property) (members : List (String × RecordValue C))
      → is_set (info p).hidden ≡ true
      → has_member key (sanitize_property key p members) ≡ false
  unfolding sanitize_property
  sanitize_property-hidden key p members h = rw h (has_member-delete_self key members)

  sanitize_record-hidden :
      (key : String) (ps : Properties) (p : Property) (members : List (String × RecordValue C))
      → lookup_property key ps ≡ some p
      → is_set (info p).hidden ≡ true
      → IsNotShown key ps
      → has_member key (sanitize_record ps members) ≡ false
  unfolding sanitize_record lookup_property
  sanitize_record-hidden key no_properties p members there h free = cc
  sanitize_record-hidden key (entry other q ps) p members there h (now, free) =
      elim (Bool-cases (other == key)) [
        | inl e ↦
            let same : q ≡ p = ground (arith, e, there) in
            sanitize_record-has_member key ps (sanitize_property other q members) free (
              subst (λ k. has_member key (sanitize_property k q members) ≡ false)
                (sym ((eq_iff other key).0 e))
                (sanitize_property-hidden key q members
                  (subst (λ r. is_set (info r).hidden ≡ true) (sym same) h)))
        | inr n ↦
            sanitize_record-hidden key ps p (sanitize_property other q members)
              (ground (arith, n, there)) h free
      ]

  -- If the transform throws nothing, no chunk that it passes on for a schema, the first one of its title, has
  -- a member under the key of a property that the schema hides, provided that no property of the
  -- schema that is not hidden has that key as its title.
  pub sanitize_chunks-hidden :
      {K : Type 0} (slug : K → String) (schemas : List Schema)
      (chunks sent : List (RecordStreamContext C K)) (title key : String) (schema : Schema)
      (p : Property)
      → find (λ (s : Schema). s.title == title) schemas ≡ some schema
      → lookup_property key schema.properties ≡ some p
      → is_set (info p).hidden ≡ true
      → IsNotShown key schema.properties
      → sanitize_chunks slug schemas chunks ≡ ok sent
      → All
          (λ chunk.
            ((slug chunk.context == title) ≡ false) ⊎ (has_member key chunk.record_members ≡ false))
          sent
  unfolding sanitize_chunks
  sanitize_chunks-hidden slug schemas [] sent title key schema p found there h free e =
      subst (All _) (ok_injective e) tt
  sanitize_chunks-hidden slug schemas (chunk ∷ chunks) sent title key schema p found there h free
        e =
      let (left, one, more) =
        >>=-eq-ok
          (sanitize_found (slug chunk.context)
            (find (λ (s : Schema). s.title == slug chunk.context) schemas) chunk.record_members)
          (λ l. sanitize_chunks slug schemas chunks >>= λ r.
            ok (record { context = chunk.context; record_members = l } ∷ r))
          e in
      let (rest, others, all) =
        >>=-eq-ok (sanitize_chunks slug schemas chunks)
          (λ r. ok (record { context = chunk.context; record_members = left } ∷ r)) more in
      let later =
        sanitize_chunks-hidden slug schemas chunks rest title key schema p found there h free
          others in
      subst (All _) (ok_injective all) (here left one, later)
    where
      here :
          (left : List (String × RecordValue C))
          → sanitize_found
              (slug chunk.context)
              (find (λ (s : Schema). s.title == slug chunk.context) schemas)
              chunk.record_members
            ≡ ok left
          → ((slug chunk.context == title) ≡ false) ⊎ (has_member key left ≡ false)
      here left one = elim (Bool-cases (slug chunk.context == title)) [
        | inl same ↦
            let t = (eq_iff (slug chunk.context) title).0 same in
            let known : find (λ (s : Schema). s.title == slug chunk.context) schemas ≡ some schema =
              ap (λ x. find (λ (s : Schema). s.title == x) schemas) t ∙ found in
            let made : ok (sanitize_record schema.properties chunk.record_members) ≡ ok left =
              sym (ap (λ f. sanitize_found (slug chunk.context) f chunk.record_members) known)
              ∙ one in
            inr (
              subst (λ m. has_member key m ≡ false) (ok_injective made)
                (sanitize_record-hidden key schema.properties p chunk.record_members there h free))
        | inr other ↦ inl other
      ]
