-- ===== src/Deconflict/Deconflicted.antt =====
-- client-lib/src/util/SchemaUtil.ts, `createStreamAndTransformPipeLine`: what the transform that resolves
-- conflicts sends.
use datapm.Common.{
  String, true, false, Option, none, some, List, [], ◌∷◌, ◌≡◌, ◌≢◌, refl, subst, ap, sym, ◌∙◌, ok,
  ◌>>=◌, >>=-eq-ok, ok_injective, if◌then◌else◌, arith, Bool-cases, inl, inr, All, Bool, ◌||◌,
  Unique, eq_iff,
}
use datapm.Deconflict.Choices.{DeconflictOptions}
use datapm.Deconflict.Values.{RecordValue, Language}
use datapm.PackageFile.Json.{Number}
use datapm.Deconflict.Casts.{resolve_conflict}
use datapm.Deconflict.CastTypes.{IsCast, skips, resolve_conflict-IsCast, resolve_conflict-skips}
use datapm.Deconflict.Resolved.{option_title}
use datapm.Deconflict.Records.{
  get, set, get-set, RecordStreamContext, deconflict_record, send, deconflict_chunks,
  deconflict_round, deconflict_record-others,
}

module _ {C : Type 0} (language : Language C) where
  -- What the options make of a record: the results of the options for the values of their properties, and
  -- the values of all other properties.
  abbrev pub IsDeconflicted :
      List (String × DeconflictOptions)
      → List (String × RecordValue C)
      → List (String × RecordValue C)
      → Type 0
  IsDeconflicted options members left =
      All (λ o. IsCast language o.1 (get (option_title o) members) (get (option_title o) left))
        options
      × ((title : String)
          → All (λ o. title ≢ option_title o) options
          → get title left ≡ get title members)

  AreCast-set :
      (title : String) (value : RecordValue C) (options : List (String × DeconflictOptions))
      (members left : List (String × RecordValue C))
      → All (λ o. title ≢ option_title o) options
      → All
          (λ o.
            IsCast language o.1
              (get (option_title o) (set title value members))
              (get (option_title o) left))
          options
      → All
          (λ o. IsCast language o.1 (get (option_title o) members) (get (option_title o) left))
          options
  AreCast-set title value [] members left d h = tt
  AreCast-set title value ((other, option) ∷ options) members left (d, ds) (h, hs) =
      let same : get other (set title value members) ≡ get other members =
        get-set title other value members ∙ ground (arith, eq_iff title other, d) in
      (
        subst (λ v. IsCast language option v (get other left)) same h,
        AreCast-set title value options members left ds hs,
      )

  -- Whether an option skips the record.
  unfoldable pub is_skipped :
      List (String × DeconflictOptions) → List (String × RecordValue C) → Bool
  unfolding get
  is_skipped [] members = false
  is_skipped ((title, option) ∷ options) members =
      skips option (get title members) || is_skipped options members

  is_skipped-set :
      (title : String) (value : RecordValue C) (options : List (String × DeconflictOptions))
      (members : List (String × RecordValue C))
      → All (λ o. title ≢ option_title o) options
      → is_skipped options (set title value members) ≡ is_skipped options members
  unfolding is_skipped
  is_skipped-set title value [] members d = refl
  is_skipped-set title value ((other, option) ∷ options) members (d, ds) =
      let same : get other (set title value members) ≡ get other members =
        get-set title other value members ∙ ground (arith, eq_iff title other, d) in
      rw (same, is_skipped-set title value options members ds) refl

  abbrev is_none : {A : Type 0} → Option A → Bool
  is_none none = true
  is_none (some a) = false

  deconflict_record-skips :
      (options : List (String × DeconflictOptions)) (members : List (String × RecordValue C))
      (left : Option (List (String × RecordValue C)))
      → Unique option_title options
      → deconflict_record language options members ≡ ok left
      → is_skipped options members ≡ is_none left
  unfolding deconflict_record is_skipped
  deconflict_record-skips [] members left u e = ap is_none (ok_injective e)
  deconflict_record-skips ((title, option) ∷ options) members left (d, u) e =
      let (resolution, call, rest) =
        >>=-eq-ok (resolve_conflict language (get title members) option)
          (λ r.
            if r.skip_record
            then ok none
            else deconflict_record language options (set title r.value members))
          e in
      let flag = resolve_conflict-skips language (get title members) option resolution call in
      elim (Bool-cases resolution.skip_record) [
        | inl now ↦ rw (sym flag, now) (ap is_none (ok_injective (rw now at rest)))
        | inr keeps ↦
            rw (sym flag, keeps)
              (sym (is_skipped-set title resolution.value options members d)
                ∙ deconflict_record-skips options (set title resolution.value members) left u
                    (rw keeps at rest))
      ]

  -- What is sent for the chunks, in order: nothing for a record that an option skips, and for another one
  -- a chunk with its context and what the options make of the record.
  abbrev pub AreDeconflicted :
      {K : Type 0}
      → List (String × DeconflictOptions)
      → List (RecordStreamContext C K)
      → List (RecordStreamContext C K)
      → Type 0
  AreDeconflicted options [] [] = Unit
  AreDeconflicted options [] (s ∷ sent) = ⊥
  AreDeconflicted {K = K} options (chunk ∷ chunks) sent =
      elim (is_skipped options chunk.record_members) [
        | true ↦ AreDeconflicted options chunks sent
        | false ↦
            (first : RecordStreamContext C K) × (rest : List (RecordStreamContext C K)) × (sent
              ≡ first ∷ rest)
            × (first.context ≡ chunk.context)
            × IsDeconflicted options chunk.record_members first.record_members
            × AreDeconflicted options chunks rest
      ]

  module _ (round_twice : (n : Number) → language.round (language.round n) ≡ language.round n) where
    deconflict_record-AreCast :
        (options : List (String × DeconflictOptions)) (members left : List (String × RecordValue C))
        → Unique option_title options
        → deconflict_record language options members ≡ ok (some left)
        → All
            (λ o. IsCast language o.1 (get (option_title o) members) (get (option_title o) left))
            options
    unfolding deconflict_record
    deconflict_record-AreCast [] members left u e = tt
    deconflict_record-AreCast ((title, option) ∷ options) members left (d, u) e =
        let (resolution, call, keeps, rest) =
          deconflict_round language title option options members left e in
        let next = set title resolution.value members in
        let set_here : get title next ≡ resolution.value =
          get-set title title resolution.value members ∙ ground (arith, eq_iff title title) in
        let here = deconflict_record-others language options next left title d rest ∙ set_here in
        (
          subst (λ v. IsCast language option (get title members) v) (sym here)
              (resolve_conflict-IsCast language round_twice (get title members) option resolution
                call keeps),
          AreCast-set title resolution.value options members left d
              (deconflict_record-AreCast options next left u rest),
        )

    deconflict_record-IsDeconflicted :
        (options : List (String × DeconflictOptions)) (members left : List (String × RecordValue C))
        → Unique option_title options
        → deconflict_record language options members ≡ ok (some left)
        → IsDeconflicted options members left
    deconflict_record-IsDeconflicted options members left u e = (
      deconflict_record-AreCast options members left u e,
      λ title d. deconflict_record-others language options members left title d e,
    )

    send-AreDeconflicted :
        {K : Type 0} (options : List (String × DeconflictOptions)) (chunk : RecordStreamContext C K)
        (chunks : List (RecordStreamContext C K)) (left : Option (List (String × RecordValue C)))
        (sent : List (RecordStreamContext C K))
        → Unique option_title options
        → deconflict_record language options chunk.record_members ≡ ok left
        → AreDeconflicted options chunks sent
        → AreDeconflicted options (chunk ∷ chunks) (send language chunk.context left sent)
    send-AreDeconflicted options chunk chunks none sent u e h =
        rw (AreDeconflicted, deconflict_record-skips options chunk.record_members none u e) h
    send-AreDeconflicted options chunk chunks (some members) sent u e h =
        rw
          (AreDeconflicted, deconflict_record-skips options chunk.record_members (some members) u e)
          (
            record { context = chunk.context; record_members = members },
            sent,
            refl,
            refl,
            deconflict_record-IsDeconflicted options chunk.record_members members u e,
            h,
          )

    -- If the options have distinct titles, rounding a rounded number changes nothing, and the transform
    -- throws nothing, then it sends, in order, one chunk for each chunk whose record has no text, other
    -- than "null", under a property with the option `SKIP`. The chunk that is sent has the context of the
    -- given one. The value of each property that an option is for is the result of that option for the
    -- value it had, as `IsCast` tells, and all other properties have the values that they had.
    pub deconflict_chunks-AreDeconflicted :
        {K : Type 0} (options : List (String × DeconflictOptions))
        (chunks sent : List (RecordStreamContext C K))
        → Unique option_title options
        → deconflict_chunks language options chunks ≡ ok sent
        → AreDeconflicted options chunks sent
    unfolding deconflict_chunks
    deconflict_chunks-AreDeconflicted options [] sent u e =
        subst (λ s. AreDeconflicted options [] s) (ok_injective e) tt
    deconflict_chunks-AreDeconflicted options (chunk ∷ chunks) sent u e =
        let (left, one, more) =
          >>=-eq-ok (deconflict_record language options chunk.record_members)
            (λ l. deconflict_chunks language options chunks >>= λ s.
              ok (send language chunk.context l s))
            e in
        let (rest, others, all) =
          >>=-eq-ok (deconflict_chunks language options chunks)
            (λ s. ok (send language chunk.context left s)) more in
        subst (λ s. AreDeconflicted options (chunk ∷ chunks) s) (ok_injective all)
          (send-AreDeconflicted options chunk chunks left rest u one
            (deconflict_chunks-AreDeconflicted options chunks rest u others))
