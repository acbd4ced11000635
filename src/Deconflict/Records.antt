-- ===== src/Deconflict/Records.antt =====
-- client-lib/src/util/SchemaUtil.ts, `createStreamAndTransformPipeLine`: the transform that resolves the
-- conflicts in the records of a stream. A record is its members in order.
use datapm.Common.{
  String, false, Option, none, some, List, [], ◌∷◌, ◌==◌, ◌≡◌, ◌≢◌, refl, ◌∙◌, Result, ok, ◌>>=◌,
  >>=-eq-ok, if◌then◌else◌, arith, Bool-cases, inl, inr, All, eq_iff,
}
use datapm.Deconflict.Choices.{DeconflictOptions}
use datapm.Deconflict.Values.{RecordValue, undefined, Language}
use datapm.Deconflict.Casts.{Resolution, resolve_conflict}
use datapm.Deconflict.Resolved.{option_title}

module _ {C : Type 0} where
  -- `record[title]`
  unfoldable pub get : String → List (String × RecordValue C) → RecordValue C
  get title [] = undefined
  get title ((key, value) ∷ members) = if key == title then value else get title members

  -- `record[title] = value`
  unfoldable pub set :
      String → RecordValue C → List (String × RecordValue C) → List (String × RecordValue C)
  set title value [] = (title, value) ∷ []
  set title value ((key, old) ∷ members) =
      let rest = set title value members in
      if key == title then (key, value) ∷ members else (key, old) ∷ rest

  pub get-set :
      (title other : String) (value : RecordValue C) (members : List (String × RecordValue C))
      → get other (set title value members) ≡ (if title == other then value else get other members)
  unfolding get set
  get-set title other value [] = refl
  get-set title other value ((key, old) ∷ members) = ground (
    arith,
    eq_iff key title,
    eq_iff key other,
    eq_iff title other,
    get-set title other value members,
  )

-- A chunk of the stream: its record, and what else it holds.
pub record RecordStreamContext (C K : Type 0) : Type 0 where
  pub context : K
  pub record_members : List (String × RecordValue C)

module _ {C : Type 0} (language : Language C) where
  -- The loop over the options: the record that is left, or `none` for one to skip.
  unfoldable pub deconflict_record :
      List (String × DeconflictOptions)
      → List (String × RecordValue C)
      → Result (Option (List (String × RecordValue C)))
  unfolding get set
  deconflict_record [] members = ok (some members)
  deconflict_record ((title, option) ∷ options) members = do
    resolution ← resolve_conflict language (get title members) option
    let rest = deconflict_record options (set title resolution.value members)
    if resolution.skip_record then ok none else rest

  abbrev pub send :
      {K : Type 0}
      → K
      → Option (List (String × RecordValue C))
      → List (RecordStreamContext C K)
      → List (RecordStreamContext C K)
  send context none sent = sent
  send context (some members) sent = record { context = context; record_members = members } ∷ sent

  -- The chunks to send.
  unfoldable pub deconflict_chunks :
      {K : Type 0}
      → List (String × DeconflictOptions)
      → List (RecordStreamContext C K)
      → Result (List (RecordStreamContext C K))
  unfolding deconflict_record
  deconflict_chunks options [] = ok []
  deconflict_chunks options (chunk ∷ chunks) = do
    left ← deconflict_record options chunk.record_members
    sent ← deconflict_chunks options chunks
    ok (send chunk.context left sent)

  -- A round that skips nothing.
  pub deconflict_round :
      (title : String) (option : DeconflictOptions) (options : List (String × DeconflictOptions))
      (members left : List (String × RecordValue C))
      → deconflict_record ((title, option) ∷ options) members ≡ ok (some left)
      → (resolution : Resolution C) × (resolve_conflict language (get title members) option
          ≡ ok resolution)
        × (resolution.skip_record ≡ false)
        × (deconflict_record options (set title resolution.value members) ≡ ok (some left))
  unfolding deconflict_record
  deconflict_round title option options members left e =
      let (resolution, call, rest) =
        >>=-eq-ok (resolve_conflict language (get title members) option)
          (λ r.
            if r.skip_record
            then ok none
            else deconflict_record options (set title r.value members))
          e in
      elim (Bool-cases resolution.skip_record) [
        | inl now ↦ ground (arith, now, rest)
        | inr keeps ↦ (resolution, call, keeps, rw keeps at rest)
      ]

  pub deconflict_record-others :
      (options : List (String × DeconflictOptions)) (members left : List (String × RecordValue C))
      (title : String)
      → All (λ o. title ≢ option_title o) options
      → deconflict_record options members ≡ ok (some left)
      → get title left ≡ get title members
  unfolding deconflict_record
  deconflict_record-others [] members left title d e = ground (arith, e)
  deconflict_record-others ((t, option) ∷ options) members left title (d, ds) e =
      let (resolution, call, keeps, rest) = deconflict_round t option options members left e in
      deconflict_record-others options (set t resolution.value members) left title ds rest
      ∙ get-set t title resolution.value members
      ∙ ground (arith, eq_iff t title, d)
