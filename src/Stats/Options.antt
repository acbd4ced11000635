-- ===== src/Stats/Options.antt =====
-- client-lib/src/transforms/StatsTransform.ts: `updateValueTypeStats` over a sequence of texts, and the lengths.
use datapm.Common.{
  ℕ, ◌+◌, ◌≤◌, String, Option, none, some, List, [], ◌∷◌, ◌≡◌, ◌⊎◌, refl, sym, ap, ◌∙◌, ltb,
  if◌then◌else◌, arith, Option-cases, inl, inr, All, Any,
}
use datapm.PackageFile.PropertyTree.{DpmPropertyType, ScalarStatistics, OptionCount}
use datapm.Combine.Values.{NumberOrder}
use datapm.Deconflict.Values.{text, Language}
use datapm.Stats.Updates.{
  Measures, at_least, at_most, or_zero, smaller_of, larger_of, count_option, string_stats,
  option_stats, counted, value_stats, update_value_type_stats, fifty_at_most,
}

smaller_of_lem :
    (a b : ℕ)
    → (smaller_of a b ≤ a) × (smaller_of a b ≤ b) × ((smaller_of a b ≡ a) ⊎ (smaller_of a b ≡ b))
smaller_of_lem a b = ground arith

larger_of_lem :
    (a b : ℕ)
    → (a ≤ larger_of a b) × (b ≤ larger_of a b) × ((larger_of a b ≡ a) ⊎ (larger_of a b ≡ b))
larger_of_lem a b = ground arith

-- The last extreme is the one of the rest, which may be the first value or the extreme before.
attained :
    {P : Type 0} (x now before first : ℕ)
    → (x ≡ now) ⊎ P
    → (now ≡ before) ⊎ (now ≡ first)
    → (x ≡ before) ⊎ ((first ≡ x) ⊎ P)
attained x now before first (inr p) h = inr (inr p)
attained x now before first (inl e) (inl f) = inl (e ∙ f)
attained x now before first (inl e) (inr f) = inr (inl (sym (e ∙ f)))

flipped : {P : Type 0} (x y : ℕ) → (x ≡ y) ⊎ P → (y ≡ x) ⊎ P
flipped x y (inl e) = inl (sym e)
flipped x y (inr p) = inr p

module _ {C : Type 0} (language : Language C) (measures : Measures C) (order : NumberOrder) where
  -- The statistics after texts, in order.
  unfoldable pub text_stats : List String → ScalarStatistics → ScalarStatistics
  text_stats [] stats = stats
  text_stats (s ∷ ss) stats =
      text_stats ss
        (update_value_type_stats language measures order (text s) DpmPropertyType.string stats)

  abbrev pub next_options :
      String → Option (List (String × OptionCount)) → Option (List (String × OptionCount))
  next_options s none = none
  next_options s (some options) =
      if ltb 50 (measures.text_length s) then none else fifty_at_most (count_option s options)

  pub update-fields :
      (s : String) (stats : ScalarStatistics)
      → let next =
          update_value_type_stats language measures order (text s) DpmPropertyType.string stats in
        (next.string_options ≡ next_options s stats.string_options)
        × (next.string_max_length ≡ at_least stats.string_max_length (measures.text_length s))
        × (next.string_min_length ≡ at_most stats.string_min_length (measures.text_length s))
        × (next.record_count ≡ some (or_zero stats.record_count + 1))
  unfolding update_value_type_stats value_stats option_stats string_stats counted
  update-fields s stats = elim (Option-cases stats.string_options) [
    | inl e ↦ rw (e, option_stats, e) (refl, refl, refl, refl)
    | inr (options, e) ↦ rw (e, option_stats) (refl, refl, refl, refl)
  ]

  pub text_stats-no_options :
      (ss : List String) (stats : ScalarStatistics)
      → stats.string_options ≡ none
      → (text_stats ss stats).string_options ≡ none
  unfolding text_stats
  text_stats-no_options [] stats h = h
  text_stats-no_options (s ∷ ss) stats h =
      text_stats-no_options ss
        (update_value_type_stats language measures order (text s) DpmPropertyType.string stats)
        ((update-fields s stats).0 ∙ ap (next_options s) h)

  text_stats-range :
      (ss : List String) (stats : ScalarStatistics) (low high : ℕ)
      → stats.string_min_length ≡ some low
      → stats.string_max_length ≡ some high
      → (min max : ℕ) × ((text_stats ss stats).string_min_length ≡ some min)
        × ((text_stats ss stats).string_max_length ≡ some max)
        × (min ≤ low)
        × (high ≤ max)
        × All (λ s. (min ≤ measures.text_length s) × (measures.text_length s ≤ max)) ss
        × ((min ≡ low) ⊎ Any (λ s. measures.text_length s ≡ min) ss)
        × ((max ≡ high) ⊎ Any (λ s. measures.text_length s ≡ max) ss)
  unfolding text_stats
  text_stats-range [] stats low high l h =
      (low, high, l, h, omega arith, omega arith, tt, inl refl, inl refl)
  text_stats-range (s ∷ ss) stats low high l h =
      let next =
        update_value_type_stats language measures order (text s) DpmPropertyType.string stats in
      let len = measures.text_length s in
      let (options, highest, lowest, count) = update-fields s stats in
      let (s1, s2, s3) = smaller_of_lem low len in
      let (l1, l2, l3) = larger_of_lem high len in
      let l_next : next.string_min_length ≡ some (smaller_of low len) = ground (arith, lowest, l) in
      let h_next : next.string_max_length ≡ some (larger_of high len) =
        ground (arith, highest, h) in
      let (min, max, e, f, below, above, within, low_there, high_there) =
        text_stats-range ss next (smaller_of low len) (larger_of high len) l_next h_next in
      (
        min,
        max,
        e,
        f,
        omega arith,
        omega arith,
        ((omega arith, omega arith), within),
        attained min (smaller_of low len) low len low_there s3,
        attained max (larger_of high len) high len high_there l3,
      )

  -- After texts of which there is one at least, from statistics without a length, the smallest and the largest length are bounds of
  -- the lengths of all texts, and each is the length of one of them.
  text_stats-bounds :
      (s : String) (ss : List String) (stats : ScalarStatistics)
      → stats.string_min_length ≡ none
      → stats.string_max_length ≡ none
      → (min max : ℕ) × ((text_stats (s ∷ ss) stats).string_min_length ≡ some min)
        × ((text_stats (s ∷ ss) stats).string_max_length ≡ some max)
        × All (λ t. (min ≤ measures.text_length t) × (measures.text_length t ≤ max)) (s ∷ ss)
        × Any (λ t. measures.text_length t ≡ min) (s ∷ ss)
        × Any (λ t. measures.text_length t ≡ max) (s ∷ ss)
  unfolding text_stats
  text_stats-bounds s ss stats l h =
      let next =
        update_value_type_stats language measures order (text s) DpmPropertyType.string stats in
      let len = measures.text_length s in
      let (options, highest, lowest, count) = update-fields s stats in
      let l_next : next.string_min_length ≡ some len = ground (arith, lowest, l) in
      let h_next : next.string_max_length ≡ some len = ground (arith, highest, h) in
      let (min, max, e, f, below, above, within, low_there, high_there) =
        text_stats-range ss next len len l_next h_next in
      (
        min,
        max,
        e,
        f,
        ((below, above), within),
        flipped min len low_there,
        flipped max len high_there,
      )
