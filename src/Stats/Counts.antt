-- ===== src/Stats/Counts.antt =====
-- client-lib/src/transforms/StatsTransform.ts, `updateValueTypeStats`: the counts of the options of texts.
use datapm.Common.{
  ℕ, zero, suc, ◌+◌, ◌≤◌, String, Bool, true, false, ◌||◌, Option, none, some, List, [], ◌∷◌, ◌==◌,
  ◌≡◌, ◌≢◌, refl, ap, ◌∙◌, length, ltb, if◌then◌else◌, arith, Bool-cases, Option-cases, inl, inr,
  All, Unique, eq_iff, any,
}
use datapm.PackageFile.PropertyTree.{DpmPropertyType, ScalarStatistics, OptionCount, count, nan}
use datapm.Combine.Values.{NumberOrder}
use datapm.Combine.Labels.{option_count, is_inherited, is_accessor}
use datapm.Deconflict.Values.{text, Language}
use datapm.Stats.Updates.{
  Measures, count_option, first_count, next_count, one_option, update_value_type_stats,
}
use datapm.Stats.Options.{text_stats, next_options, update-fields, text_stats-no_options}

-- How often a text comes.
unfoldable pub occurrences : String → List String → ℕ
occurrences k [] = 0
occurrences k (s ∷ ss) = (if s == k then 1 else 0) + occurrences k ss

-- The count of a text that came so often: none of `__proto__`, and `NaN` of the other names of members of
-- `Object.prototype`.
unfoldable pub expected_count : String → ℕ → Option OptionCount
expected_count k zero = none
expected_count k (suc n) =
    if is_accessor k then none else if is_inherited k then some nan else some (count (suc n))

-- All texts counted, however many there are and however long they are.
unfoldable pub tally : List String → List (String × OptionCount) → List (String × OptionCount)
tally [] options = options
tally (s ∷ ss) options = tally ss (count_option s options)

abbrev pub option_name : String × OptionCount → String
option_name (name, n) = name

abbrev bumped : String → Option OptionCount → Option OptionCount
bumped k none = first_count k
bumped k (some n) = some (next_count n)

-- The count of a name in the list of one other name, or of the name itself.
option_count-one_option :
    (k s : String) (n : Option OptionCount)
    → option_count k (one_option s n) ≡ (if s == k then n else none)
unfolding option_count
option_count-one_option k s none = ground arith
option_count-one_option k s (some n) = ground arith

first_count-same :
    (k s : String)
    → (if s == k then first_count s else none) ≡ (if s == k then first_count k else none)
first_count-same k s = elim (Bool-cases (s == k)) [
  | inl same ↦ rw same (ap first_count (eq_of s k same))
  | inr other ↦ rw other refl
]
  where
    eq_of : (a b : String) → (a == b) ≡ true → a ≡ b
    eq_of a b h = ground (arith, eq_iff a b, h)

option_count-count_option :
    (k s : String) (options : List (String × OptionCount))
    → option_count k (count_option s options)
      ≡ (if s == k then bumped k (option_count k options) else option_count k options)
unfolding option_count count_option
option_count-count_option k s [] =
    option_count-one_option k s (first_count s) ∙ first_count-same k s
option_count-count_option k s ((j, n) ∷ options) = elim (Bool-cases (j == k)) [
  | inl here ↦ elim (Bool-cases (j == s)) [
    | inl same ↦
        let at : (s == k) ≡ true = ground (arith, eq_iff j s, eq_iff j k, eq_iff s k) in
        rw (here, same, at, option_count) (rw here refl)
    | inr other ↦
        let at : (s == k) ≡ false = ground (arith, eq_iff j s, eq_iff j k, eq_iff s k) in
        rw (here, other, at, option_count) (rw here refl)
  ]
  | inr there ↦ elim (Bool-cases (j == s)) [
    | inl same ↦
        let at : (s == k) ≡ false = ground (arith, eq_iff j s, eq_iff j k, eq_iff s k) in
        rw (there, same, at, option_count) (rw there refl)
    | inr other ↦ rw (there, other, option_count) (rw there (option_count-count_option k s options))
  ]
]

bumped_expected : (k : String) (n : ℕ) → bumped k (expected_count k n) ≡ expected_count k (n + 1)
unfolding expected_count
bumped_expected k zero = ground arith
bumped_expected k (suc n) = ground arith

option_count-tally :
    (k : String) (ss : List String) (options : List (String × OptionCount)) (n : ℕ)
    → option_count k options ≡ expected_count k n
    → option_count k (tally ss options) ≡ expected_count k (n + occurrences k ss)
unfolding tally occurrences
option_count-tally k [] options n h = h ∙ ap (expected_count k) (omega arith)
option_count-tally k (s ∷ ss) options n h =
    option_count-tally k ss (count_option s options) (n + (if s == k then 1 else 0)) (
      option_count-count_option k s options ∙ elim (Bool-cases (s == k)) [
        | inl same ↦ rw same (ap (bumped k) h ∙ bumped_expected k n)
        | inr other ↦ rw other (h ∙ ap (expected_count k) (omega arith))
      ])
    ∙ ap (expected_count k) (omega arith)

count_option-All :
    (P : String → Type 0) (s : String) (options : List (String × OptionCount))
    → P s
    → All (λ o. P (option_name o)) options
    → All (λ o. P (option_name o)) (count_option s options)
unfolding count_option
count_option-All P s [] p h = elim (Option-cases (first_count s)) [
  | inl e ↦ rw e tt
  | inr (n, e) ↦ rw e (p, tt)
]
count_option-All P s ((j, n) ∷ options) p (q, h) = elim (Bool-cases (j == s)) [
  | inl same ↦ rw (same, count_option) (q, h)
  | inr other ↦ rw (other, count_option) (q, count_option-All P s options p h)
]

count_option-Unique :
    (s : String) (options : List (String × OptionCount))
    → Unique option_name options
    → Unique option_name (count_option s options)
unfolding count_option
count_option-Unique s [] u = elim (Option-cases (first_count s)) [
  | inl e ↦ rw e tt
  | inr (n, e) ↦ rw e (tt, tt)
]
count_option-Unique s ((j, n) ∷ options) (d, u) = elim (Bool-cases (j == s)) [
  | inl same ↦ rw (same, count_option) (d, u)
  | inr other ↦
      rw (other, count_option)
        (
          count_option-All (λ k. j ≢ k) s options (ground (arith, eq_iff j s, other)) d,
          count_option-Unique s options u,
        )
]

tally-Unique :
    (ss : List String) (options : List (String × OptionCount))
    → Unique option_name options
    → Unique option_name (tally ss options)
unfolding tally
tally-Unique [] options u = u
tally-Unique (s ∷ ss) options u = tally-Unique ss _ (count_option-Unique s options u)

length-count_option :
    (s : String) (options : List (String × OptionCount))
    → length options ≤ length (count_option s options)
unfolding count_option
length-count_option s [] = omega arith
length-count_option s ((j, n) ∷ options) = ground (arith, length-count_option s options)

length-tally :
    (ss : List String) (options : List (String × OptionCount))
    → length options ≤ length (tally ss options)
unfolding tally
length-tally [] options = omega arith
length-tally (s ∷ ss) options =
    let one = length-count_option s options in
    let more = length-tally ss (count_option s options) in omega arith

module _ {C : Type 0} (language : Language C) (measures : Measures C) (order : NumberOrder) where
  abbrev pub is_long : String → Bool
  is_long s = ltb 50 (measures.text_length s)

  -- The options that are kept, by the lengths of all texts and the number of all options.
  abbrev kept_options :
      List String → List (String × OptionCount) → Option (List (String × OptionCount))
  kept_options ss options =
      if any is_long ss || ltb 50 (length (tally ss options)) then none else some (tally ss options)

  -- Once there are too many options, there are in the end.
  many-tally :
      (ss : List String) (options : List (String × OptionCount))
      → ltb 50 (length options) ≡ true
      → ltb 50 (length (tally ss options)) ≡ true
  many-tally ss options h = let more = length-tally ss options in ground (arith, h)

  text_stats-tally :
      (ss : List String) (stats : ScalarStatistics) (options : List (String × OptionCount))
      → stats.string_options ≡ some options
      → ltb 50 (length options) ≡ false
      → (text_stats language measures order ss stats).string_options ≡ kept_options ss options
  unfolding text_stats tally
  text_stats-tally [] stats options h few = rw few h
  text_stats-tally (s ∷ ss) stats options h few =
      let next =
        update_value_type_stats language measures order (text s) DpmPropertyType.string stats in
      let now : next.string_options ≡ next_options language measures order s (some options) =
        (update-fields language measures order s stats).0
        ∙ ap (next_options language measures order s) h in
      elim (Bool-cases (is_long s)) [
        | inl long ↦
            rw long (text_stats-no_options language measures order ss next (now ∙ rw long refl))
        | inr short ↦ elim (Bool-cases (ltb 50 (length (count_option s options)))) [
          | inl many ↦
              text_stats-no_options language measures order ss next (now ∙ rw (short, many) refl)
              ∙ (let too_many = many-tally ss (count_option s options) many in
                  ground (arith, short, too_many))
          | inr still_few ↦ rw short (
              text_stats-tally ss next (count_option s options) (now ∙ rw (short, still_few) refl)
                still_few)
        ]
      ]

  -- After a sequence of texts, from statistics that have counted no options: the options are gone exactly if
  -- some text is longer than 50 or there are more than 50 different options, and otherwise they are those
  -- of the tally. In the tally the options are different, and each text has the number of times that it came
  -- as its count, but for the names of members of `Object.prototype`: the count of `__proto__` is not kept,
  -- and that of the others is `NaN`.
  pub text_stats-counts :
      (ss : List String) (stats : ScalarStatistics)
      → stats.string_options ≡ some []
      → let options = tally ss [] in
        ((text_stats language measures order ss stats).string_options
          ≡ (if any is_long ss || ltb 50 (length options) then none else some options))
        × Unique option_name options
        × ((k : String) → option_count k options ≡ expected_count k (occurrences k ss))
  unfolding option_count expected_count
  text_stats-counts ss stats h = (
    text_stats-tally ss stats [] h refl,
    tally-Unique ss [] tt,
    λ k. option_count-tally k ss [] 0 refl ∙ ap (expected_count k) (omega arith),
  )
