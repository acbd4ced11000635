-- ===== src/Combine/Labels.antt =====
-- client-lib/src/util/SchemaUtil.ts: `combineContentLabels`, `combineStringOptions` and `combineSampleRecords`.
use datapm.Common.{
  ℕ, zero, suc, ◌+◌, String, Bool, true, false, not, ◌&&◌, ◌||◌, Option, none, some, List, [], ◌∷◌,
  ◌++◌, if◌then◌else◌, ltb, ◌==◌, any, find, length,
}
use datapm.PackageFile.Json.{Members}
use datapm.PackageFile.PropertyTree.{ContentLabel, OptionCount, count}
use datapm.Combine.Values.{last_then_first, sum_or_null}

unfoldable pub combine_content_label : ContentLabel → Option ContentLabel → ContentLabel
unfolding last_then_first sum_or_null
combine_content_label existing none = existing
combine_content_label existing (some new) = record {
  label = existing.label;
  hidden = existing.hidden || new.hidden;
  applied_by_content_detector =
      last_then_first existing.applied_by_content_detector new.applied_by_content_detector;
  ocurrence_count = sum_or_null existing.ocurrence_count new.ocurrence_count;
  values_tested_count = sum_or_null existing.values_tested_count new.values_tested_count;
}

abbrev pub has_label : String → List ContentLabel → Bool
has_label label labels = any (λ (l : ContentLabel). l.label == label) labels

-- The first loop, over the existing labels.
unfoldable pub combined_labels : List ContentLabel → List ContentLabel → List ContentLabel
unfolding combine_content_label
combined_labels [] new = []
combined_labels (l ∷ ls) new =
    combine_content_label l (find (λ (n : ContentLabel). n.label == l.label) new)
    ∷ combined_labels ls new

-- The second loop, over the new ones.
unfoldable pub add_labels : List ContentLabel → List ContentLabel → List ContentLabel
add_labels labels [] = labels
add_labels labels (n ∷ new) =
    add_labels (if has_label n.label labels then labels else labels ++ (n ∷ [])) new

abbrev pub or_no_labels : Option (List ContentLabel) → List ContentLabel
or_no_labels none = []
or_no_labels (some ls) = ls

unfoldable pub combine_content_labels :
    Option (List ContentLabel) → Option (List ContentLabel) → List ContentLabel
unfolding combined_labels add_labels
combine_content_labels existing new =
    add_labels (combined_labels (or_no_labels existing) (or_no_labels new)) (or_no_labels new)

-- The names of the members that each object inherits from `Object.prototype`.
abbrev pub inherited_names : List String
inherited_names =
    "constructor" ∷ "__defineGetter__" ∷ "__defineSetter__" ∷ "hasOwnProperty" ∷ "__lookupGetter__"
    ∷ "__lookupSetter__" ∷ "isPrototypeOf" ∷ "propertyIsEnumerable" ∷ "toString" ∷ "valueOf"
    ∷ "__proto__" ∷ "toLocaleString" ∷ []

unfoldable pub is_inherited : String → Bool
is_inherited name = any (λ n. n == name) inherited_names

-- An assignment of a number to the inherited accessor does nothing.
unfoldable pub is_accessor : String → Bool
is_accessor name = name == "__proto__"

-- `options[option]`, of the object's own members.
unfoldable pub option_count : String → List (String × OptionCount) → Option OptionCount
option_count k [] = none
option_count k ((j, n) ∷ options) = if j == k then some n else option_count k options

abbrev pub has_option : String → List (String × OptionCount) → Bool
has_option k options = any (λ (o : String × OptionCount). o.0 == k) options

-- What `sumOrNull` adds: `isNumber` leaves out `NaN`, and inherited functions and objects.
abbrev pub summand : Option OptionCount → ℕ
summand (some (count n)) = n
summand _ = 0

-- The keys of an object are distinct: each assignment of the two loops adds a member, but for the accessor.
unfoldable pub summed_options :
    List (String × OptionCount) → List (String × OptionCount) → List (String × OptionCount)
unfolding option_count is_accessor
summed_options [] new = []
summed_options ((k, n) ∷ options) new =
    let rest = summed_options options new in
    if is_accessor k
    then rest
    else (k, count (summand (some n) + summand (option_count k new))) ∷ rest

-- `returnValue[option] === undefined` is false of an inherited name as well.
unfoldable pub missing_options :
    List (String × OptionCount) → List (String × OptionCount) → List (String × OptionCount)
unfolding is_inherited
missing_options existing [] = []
missing_options existing ((k, n) ∷ new) =
    let rest = missing_options existing new in
    if has_option k existing || is_inherited k then rest else (k, n) ∷ rest

unfoldable pub combine_string_options :
    Option (List (String × OptionCount))
    → Option (List (String × OptionCount))
    → Option (List (String × OptionCount))
unfolding last_then_first summed_options missing_options
combine_string_options (some existing) (some new) =
    some (summed_options existing new ++ missing_options existing new)
combine_string_options none new = last_then_first none new
combine_string_options (some existing) none = last_then_first (some existing) none

abbrev pub sample_record_count_max : ℕ
sample_record_count_max = 100

abbrev pub tail_of {ℓ} : {A : Type ℓ} → List A → List A
tail_of [] = []
tail_of (x ∷ xs) = xs

abbrev pub first_of {ℓ} : {A : Type ℓ} → List A → List A
first_of [] = []
first_of (x ∷ xs) = x ∷ []

abbrev pub is_over {ℓ} : {A : Type ℓ} → List A → List A → Bool
is_over [] [] = true
is_over _ _ = false

-- The loop, from a length of `returnValue`, over the records that are left: as many rounds as the
-- two lists have records are given, which is enough.
unfoldable pub take_turns : ℕ → ℕ → List Members → List Members → List Members
take_turns zero taken existing new = []
take_turns (suc rounds) taken existing new =
    let here = first_of existing ++ first_of new in
    let rest = take_turns rounds (taken + length here) (tail_of existing) (tail_of new) in
    if not (is_over existing new) && ltb taken sample_record_count_max then here ++ rest else []

unfoldable pub combine_sample_records :
    Option (List Members) → Option (List Members) → Option (List Members)
unfolding last_then_first take_turns
combine_sample_records (some existing) (some new) =
    some (take_turns (length existing + length new) 0 existing new)
combine_sample_records none new = last_then_first none new
combine_sample_records (some existing) none = last_then_first (some existing) none
