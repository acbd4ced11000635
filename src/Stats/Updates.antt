-- ===== src/Stats/Updates.antt =====
-- client-lib/src/transforms/StatsTransform.ts: `updateValueTypeStats`.
use datapm.Common.{
  ℕ, ◌+◌, String, true, false, Option, none, some, List, [], ◌∷◌, ◌==◌, length, ltb, if◌then◌else◌,
}
use Prim.Native.Nat.{◌%◌}
use datapm.PackageFile.Json.{Number}
use datapm.PackageFile.PropertyTree.{DpmPropertyType, ScalarStatistics, OptionCount, count, nan}
use datapm.Combine.Values.{NumberOrder}
use datapm.Combine.Labels.{is_inherited, is_accessor}
use datapm.Deconflict.Values.{
  RecordValue, undefined, null, text, boolean, number, date, array, Language, to_text,
}

-- What the code takes from the language besides `Language`.
pub record Measures (C : Type 0) : Type 0 where
  -- `s.length`, and how many elements an array has
  pub text_length : String → ℕ
  pub array_length : C → ℕ
  -- `Number.parseFloat(s)` where `s` has a point, and `Number.parseInt(s)` otherwise
  pub parse_number : String → Number
  -- the lengths of the parts of `s.split(".")`
  pub part_lengths : String → List ℕ
  -- `new Date(s)`, and the precision of the milliseconds of a time written as `s`
  pub new_date : String → Option ℕ
  pub text_precision : String → Option ℕ

-- `a == null || a < b ? b : a`
abbrev pub at_least : Option ℕ → ℕ → Option ℕ
at_least none b = some b
at_least (some a) b = if ltb a b then some b else some a

-- `a == null || a > b ? b : a`
abbrev pub at_most : Option ℕ → ℕ → Option ℕ
at_most none b = some b
at_most (some a) b = if ltb b a then some b else some a

-- `a || 0`
abbrev pub or_zero : Option ℕ → ℕ
or_zero none = 0
or_zero (some n) = n

abbrev pub larger_of : ℕ → ℕ → ℕ
larger_of a b = if ltb a b then b else a

abbrev pub smaller_of : ℕ → ℕ → ℕ
smaller_of a b = if ltb b a then b else a

abbrev pub total : List ℕ → ℕ
total [] = 0
total (n ∷ ns) = n + total ns

-- `parts.length === 2 ? parts[1].length : 0`
abbrev pub scale_of : List ℕ → ℕ
scale_of (a ∷ b ∷ []) = b
scale_of _ = 0

-- How many digits the milliseconds have without the zeros at their end.
unfoldable pub milliseconds_precision : ℕ → ℕ
milliseconds_precision n =
    if ltb n 1
    then 0
    else if ltb n 10
    then 1
    else if ltb n 100
    then (if ltb (n % 10) 1 then 1 else 2)
    else if ltb (n % 100) 1
    then 1
    else if ltb (n % 10) 1
    then 2
    else 3

-- `n++` of a count.
abbrev pub next_count : OptionCount → OptionCount
next_count (count n) = count (n + 1)
next_count nan = nan

-- The first count of an option. An inherited member is not null, and so is not set to 0 but counted up as it
-- is; the accessor takes no number.
abbrev pub first_count : String → Option OptionCount
first_count s = if is_accessor s then none else if is_inherited s then some nan else some (count 1)

abbrev pub one_option : String → Option OptionCount → List (String × OptionCount)
one_option s none = []
one_option s (some n) = (s, n) ∷ []

-- `stringOptions[s]++`, from 0 for a new option
unfoldable pub count_option : String → List (String × OptionCount) → List (String × OptionCount)
unfolding is_inherited is_accessor
count_option s [] = one_option s (first_count s)
count_option s ((option, n) ∷ options) =
    let rest = count_option s options in
    if option == s then (option, next_count n) ∷ options else (option, n) ∷ rest

abbrev pub fifty_at_most : List (String × OptionCount) → Option (List (String × OptionCount))
fifty_at_most options = if ltb 50 (length options) then none else some options

unfoldable pub counted : ScalarStatistics → ScalarStatistics
counted stats = record stats { record_count = some (or_zero stats.record_count + 1) }

abbrev pub without_options : ScalarStatistics → ScalarStatistics
without_options stats = record stats { string_options = none }

module _ {C : Type 0} (language : Language C) (measures : Measures C) (order : NumberOrder) where
  unfoldable pub string_stats : String → ScalarStatistics → ScalarStatistics
  string_stats s stats = record stats {
    string_max_length = at_least stats.string_max_length (measures.text_length s);
    string_min_length = at_most stats.string_min_length (measures.text_length s);
  }

  abbrev pub number_at_least : Option Number → Number → Option Number
  number_at_least none b = some b
  number_at_least (some a) b = if order.below a b then some b else some a

  abbrev pub number_at_most : Option Number → Number → Option Number
  number_at_most none b = some b
  number_at_most (some a) b = if order.below b a then some b else some a

  -- `numberValue` and the text of the value.
  unfoldable pub number_stats : Number → String → ScalarStatistics → ScalarStatistics
  number_stats n s stats = record stats {
    number_max_value = number_at_least stats.number_max_value n;
    number_min_value = number_at_most stats.number_min_value n;
    number_max_precision = at_least stats.number_max_precision (total (measures.part_lengths s));
    number_max_scale = at_least stats.number_max_scale (scale_of (measures.part_lengths s));
  }

  abbrev pub true_of : RecordValue C → ℕ
  true_of (boolean true) = 1
  true_of _ = 0

  abbrev pub false_of : RecordValue C → ℕ
  false_of (boolean false) = 1
  false_of _ = 0

  unfoldable pub boolean_stats : RecordValue C → ScalarStatistics → ScalarStatistics
  boolean_stats value stats = record stats {
    boolean_true_count = some (or_zero stats.boolean_true_count + true_of value);
    boolean_false_count = some (or_zero stats.boolean_false_count + false_of value);
  }

  -- A time that is valid, and the precision of its milliseconds.
  unfoldable pub time_stats : ℕ → ℕ → ScalarStatistics → ScalarStatistics
  time_stats time precision stats = record stats {
    date_max_value = at_least stats.date_max_value time;
    date_min_value = at_most stats.date_min_value time;
    date_max_millseconds_precision =
        some (larger_of (or_zero stats.date_max_millseconds_precision) precision);
  }

  abbrev pub or_computed : Option ℕ → ℕ → ℕ
  or_computed none precision = precision
  or_computed (some precision) computed = precision

  abbrev pub text_time_stats : String → Option ℕ → ScalarStatistics → ScalarStatistics
  text_time_stats s none stats = stats
  text_time_stats s (some time) stats =
      time_stats time
        (or_computed (measures.text_precision s) (milliseconds_precision (time % 1000))) stats

  unfoldable pub date_stats : RecordValue C → ScalarStatistics → ScalarStatistics
  unfolding milliseconds_precision time_stats to_text
  date_stats (date none) stats = stats
  date_stats (date (some time)) stats = time_stats time (milliseconds_precision (time % 1000)) stats
  date_stats (text s) stats = text_time_stats s (measures.new_date s) stats
  date_stats value stats = elim (measures.new_date (to_text language value)) [
    | none ↦ stats
    | some time ↦ time_stats time (milliseconds_precision (time % 1000)) stats
  ]

  -- The minimum is taken of the new maximum and the length.
  unfoldable pub array_stats : RecordValue C → ScalarStatistics → ScalarStatistics
  array_stats (array c) stats =
      let max = larger_of (or_zero stats.array_max_length) (measures.array_length c) in
      record stats {
        array_max_length = some max;
        array_min_length = some (smaller_of max (measures.array_length c));
      }
  array_stats value stats = stats

  -- What is counted of a text of this length.
  unfoldable pub option_stats : String → ScalarStatistics → ScalarStatistics
  unfolding count_option
  option_stats s stats = elim (stats.string_options) [
    | none ↦ stats
    | some options ↦ record stats {
      string_options =
          if ltb 50 (measures.text_length s) then none else fifty_at_most (count_option s options);
    }
  ]

  -- A value that is not null. Neither a number nor a text under a number type: nothing more happens.
  unfoldable pub value_stats : RecordValue C → DpmPropertyType → ScalarStatistics → ScalarStatistics
  unfolding to_text string_stats number_stats boolean_stats date_stats array_stats option_stats
  value_stats (number n) DpmPropertyType.number stats =
      option_stats n.text (number_stats n n.text stats)
  value_stats (number n) DpmPropertyType.integer stats =
      option_stats n.text (number_stats n n.text stats)
  value_stats (text s) DpmPropertyType.number stats =
      option_stats s (number_stats (measures.parse_number s) s stats)
  value_stats (text s) DpmPropertyType.integer stats =
      option_stats s (number_stats (measures.parse_number s) s stats)
  value_stats value DpmPropertyType.number stats = stats
  value_stats value DpmPropertyType.integer stats = stats
  value_stats (text s) DpmPropertyType.string stats = option_stats s (string_stats s stats)
  value_stats value DpmPropertyType.boolean stats =
      option_stats (to_text language value) (boolean_stats value stats)
  value_stats value DpmPropertyType.date stats =
      option_stats (to_text language value) (date_stats value stats)
  value_stats value DpmPropertyType.date_time stats =
      option_stats (to_text language value) (date_stats value stats)
  value_stats value DpmPropertyType.object stats = without_options stats
  value_stats value DpmPropertyType.array stats = without_options (array_stats value stats)
  value_stats value type stats = option_stats (to_text language value) stats

  unfoldable pub update_value_type_stats :
      RecordValue C → DpmPropertyType → ScalarStatistics → ScalarStatistics
  unfolding counted value_stats
  update_value_type_stats undefined type stats = counted stats
  update_value_type_stats null type stats = counted stats
  update_value_type_stats value type stats = value_stats value type (counted stats)
