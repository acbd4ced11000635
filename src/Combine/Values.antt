-- ===== src/Combine/Values.antt =====
-- client-lib/src/util/SchemaUtil.ts: combining two optional values. A number that is only carried along is
-- given by its text, so the order of such numbers and the test of `is-number` are a parameter. Times
-- are natural numbers, which lie behind the first date of the language, from which `dateMaxOrNull` starts.
use datapm.Common.{ℕ, ◌+◌, Bool, true, Option, none, some, if◌then◌else◌, ltb}
use datapm.PackageFile.Json.{Number}

-- What the code does with a `number`: `isNumber`, and the `<` that `Math.max` and `Math.min` make.
pub record NumberOrder : Type 0 where
  pub is_number : Number → Bool
  pub below : Number → Number → Bool

unfoldable pub last_then_first {ℓ} : {A : Type ℓ} → Option A → Option A → Option A
last_then_first none b = b
last_then_first (some a) b = some a

-- `a || b` of two optional flags.
unfoldable pub either_flag : Option Bool → Option Bool → Option Bool
either_flag (some true) b = some true
either_flag _ b = b

abbrev pub or_zero : Option ℕ → ℕ
or_zero none = 0
or_zero (some n) = n

-- The sum starts at 0, and so is never absent.
unfoldable pub sum_or_null : Option ℕ → Option ℕ → Option ℕ
sum_or_null a b = some (or_zero a + or_zero b)

-- `numberValues` of two values, joined by the function if there are two.
unfoldable pub join_values {ℓ} : {A : Type ℓ} → (A → A → A) → Option A → Option A → Option A
join_values f none none = none
join_values f none (some b) = some b
join_values f (some a) none = some a
join_values f (some a) (some b) = some (f a b)

abbrev pub larger : ℕ → ℕ → ℕ
larger a b = if ltb a b then b else a

abbrev pub smaller : ℕ → ℕ → ℕ
smaller a b = if ltb b a then b else a

-- `maxOrNull` and `minOrNull` of counts and lengths.
unfoldable pub max_or_null : Option ℕ → Option ℕ → Option ℕ
unfolding join_values
max_or_null a b = join_values larger a b

unfoldable pub min_or_null : Option ℕ → Option ℕ → Option ℕ
unfolding join_values
min_or_null a b = join_values smaller a b

-- `maxOrNull` and `minOrNull` of the values of number properties.
module _ (order : NumberOrder) where
  abbrev pub only_number : Option Number → Option Number
  only_number none = none
  only_number (some n) = if order.is_number n then some n else none

  unfoldable pub number_max_or_null : Option Number → Option Number → Option Number
  unfolding join_values
  number_max_or_null a b =
      join_values (λ x y. if order.below x y then y else x) (only_number a) (only_number b)

  unfoldable pub number_min_or_null : Option Number → Option Number → Option Number
  unfolding join_values
  number_min_or_null a b =
      join_values (λ x y. if order.below y x then y else x) (only_number a) (only_number b)

-- `p.getTime() > c.getTime() ? p : c`
abbrev pub later_date : ℕ → ℕ → ℕ
later_date p c = if ltb c p then p else c

unfoldable pub date_max_or_null : Option ℕ → Option ℕ → Option ℕ
unfolding join_values
date_max_or_null a b = join_values later_date a b

-- `new Date(8640000000000000)`, the last date of the language.
abbrev pub last_date : ℕ
last_date = 8640000000000000

-- `dateMinOrNull`, from that date on.
unfoldable pub date_min_or_null : Option ℕ → Option ℕ → Option ℕ
date_min_or_null none none = none
date_min_or_null none (some b) = some (later_date last_date b)
date_min_or_null (some a) none = some (later_date last_date a)
date_min_or_null (some a) (some b) = some (later_date (later_date last_date a) b)

unfoldable pub oldest_or_either : Option ℕ → Option ℕ → Option ℕ
oldest_or_either none b = b
oldest_or_either (some a) none = some a
oldest_or_either (some a) (some b) = some (if ltb a b then a else b)

unfoldable pub newest_or_either : Option ℕ → Option ℕ → Option ℕ
newest_or_either none b = b
newest_or_either (some a) none = some a
newest_or_either (some a) (some b) = some (if ltb b a then a else b)
