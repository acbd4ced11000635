-- ===== src/Common/Tests.antt =====
-- Boolean tests, the conditional, and the comparisons of optional values that `===` makes.
use Prim.Native.Nat.{ℕ, compare, Ordering, ◌<◌, ◌≤◌}
use Prim.Native.String
use Prim.Native.String.{String}
use mathlib.Core.Path.{◌≡◌, refl}
use mathlib.Core.Logic.{◌⊎◌, inl, inr}
use mathlib.Core.Bool.{Bool, true, false}
use mathlib.Core.Option.{Option, none, some}
use native.Mathlib.Omega.{arith}
use text.Mathlib.Text.{◌==◌}
use text.Mathlib.TextPositions.{eq_refl}

abbrev pub ltb : ℕ → ℕ → Bool
ltb a b = elim (compare a b) [ Ordering.lt ↦ true | _ ↦ false ]

abbrev pub leb : ℕ → ℕ → Bool
leb a b = elim (compare a b) [ Ordering.gt ↦ false | _ ↦ true ]

abbrev pub nat_eq : ℕ → ℕ → Bool
nat_eq a b = elim (compare a b) [ Ordering.eq ↦ true | _ ↦ false ]

pub ltb-true : (a b : ℕ) → ltb a b ≡ true → a < b
ltb-true a b h = ground arith

pub ltb-false : (a b : ℕ) → ltb a b ≡ false → b ≤ a
ltb-false a b h = ground arith

pub leb-true : (a b : ℕ) → leb a b ≡ true → a ≤ b
leb-true a b h = ground arith

pub leb-false : (a b : ℕ) → leb a b ≡ false → b < a
leb-false a b h = ground arith

pub nat_eq_refl : (a : ℕ) → nat_eq a a ≡ true
nat_eq_refl a = ground arith

infix 1 if◌then◌else◌
abbrev pub if◌then◌else◌ {ℓ} : {A : Type ℓ} → Bool → A → A → A
if true then x else y = x
if false then x else y = y

pub Bool-cases : (b : Bool) → (b ≡ true) ⊎ (b ≡ false)
Bool-cases true = inl refl
Bool-cases false = inr refl

pub Option-cases {ℓ} : {A : Type ℓ} (o : Option A) → (o ≡ none) ⊎ ((a : A) × (o ≡ some a))
Option-cases none = inl refl
Option-cases (some a) = inr (a, refl)

-- `a === b` where either may be undefined.
abbrev pub text_eq : Option String → Option String → Bool
text_eq none none = true
text_eq none (some b) = false
text_eq (some a) none = false
text_eq (some a) (some b) = a == b

pub text_eq_refl : (a : Option String) → text_eq a a ≡ true
text_eq_refl none = refl
text_eq_refl (some a) = eq_refl a

-- `flag === true` for an optional flag.
abbrev pub is_set : Option Bool → Bool
is_set none = false
is_set (some b) = b

-- `a + b` of two strings.
infixl 65 ◌&◌
abbrev pub ◌&◌ : String → String → String
a & b = String.◌++◌ a b
