-- ===== src/Common/Lists.antt =====
-- Lists: predicates by recursion, and the loop `for_each`.
use Prim.Native.Nat.{ℕ, suc}
use mathlib.Core.Bool.{Bool, true, false, ◌&&◌, ◌||◌}
use mathlib.Core.Logic.{◌⊎◌, inl, inr}
use mathlib.Core.Option.{Option, none, some}
use mathlib.Core.List.{List, [], ◌∷◌, ◌++◌}
use datapm.Common.Tests.{if◌then◌else◌}

module _ {ℓ} {A : Type ℓ} where
  abbrev pub length : List A → ℕ
  length [] = 0
  length (x ∷ xs) = suc (length xs)

  abbrev pub all : (A → Bool) → List A → Bool
  all p [] = true
  all p (x ∷ xs) = p x && all p xs

  abbrev pub any : (A → Bool) → List A → Bool
  any p [] = false
  any p (x ∷ xs) = p x || any p xs

  -- `xs.find(p)`
  abbrev pub find : (A → Bool) → List A → Option A
  find p [] = none
  find p (x ∷ xs) = if p x then some x else find p xs

module _ {ℓ κ} {A : Type ℓ} (P : A → Type κ) where
  abbrev pub All : List A → Type κ
  All [] = Unit
  All (x ∷ xs) = P x × All xs

  pub All-append : (xs ys : List A) → All xs → All ys → All (xs ++ ys)
  All-append [] ys h k = k
  All-append (x ∷ xs) ys (p, h) k = (p, All-append xs ys h k)

  pub All-append_left : (xs ys : List A) → All (xs ++ ys) → All xs
  All-append_left [] ys h = tt
  All-append_left (x ∷ xs) ys (p, h) = (p, All-append_left xs ys h)

  pub All-append_right : (xs ys : List A) → All (xs ++ ys) → All ys
  All-append_right [] ys h = h
  All-append_right (x ∷ xs) ys (p, h) = All-append_right xs ys h

pub All-map {ℓ κ ι} :
    {A : Type ℓ} (P : A → Type κ) (Q : A → Type ι) (f : (a : A) → P a → Q a) (xs : List A)
    → All P xs
    → All Q xs
All-map P Q f [] h = tt
All-map P Q f (x ∷ xs) (p, h) = (f x p, All-map P Q f xs h)

-- Some element of a list has the property.
module _ {ℓ} {A : Type ℓ} (P : A → Type 0) where
  abbrev pub Any : List A → Type 0
  Any [] = ⊥
  Any (x ∷ xs) = P x ⊎ Any xs

  pub Any-append_left : (xs ys : List A) → Any xs → Any (xs ++ ys)
  Any-append_left [] ys h = elim h [ ]
  Any-append_left (x ∷ xs) ys (inl p) = inl p
  Any-append_left (x ∷ xs) ys (inr h) = inr (Any-append_left xs ys h)

  pub Any-append_right : (xs ys : List A) → Any ys → Any (xs ++ ys)
  Any-append_right [] ys h = h
  Any-append_right (x ∷ xs) ys h = inr (Any-append_right xs ys h)
