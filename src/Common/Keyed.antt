-- ===== src/Common/Keyed.antt =====
-- Lists whose elements have distinct keys.
use Prim.Native.String.{String}
use mathlib.Core.Path.{◌≡◌, sym, ◌∙◌}
use mathlib.Core.Bool.{Bool, true, false, ◌||◌}
use mathlib.Core.Logic.{◌≢◌, inl, inr}
use mathlib.Core.Option.{some}
use mathlib.Core.List.{List, [], ◌∷◌}
use native.Mathlib.Omega.{arith}
use text.Mathlib.Text.{◌==◌}
use text.Mathlib.TextEquality.{eq_iff}
use text.Mathlib.TextPositions.{eq_refl}
use datapm.Common.Tests.{Bool-cases}
use datapm.Common.Lists.{All, All-map, any, find}

-- No two elements of the list have the same key.
abbrev pub Unique {ℓ} : {A : Type ℓ} → (A → String) → List A → Type 0
Unique key [] = Unit
Unique key (x ∷ xs) = All (λ y. key x ≢ key y) xs × Unique key xs

-- In a list with unique keys, what holds of each element and itself holds of each two elements of
-- the same key.
module _ {ℓ} {A : Type ℓ} (key : A → String) (R : A → A → Type 0) where
  others_left :
      (x : A) (xs : List A) → All (λ y. key x ≢ key y) xs → All (λ y. key x ≡ key y → R x y) xs
  others_left x [] h = tt
  others_left x (y ∷ ys) (n, h) = (λ e. absurd (n e), others_left x ys h)

  others_right :
      (x : A) (xs : List A) (P : A → Type 0)
      → ((y : A) → key x ≢ key y → P y → (key y ≡ key x → R y x) × P y)
      → All (λ y. key x ≢ key y) xs
      → All P xs
      → All (λ y. (key y ≡ key x → R y x) × P y) xs
  others_right x [] P f h k = tt
  others_right x (y ∷ ys) P f (n, h) (p, k) = (f y n p, others_right x ys P f h k)

  pub same_key_All :
      (xs : List A)
      → Unique key xs
      → All (λ x. R x x) xs
      → All (λ x. All (λ y. key x ≡ key y → R x y) xs) xs
  same_key_All [] u h = tt
  same_key_All (x ∷ xs) (n, u) (r, h) = (
    (λ e. r, others_left x xs n),
    others_right x xs (λ y. All (λ z. key y ≡ key z → R y z) xs)
        (λ y ne k. (λ e. absurd (ne (sym e)), k)) n (same_key_All xs u h),
  )

-- Every element of a list is found by its key.
module _ {ℓ} {A : Type ℓ} (key : A → String) where
  pub any_key : (xs : List A) → All (λ x. any (λ y. key x == key y) xs ≡ true) xs
  any_key [] = tt
  any_key (x ∷ xs) =
      (rw (eq_refl (key x)), All-map _ _ (λ y h. rw h (or_true (key y == key x))) xs (any_key xs))
    where
      or_true : (b : Bool) → (b || true) ≡ true
      or_true b = ground arith

  pub find_self :
      (xs : List A) → Unique key xs → All (λ x. find (λ y. key y == key x) xs ≡ some x) xs
  find_self [] u = tt
  find_self (x ∷ xs) (n, u) = (rw (eq_refl (key x)), later xs xs n (find_self xs u))
    where
      later :
          (ys zs : List A)
          → All (λ y. key x ≢ key y) ys
          → All (λ y. find (λ z. key z == key y) zs ≡ some y) ys
          → All (λ y. find (λ z. key z == key y) (x ∷ zs) ≡ some y) ys
      later [] zs n h = tt
      later (y ∷ ys) zs (ne, n) (f, h) = (
        elim (Bool-cases (key x == key y)) [
          | inl e ↦ absurd (ne ((eq_iff (key x) (key y)).0 e))
          | inr e ↦ rw e f
        ],
        later ys zs n h,
      )

pub different_sym : (a b : String) → (a == b) ≡ false → (b == a) ≡ false
different_sym a b n = elim (Bool-cases (b == a)) [
  | inl t ↦ let same = (eq_iff a b).1 (sym ((eq_iff b a).0 t)) in absurd (apart (sym same ∙ n))
  | inr f ↦ f
]
  where
    apart : true ≡ false → ⊥
    apart p = cc
