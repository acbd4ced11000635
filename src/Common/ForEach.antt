-- ===== src/Common/ForEach.antt =====
-- The laws of the loop `for_each`.
use mathlib.Core.Path.{◌≡◌, refl, subst}
use mathlib.Core.List.{List, [], ◌∷◌, ◌++◌}
use datapm.Common.Errors.{Result, ok, >>=-eq-ok, for_each, ok_injective}
use datapm.Common.Lists.{All, All-append, All-append_left, All-append_right}

module _ {ℓ κ} {A : Type ℓ} {B : Type κ} where
  pub for_each-nil :
      (xs : List A) (f : A → Result (List B)) → All (λ x. f x ≡ ok []) xs → for_each xs f ≡ ok []
  unfolding for_each
  for_each-nil [] f h = refl
  for_each-nil (x ∷ xs) f (e, h) = rw (e, for_each-nil xs f h)

  -- What holds of all that the loop collects held of what each round returned.
  pub for_each-inversion :
      (P : B → Type 0) (xs : List A) (f : A → Result (List B)) (ys : List B)
      → for_each xs f ≡ ok ys
      → All P ys
      → All (λ x. (zs : List B) × (f x ≡ ok zs) × All P zs) xs
  unfolding for_each
  for_each-inversion P [] f ys e h = tt
  for_each-inversion P (x ∷ xs) f ys e h =
      let (here, e₁, k₁) = >>=-eq-ok (f x) _ e in
      let (rest, e₂, k₂) = >>=-eq-ok (for_each xs f) _ k₁ in
      let whole : here ++ rest ≡ ys = ok_injective k₂ in
      let h' : All P (here ++ rest) = rw whole h in
      (
        (here, e₁, All-append_left P here rest h'),
        for_each-inversion P xs f rest e₂ (All-append_right P here rest h'),
      )

  -- What holds of what each round returns holds of all that the loop collects.
  pub for_each-All :
      (P : B → Type 0) (xs : List A) (f : A → Result (List B))
      → ((x : A) (zs : List B) → f x ≡ ok zs → All P zs)
      → (ys : List B) → for_each xs f ≡ ok ys
      → All P ys
  unfolding for_each
  for_each-All P [] f h ys e = subst (All P) (ok_injective e) tt
  for_each-All P (x ∷ xs) f h ys e =
      let (here, e₁, k₁) = >>=-eq-ok (f x) _ e in
      let (rest, e₂, k₂) = >>=-eq-ok (for_each xs f) _ k₁ in
      subst (All P) (ok_injective k₂)
        (All-append P here rest (h x here e₁) (for_each-All P xs f h rest e₂))
