-- ===== src/Transforms/Chunks.antt =====
-- Sequences of chunks: how much of them is taken, dropped and joined.
use datapm.Common.{
  ℕ, zero, suc, ◌+◌, ◌-◌, ◌∙◌, ◌≤◌, List, [], ◌∷◌, ◌++◌, length, ◌≡◌, refl, ap, arith,
}

module _ {ℓ} {A : Type ℓ} where
  abbrev pub take : ℕ → List A → List A
  take zero xs = []
  take (suc n) [] = []
  take (suc n) (x ∷ xs) = x ∷ take n xs

  abbrev pub drop : ℕ → List A → List A
  drop zero xs = xs
  drop (suc n) [] = []
  drop (suc n) (x ∷ xs) = drop n xs

  abbrev pub concat : List (List A) → List A
  concat [] = []
  concat (xs ∷ xss) = xs ++ concat xss

  pub drop_nil : (n : ℕ) → drop n [] ≡ []
  drop_nil zero = refl
  drop_nil (suc n) = refl

  pub take-drop : (n : ℕ) (xs : List A) → take n xs ++ drop n xs ≡ xs
  take-drop zero xs = refl
  take-drop (suc n) [] = refl
  take-drop (suc n) (x ∷ xs) = ap (λ ys. x ∷ ys) (take-drop n xs)

  pub append_assoc : (xs ys zs : List A) → (xs ++ ys) ++ zs ≡ xs ++ (ys ++ zs)
  append_assoc [] ys zs = refl
  append_assoc (x ∷ xs) ys zs = ap (λ vs. x ∷ vs) (append_assoc xs ys zs)

  pub concat-append : (xss yss : List (List A)) → concat (xss ++ yss) ≡ concat xss ++ concat yss
  concat-append [] yss = refl
  concat-append (xs ∷ xss) yss =
      rw (concat-append xss yss, append_assoc xs (concat xss) (concat yss))

  pub append_nil : (xs : List A) → xs ++ [] ≡ xs
  append_nil [] = refl
  append_nil (x ∷ xs) = ap (λ ys. x ∷ ys) (append_nil xs)

  pub length-append : (xs ys : List A) → length (xs ++ ys) ≡ length xs + length ys
  length-append [] ys = omega arith
  length-append (x ∷ xs) ys = rw (length-append xs ys) (omega arith)

  pub length-take_le : (n : ℕ) (xs : List A) → length (take n xs) ≤ n
  length-take_le zero xs = omega arith
  length-take_le (suc n) [] = omega arith
  length-take_le (suc n) (x ∷ xs) = let h = length-take_le n xs in omega arith

  pub length-drop_le : (n : ℕ) (xs : List A) → length (drop n xs) ≤ length xs
  length-drop_le zero xs = omega arith
  length-drop_le (suc n) [] = omega arith
  length-drop_le (suc n) (x ∷ xs) = let h = length-drop_le n xs in omega arith

  -- What is dropped from a sequence of two parts, of which the first is too short or is not.
  pub drop-append_past :
      (n m : ℕ) (xs ys : List A) → length xs + m ≡ n → drop n (xs ++ ys) ≡ drop m ys
  drop-append_past n m [] ys h = ap (λ k. drop k ys) (omega arith)
  drop-append_past zero m (x ∷ xs) ys h = absurd (omega arith)
  drop-append_past (suc n) m (x ∷ xs) ys h = drop-append_past n m xs ys (omega arith)

  pub drop-append_within :
      (n : ℕ) (xs ys : List A) → n ≤ length xs → drop n (xs ++ ys) ≡ drop n xs ++ ys
  drop-append_within zero xs ys h = refl
  drop-append_within (suc n) [] ys h = absurd (omega arith)
  drop-append_within (suc n) (x ∷ xs) ys h = drop-append_within n xs ys (omega arith)

  pub drop-append :
      (n : ℕ) (xs ys : List A) → drop n (xs ++ ys) ≡ drop n xs ++ drop (n - length xs) ys
  drop-append zero xs ys = let e : 0 ≡ 0 - length xs = omega arith in ap (λ k. xs ++ drop k ys) e
  drop-append (suc n) [] ys = let e : suc n ≡ suc n - 0 = omega arith in ap (λ k. drop k ys) e
  drop-append (suc n) (x ∷ xs) ys =
      let e : n - length xs ≡ suc n - suc (length xs) = omega arith in
      drop-append n xs ys ∙ ap (λ k. drop n xs ++ drop k ys) e

  pub length-drop : (n : ℕ) (xs : List A) → length (drop n xs) ≡ length xs - n
  length-drop zero xs = omega arith
  length-drop (suc n) [] = omega arith
  length-drop (suc n) (x ∷ xs) = length-drop n xs ∙ omega arith
