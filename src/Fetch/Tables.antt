-- ===== src/Fetch/Tables.antt =====
-- Objects that are read and written by key, as `Record<string, A>` in lib/src/SinkState.ts.
use datapm.Common.{
  String, true, false, ◌==◌, Option, none, some, List, [], ◌∷◌, ◌≡◌, ◌≢◌, refl, sym, ap, ◌∙◌, All,
  Unique, inl, inr, if◌then◌else◌, eq_iff, eq_refl, Bool-cases,
}

-- `Record<string, A>`, in the order in which the keys came.
abbrev pub Table : Type 0 → Type 0
Table A = List (String × A)

module _ {A : Type 0} where
  -- `table[key]`
  unfoldable pub member_of : String → Table A → Option A
  member_of k [] = none
  member_of k ((j, a) ∷ t) = if j == k then some a else member_of k t

  -- `table[key] = a`
  unfoldable pub with_member : String → A → Table A → Table A
  with_member k a [] = (k, a) ∷ []
  with_member k a ((j, b) ∷ t) = if j == k then (j, a) ∷ t else (j, b) ∷ with_member k a t

  -- The member, or what is put there if there is none.
  abbrev pub or_new : A → Option A → A
  or_new a none = a
  or_new a (some b) = b

  pub member_of-with_member_same :
      (k : String) (a : A) (t : Table A) → member_of k (with_member k a t) ≡ some a
  unfolding member_of with_member
  member_of-with_member_same k a [] = rw (eq_refl k) refl
  member_of-with_member_same k a ((j, b) ∷ t) = elim (Bool-cases (j == k)) [
    | inl e ↦ rw (e, e) refl
    | inr n ↦ rw (n, n) (member_of-with_member_same k a t)
  ]

  pub member_of-with_member_other :
      (k j : String) (a : A) (t : Table A)
      → (k == j) ≡ false
      → member_of j (with_member k a t) ≡ member_of j t
  unfolding member_of with_member
  member_of-with_member_other k j a [] n = rw n refl
  member_of-with_member_other k j a ((i, b) ∷ t) n = elim (Bool-cases (i == k)) [
    | inl e ↦ let apart = ap (λ x. x == j) ((eq_iff i k).0 e) ∙ n in rw (e, apart) refl
    | inr m ↦ rw m (ap (λ r. if i == j then some b else r) (member_of-with_member_other k j a t n))
  ]

-- The keys of a table are distinct.
abbrev pub IsTable : {A : Type 0} → Table A → Type 0
IsTable {A} = Unique {A = String × A} (λ e. e.0)

module _ {A : Type 0} where
  pub with_member-All :
      (P : String × A → Type 0) (k : String) (a : A) (t : Table A)
      → ((j : String) → (b : A) → P (j, b) → (j == k) ≡ true → P (j, a))
      → P (k, a)
      → All P t
      → All P (with_member k a t)
  unfolding with_member
  with_member-All P k a [] same p h = (p, tt)
  with_member-All P k a ((j, b) ∷ t) same p (q, h) = elim (Bool-cases (j == k)) [
    | inl e ↦ rw e (same j b q e, h)
    | inr n ↦ rw n (q, with_member-All P k a t same p h)
  ]

  pub with_member-IsTable :
      (k : String) (a : A) (t : Table A) → IsTable t → IsTable (with_member k a t)
  unfolding with_member
  with_member-IsTable k a [] u = (tt, tt)
  with_member-IsTable k a ((j, b) ∷ t) (n, u) = elim (Bool-cases (j == k)) [
    | inl e ↦ rw e (n, u)
    | inr m ↦ rw m (
      with_member-All (λ e. j ≢ e.0) k a t (λ i c ne same. ne) (apart m) n,
      with_member-IsTable k a t u,
    )
  ]
    where
      true_is_false : true ≡ false → ⊥
      true_is_false p = cc

      apart : {i k : String} → (i == k) ≡ false → i ≢ k
      apart {i} {k} m e = let p = sym ((eq_iff i k).1 e) ∙ m in absurd (true_is_false p)

  pub member_of-none : (k : String) (t : Table A) → All (λ e. k ≢ e.0) t → member_of k t ≡ none
  unfolding member_of
  member_of-none k [] h = refl
  member_of-none k ((j, b) ∷ t) (n, h) = elim (Bool-cases (j == k)) [
    | inl e ↦ absurd (n (sym ((eq_iff j k).0 e)))
    | inr m ↦ rw m (member_of-none k t h)
  ]
