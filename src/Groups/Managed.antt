-- ===== src/Groups/Managed.antt =====
-- backend/src/resolvers/GroupResolver.ts: a group that has a manager keeps one, row by row.
use datapm.Common.{
  Bool, true, false, not, ◌&&◌, ◌||◌, ◌==◌, none, some, List, [], ◌∷◌, ◌++◌, ◌≡◌, refl, sym, ap,
  ◌∙◌, ◌⊎◌, inl, inr, if◌then◌else◌, any, eq_iff, Bool-cases, arith,
}
use datapm.PackageFile.Json.{Number}
use datapm.Registry.Records.{manage, includes}
use datapm.Groups.Rows.{GroupUser, is_member, find_member, change_member, is_other_manager}

-- The row of a manager of the group.
abbrev pub is_manager_of : Number → GroupUser → Bool
is_manager_of group_id row = (row.group_id.text == group_id.text) && includes manage row.permissions

abbrev pub has_manager : Number → List GroupUser → Bool
has_manager group_id rows = any (is_manager_of group_id) rows

pub or_cases : (a b : Bool) → (a || b) ≡ true → (a ≡ true) ⊎ (b ≡ true)
or_cases true b h = inl refl
or_cases false b h = inr h

pub or_right : (a b : Bool) → b ≡ true → (a || b) ≡ true
or_right a b h = ground arith

pub or_left : (a b : Bool) → a ≡ true → (a || b) ≡ true
or_left a b h = ground arith

pub and_parts : (a b : Bool) → (a && b) ≡ true → (a ≡ true) × (b ≡ true)
and_parts true b h = (refl, h)
and_parts false b h = cc

module _ {A : Type 0} where
  pub any-append_right : (p : A → Bool) (xs ys : List A) → any p ys ≡ true → any p (xs ++ ys) ≡ true
  any-append_right p [] ys h = h
  any-append_right p (x ∷ xs) ys h = or_right (p x) _ (any-append_right p xs ys h)

  pub any-append_left : (p : A → Bool) (xs ys : List A) → any p xs ≡ true → any p (xs ++ ys) ≡ true
  any-append_left p [] ys h = cc
  any-append_left p (x ∷ xs) ys h = elim (or_cases (p x) (any p xs) h) [
    | inl e ↦ or_left (p x) _ e
    | inr rest ↦ or_right (p x) _ (any-append_left p xs ys rest)
  ]

  any-implies :
      (p q : A → Bool) (xs : List A)
      → ((x : A) → p x ≡ true → q x ≡ true)
      → any p xs ≡ true
      → any q xs ≡ true
  any-implies p q [] f h = h
  any-implies p q (x ∷ xs) f h = elim (or_cases (p x) (any p xs) h) [
    | inl e ↦ or_left (q x) _ (f x e)
    | inr rest ↦ or_right (q x) _ (any-implies p q xs f rest)
  ]

module _ (group_id user_id : Number) (change : GroupUser → List GroupUser)
    (end : List GroupUser) where
  -- A manager's row that is not the member's stays.
  pub others_stay :
      (g : Number) (rows : List GroupUser)
      → any (λ row. is_manager_of g row && not (is_member group_id user_id row)) rows ≡ true
      → has_manager g (change_member group_id user_id change end rows) ≡ true
  unfolding change_member
  others_stay g [] h = cc
  others_stay g (row ∷ rows) h = elim (Bool-cases (is_member group_id user_id row)) [
    | inl e ↦ rw e (
        any-append_right (is_manager_of g) (change row) rows (
          any-implies _ (is_manager_of g) rows (λ r p. (and_parts (is_manager_of g r) _ p).0)
            (without_head (is_manager_of g row) _ _ e h)))
    | inr n ↦
        rw n (elim (or_cases (is_manager_of g row && not (is_member group_id user_id row)) _ h) [
          | inl p ↦ or_left (is_manager_of g row) _ (and_parts (is_manager_of g row) _ p).0
          | inr rest ↦ or_right (is_manager_of g row) _ (others_stay g rows rest)
        ])
  ]
    where
      without_head : (a b c : Bool) → b ≡ true → ((a && not b) || c) ≡ true → c ≡ true
      without_head a b c e h = ground arith

  -- A member without a row, or whose row is not a manager's, is not the manager that there is.
  unfound_stays :
      (g : Number) (rows : List GroupUser)
      → find_member group_id user_id rows ≡ none
      → has_manager g rows ≡ true
      → has_manager g (change_member group_id user_id change end rows) ≡ true
  unfolding find_member change_member
  unfound_stays g [] f h = cc
  unfound_stays g (row ∷ rows) f h = elim (Bool-cases (is_member group_id user_id row)) [
    | inl e ↦ absurd (
        some_is_none
          (sym (ap (λ b. if b then some row else find_member group_id user_id rows) e) ∙ f))
    | inr n ↦
        let g_rest =
          sym (ap (λ b. if b then some row else find_member group_id user_id rows) n) ∙ f in
        rw n (elim (or_cases (is_manager_of g row) _ h) [
          | inl p ↦ or_left (is_manager_of g row) _ p
          | inr rest ↦ or_right (is_manager_of g row) _ (unfound_stays g rows g_rest rest)
        ])
  ]
    where
      some_is_none : {row : GroupUser} → some row ≡ none → ⊥
      some_is_none p = cc

  plain_stays :
      (g : Number) (rows : List GroupUser) (found : GroupUser)
      → find_member group_id user_id rows ≡ some found
      → includes manage found.permissions ≡ false
      → has_manager g rows ≡ true
      → has_manager g (change_member group_id user_id change end rows) ≡ true
  unfolding find_member change_member
  plain_stays g [] found f m h = cc
  plain_stays g (row ∷ rows) found f m h = elim (Bool-cases (is_member group_id user_id row)) [
    | inl e ↦
        let same =
          some_injective
            (sym (ap (λ b. if b then some row else find_member group_id user_id rows) e) ∙ f) in
        rw e (
          any-append_right (is_manager_of g) (change row) rows (
            without_head _ (includes manage row.permissions) _
              (ap (λ r. includes manage r.permissions) same ∙ m) h))
    | inr n ↦
        let rest_found =
          sym (ap (λ b. if b then some row else find_member group_id user_id rows) n) ∙ f in
        rw n (elim (or_cases (is_manager_of g row) _ h) [
          | inl p ↦ or_left (is_manager_of g row) _ p
          | inr rest ↦ or_right (is_manager_of g row) _ (plain_stays g rows found rest_found m rest)
        ])
  ]
    where
      some_injective : {r s : GroupUser} → some r ≡ some s → r ≡ s
      some_injective p = cc

      without_head : (a b c : Bool) → b ≡ false → ((a && b) || c) ≡ true → c ≡ true
      without_head a b c e h = ground arith

-- What `ensureOtherManagers` and the lookups before it leave of the possibilities for a change of a
-- member's row: another manager, no row, or the row of one who is no manager.
abbrev pub IsSafe : Number → Number → List GroupUser → Type 0
IsSafe group_id user_id rows =
    (any (is_other_manager group_id user_id) rows ≡ true)
    ⊎ ((find_member group_id user_id rows ≡ none)
        ⊎ ((found : GroupUser) × (find_member group_id user_id rows ≡ some found)
            × (includes manage found.permissions ≡ false)))

pub other_group :
    (group_id user_id g : Number) (rows : List GroupUser)
    → (g.text == group_id.text) ≡ false
    → has_manager g rows ≡ true
    → any (λ row. is_manager_of g row && not (is_member group_id user_id row)) rows ≡ true
other_group group_id user_id g rows n h = any-implies (is_manager_of g) _ rows differs h
  where
    differs :
        (row : GroupUser)
        → is_manager_of g row ≡ true
        → (is_manager_of g row && not (is_member group_id user_id row)) ≡ true
    differs row p =
        let of_g =
          (eq_iff row.group_id.text g.text).0 (and_parts _ (includes manage row.permissions) p).0 in
        let apart = ap (λ t. t == group_id.text) of_g ∙ n in rw (p, apart) refl

-- A safe change of a member's row leaves a manager to every group that had one.
pub change_member-keeps :
    (group_id user_id g : Number) (change : GroupUser → List GroupUser) (end rows : List GroupUser)
    → IsSafe group_id user_id rows
    → has_manager g rows ≡ true
    → has_manager g (change_member group_id user_id change end rows) ≡ true
change_member-keeps group_id user_id g change end rows safe h =
    elim (Bool-cases (g.text == group_id.text)) [
      | inr n ↦
          others_stay group_id user_id change end g rows (other_group group_id user_id g rows n h)
      | inl e ↦ elim safe [
        | inl other ↦
            others_stay group_id user_id change end g rows
              (any-implies (is_other_manager group_id user_id) _ rows (is_another e) other)
        | inr (inl unfound) ↦ unfound_stays group_id user_id change end g rows unfound h
        | inr (inr (found, f, m)) ↦ plain_stays group_id user_id change end g rows found f m h
      ]
    ]
  where
    parts :
        (a b c d : Bool) → a ≡ b → (b && (not c && d)) ≡ true → ((a && d) && not (b && c)) ≡ true
    parts a b c d h k = ground arith

    is_another :
        (g.text == group_id.text) ≡ true
        → (row : GroupUser) → is_other_manager group_id user_id row ≡ true
        → (is_manager_of g row && not (is_member group_id user_id row)) ≡ true
    is_another e row p =
        parts (row.group_id.text == g.text) (row.group_id.text == group_id.text)
          (row.user_id.text == user_id.text) (includes manage row.permissions)
          (ap (λ t. row.group_id.text == t) ((eq_iff g.text group_id.text).0 e)) p
