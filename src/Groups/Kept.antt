-- ===== src/Groups/Kept.antt =====
-- backend/src/resolvers/GroupResolver.ts: which calls leave a manager to every group.
use datapm.Common.{
  String, true, false, ◌==◌, Option, none, some, List, [], ◌∷◌, ◌≡◌, refl, sym, ap, subst, ◌∙◌, inl,
  inr, Error, thrown, Result, ok, err, if◌then◌else◌, any, All, All-map, All-append, eq_iff,
  eq_refl, Bool-cases,
}
use datapm.PackageFile.Json.{Number}
use datapm.Registry.Records.{manage, includes}
use datapm.Groups.Rows.{
  GroupRow, GroupUser, Database, find_member, remove_member, is_other_manager,
  ensure_other_managers, find_group,
}
use datapm.Groups.Calls.{
  create_group, save_group, update_in, update_group, without_group, without_members, delete_in,
  delete_group, check_if, remove_checked, remove_found, remove_in, remove_user_from_group,
}
use datapm.Groups.Managed.{
  is_manager_of, has_manager, any-append_left, any-append_right, IsSafe, change_member-keeps,
  or_left, or_right, or_cases, and_parts,
}

-- Every group has a manager.
abbrev pub IsManaged : Database → Type 0
IsManaged db = All (λ g. has_manager g.id db.group_users ≡ true) db.groups

ensure_other_managers-returns :
    (group_id user_id : Number) (rows : List GroupUser)
    → ensure_other_managers group_id user_id rows ≡ ok tt
    → any (is_other_manager group_id user_id) rows ≡ true
unfolding ensure_other_managers
ensure_other_managers-returns group_id user_id rows h =
    elim (Bool-cases (any (is_other_manager group_id user_id) rows)) [
      | inl e ↦ e
      | inr n ↦ absurd (
          failed _ (
            sym (
              ap
                (λ b.
                  if b
                  then ok tt
                  else err (thrown "NOT_VALID - Can not remove the last manager from the group"))
                n)
            ∙ h))
    ]
  where
    failed : (e : Error) → err e ≡ ok (tt {0}) → ⊥
    failed e p = cc

-- A row that was found and checked can be removed or lose its permissions.
pub check_if-IsSafe :
    (group_id user_id : Number) (rows : List GroupUser) (row : GroupUser)
    → find_member group_id user_id rows ≡ some row
    → check_if (includes manage row.permissions) (ensure_other_managers group_id user_id rows)
      ≡ ok tt
    → IsSafe group_id user_id rows
check_if-IsSafe group_id user_id rows row f c =
    elim (Bool-cases (includes manage row.permissions)) [
      | inl e ↦ inl (
          ensure_other_managers-returns group_id user_id rows
            (sym (ap (λ b. check_if b (ensure_other_managers group_id user_id rows)) e) ∙ c))
      | inr n ↦ inr (inr (row, f, n))
    ]

module _ (me : Number) (db : Database) (h : IsManaged db) where
  remove_checked-IsManaged :
      (group : GroupRow) (user_id : Number) (check : Result (Unit {0}))
      → (check ≡ ok tt → IsSafe group.id user_id db.group_users)
      → IsManaged (remove_checked me group user_id db check).1
  unfolding remove_member
  remove_checked-IsManaged group user_id (err e) safe = h
  remove_checked-IsManaged group user_id (ok done) safe =
      All-map _ _
        (λ g p.
          change_member-keeps group.id user_id g.id (λ row. []) [] db.group_users (safe refl) p)
        db.groups h

  remove_found-IsManaged :
      (group : GroupRow) (user_id : Number) (found : Option GroupUser)
      → find_member group.id user_id db.group_users ≡ found
      → IsManaged (remove_found me group user_id db found).1
  remove_found-IsManaged group user_id none f = h
  remove_found-IsManaged group user_id (some row) f =
      remove_checked-IsManaged group user_id _
        (check_if-IsSafe group.id user_id db.group_users row f)

  remove_in-IsManaged :
      (group : Result GroupRow) (user : Result Number) → IsManaged (remove_in me user db group).1
  remove_in-IsManaged (err e) user = h
  remove_in-IsManaged (ok group) (err e) = h
  remove_in-IsManaged (ok group) (ok user_id) = remove_found-IsManaged group user_id _ refl

  pub remove_user_from_group-IsManaged :
      (slug : String) (user : Result Number) → IsManaged (remove_user_from_group me slug user db).1
  unfolding remove_user_from_group
  remove_user_from_group-IsManaged slug user = remove_in-IsManaged (find_group slug db) user

  -- A new group has its creator as manager.
  pub create_group-IsManaged :
      (new_id : Number) (slug name description : String)
      → IsManaged (create_group me new_id slug name description db).1
  unfolding create_group includes
  create_group-IsManaged new_id slug name description =
      elim (Bool-cases (any (λ g. g.slug == slug) db.groups)) [
        | inl e ↦ rw e h
        | inr n ↦ rw n (
            All-append _ db.groups _
              (All-map _ _ (λ g p. any-append_left (is_manager_of g.id) db.group_users _ p)
                db.groups h)
              (
                any-append_right (is_manager_of new_id) db.group_users _
                    (rw (eq_refl new_id.text) refl),
                tt,
              ))
      ]

  save_group-IsManaged :
      (group : GroupRow) (groups : List GroupRow)
      → All (λ g. has_manager g.id db.group_users ≡ true) groups
      → All (λ g. has_manager g.id db.group_users ≡ true) (save_group group groups)
  save_group-IsManaged group [] k = tt
  save_group-IsManaged group (g ∷ gs) (p, k) = elim (Bool-cases (g.id.text == group.id.text)) [
    | inl e ↦ rw e (
      subst (λ t. has_manager (record { text = t }) db.group_users ≡ true)
          ((eq_iff g.id.text group.id.text).0 e) p,
      save_group-IsManaged group gs k,
    )
    | inr n ↦ rw n (p, save_group-IsManaged group gs k)
  ]

  pub update_group-IsManaged :
      (slug name description : String) → IsManaged (update_group me slug name description db).1
  unfolding update_group
  update_group-IsManaged slug name description = saved (find_group slug db)
    where
      saved : (found : Result GroupRow) → IsManaged (update_in me name description db found).1
      saved (err e) = h
      saved (ok group) = save_group-IsManaged _ db.groups h

  without_members-has_manager :
      (id g : Number) (rows : List GroupUser)
      → (g.text == id.text) ≡ false
      → has_manager g rows ≡ true
      → has_manager g (without_members id rows) ≡ true
  without_members-has_manager id g [] n k = k
  without_members-has_manager id g (row ∷ rows) n k = elim (or_cases (is_manager_of g row) _ k) [
    | inl p ↦
        let of_g =
          (eq_iff row.group_id.text g.text).0 (and_parts _ (includes manage row.permissions) p).0 in
        rw (ap (λ t. t == id.text) of_g ∙ n) (or_left (is_manager_of g row) _ p)
    | inr later ↦ elim (Bool-cases (row.group_id.text == id.text)) [
      | inl e ↦ rw e (without_members-has_manager id g rows n later)
      | inr m ↦
          rw m (or_right (is_manager_of g row) _ (without_members-has_manager id g rows n later))
    ]
  ]

  without_group-IsManaged :
      (id : Number) (groups : List GroupRow)
      → All (λ g. has_manager g.id db.group_users ≡ true) groups
      → All
          (λ g. has_manager g.id (without_members id db.group_users) ≡ true)
          (without_group id groups)
  without_group-IsManaged id [] k = tt
  without_group-IsManaged id (g ∷ gs) (p, k) = elim (Bool-cases (g.id.text == id.text)) [
    | inl e ↦ rw e (without_group-IsManaged id gs k)
    | inr n ↦
        rw n
          (without_members-has_manager id g.id db.group_users n p, without_group-IsManaged id gs k)
  ]

  pub delete_group-IsManaged : (slug : String) → IsManaged (delete_group me slug db).1
  unfolding delete_group
  delete_group-IsManaged slug = deleted (find_group slug db)
    where
      deleted : (found : Result GroupRow) → IsManaged (delete_in me db found).1
      deleted (err e) = h
      deleted (ok group) = without_group-IsManaged group.id db.groups h
