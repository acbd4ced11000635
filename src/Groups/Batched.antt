-- ===== src/Groups/Batched.antt =====
-- backend/src/resolvers/GroupResolver.ts: addOrUpdateUserToGroup without removals leaves a manager to every
-- group, and so do all calls together.
use datapm.Common.{
  String, Bool, true, false, ◌==◌, Option, none, some, List, [], ◌∷◌, ◌≡◌, refl, sym, ap, subst,
  ◌∙◌, inl, inr, Result, ok, err, if◌then◌else◌, All, All-map, eq_iff, eq_refl, Bool-cases,
}
use datapm.PackageFile.Json.{Number}
use datapm.Registry.Records.{Permission, manage, includes}
use datapm.Groups.Rows.{
  GroupRow, GroupUser, Database, is_member, find_member, change_member, save_member,
  ensure_other_managers, find_group,
}
use datapm.Groups.Calls.{check_if, create_group, update_group, delete_group, remove_user_from_group}
use datapm.Groups.Batch.{
  User, UserPermission, Work, Progress, goes_on, throws, waits_for_itself, seen, is_manager,
  checked, save_permissions, save_invited, save_found, save_given, then_save, save_all, start_work,
  end_transaction, finish_group, add_or_update_user_to_group,
}
use datapm.Groups.Managed.{
  is_manager_of, has_manager, IsSafe, change_member-keeps, other_group, others_stay, or_right,
  and_parts,
}
use datapm.Groups.Kept.{
  IsManaged, check_if-IsSafe, create_group-IsManaged, update_group-IsManaged,
  delete_group-IsManaged, remove_user_from_group-IsManaged,
}

-- Who is given MANAGE is a manager.
save_member-has_manager :
    (given : GroupUser) (rows : List GroupUser)
    → includes manage given.permissions ≡ true
    → has_manager given.group_id (save_member given rows) ≡ true
unfolding save_member change_member
save_member-has_manager given [] m = rw (eq_refl given.group_id.text, m) refl
save_member-has_manager given (row ∷ rows) m =
    elim (Bool-cases (is_member given.group_id given.user_id row)) [
      | inl e ↦ rw (e, (and_parts (row.group_id.text == given.group_id.text) _ e).0, m) refl
      | inr n ↦
          rw n
            (or_right (is_manager_of given.group_id row) _ (save_member-has_manager given rows m))
    ]

abbrev Keeps : GroupUser → List GroupUser → Type 0
Keeps given rows =
    (g : Number) → has_manager g rows ≡ true → has_manager g (save_member given rows) ≡ true

safe-Keeps :
    (given : GroupUser) (rows : List GroupUser)
    → IsSafe given.group_id given.user_id rows
    → Keeps given rows
unfolding save_member
safe-Keeps given rows safe g h =
    change_member-keeps given.group_id given.user_id g
      (λ row. record row { permissions = given.permissions } ∷ []) (given ∷ []) rows safe h

manager-Keeps :
    (given : GroupUser) (rows : List GroupUser)
    → includes manage given.permissions ≡ true
    → Keeps given rows
unfolding save_member
manager-Keeps given rows m g h = elim (Bool-cases (g.text == given.group_id.text)) [
  | inl e ↦
      subst (λ t. has_manager (record { text = t }) (save_member given rows) ≡ true)
        (sym ((eq_iff g.text given.group_id.text).0 e)) (save_member-has_manager given rows m)
  | inr n ↦
      others_stay given.group_id given.user_id
        (λ row. record row { permissions = given.permissions } ∷ []) (given ∷ []) g rows
        (other_group given.group_id given.user_id g rows n h)
]

-- The check before a member's permissions are saved.
check-Keeps :
    (given : GroupUser) (rows : List GroupUser)
    → check_if
        (if includes manage given.permissions
          then false
          else is_manager (find_member given.group_id given.user_id rows))
        (ensure_other_managers given.group_id given.user_id rows)
      ≡ ok tt
    → Keeps given rows
check-Keeps given rows c = elim (Bool-cases (includes manage given.permissions)) [
  | inl m ↦ manager-Keeps given rows m
  | inr n ↦ safe-Keeps given rows (
      found_is_safe _ refl (
        sym (
          ap
            (λ b.
              check_if
                (if b then false else is_manager (find_member given.group_id given.user_id rows))
                (ensure_other_managers given.group_id given.user_id rows))
            n)
        ∙ c))
]
  where
    found_is_safe :
        (found : Option GroupUser)
        → find_member given.group_id given.user_id rows ≡ found
        → check_if (is_manager found) (ensure_other_managers given.group_id given.user_id rows)
          ≡ ok tt
        → IsSafe given.group_id given.user_id rows
    found_is_safe none f c = inr (inl f)
    found_is_safe (some row) f c = check_if-IsSafe given.group_id given.user_id rows row f c

-- Every group has a manager, in what is committed and in what the transaction sees.
abbrev IsGood : Work → Type 0
IsGood w =
    IsManaged w.committed
    × All (λ g. has_manager g.id (seen w.written w.committed.group_users) ≡ true) w.committed.groups

abbrev Holds : Progress → Type 0
Holds (goes_on w) = IsGood w
Holds (throws e db) = IsManaged db
Holds (waits_for_itself db) = IsManaged db

abbrev some_permissions : List Permission → Bool
some_permissions [] = false
some_permissions (p ∷ ps) = true

-- Nobody is given the empty list of permissions, which removes a member.
abbrev pub GivesPermissions : List UserPermission → Type 0
GivesPermissions = All (λ given. some_permissions given.permissions ≡ true)

module _ (me : Number) (slug : String) (group : GroupRow) where
  checked-Holds :
      (check : Result (Unit {0})) (user_id : Number) (permissions : List Permission) (w : Work)
      → IsGood w
      → (check ≡ ok tt
          → Keeps
              (record {
                group_id = group.id;
                user_id = user_id;
                creator_id = me;
                permissions = permissions;
              })
              (seen w.written w.committed.group_users))
      → Holds (checked me slug group check user_id permissions w)
  unfolding seen
  checked-Holds (err e) user_id permissions w (h, k) f = h
  checked-Holds (ok done) user_id permissions w (h, k) f =
      (h, All-map _ _ (λ g p. f refl g.id p) w.committed.groups k)

  save_permissions-Holds :
      (user_id : Number) (permissions : List Permission) (w : Work)
      → IsGood w
      → Holds (save_permissions me slug group user_id permissions w)
  unfolding save_permissions
  save_permissions-Holds user_id permissions w h =
      checked-Holds _ user_id permissions w h
        (check-Keeps _ (seen w.written w.committed.group_users))

  save_found-Holds :
      (given : UserPermission) (user : User) (permissions : List Permission) (w : Work)
      → some_permissions permissions ≡ true
      → IsGood w
      → Holds (save_found me slug group given user permissions w)
  save_found-Holds given user [] w p h = cc
  save_found-Holds given user (q ∷ qs) w p h = elim (Bool-cases user.is_pending_sign_up) [
    | inl e ↦ rw e (save_permissions-Holds user.id (q ∷ qs) _ h)
    | inr n ↦ rw n (save_permissions-Holds user.id (q ∷ qs) _ h)
  ]

  save_invited-Holds :
      (invited : Result User) (permissions : List Permission) (w : Work)
      → IsGood w
      → Holds (save_invited me slug group invited permissions w)
  save_invited-Holds (err e) permissions w h = h.0
  save_invited-Holds (ok user) permissions w h = save_permissions-Holds user.id permissions _ h

  save_given-Holds :
      (given : UserPermission) (found : Option User) (w : Work)
      → some_permissions given.permissions ≡ true
      → IsGood w
      → Holds (save_given me slug group given found w)
  save_given-Holds given (some user) w p h = save_found-Holds given user given.permissions w p h
  save_given-Holds given none w p h = elim (Bool-cases given.is_email_address) [
    | inl e ↦ rw e (save_invited-Holds given.invited given.permissions w h)
    | inr n ↦ rw n h.0
  ]

  then_save-Holds :
      (rest : Work → Progress)
      → ((w : Work) → IsGood w → Holds (rest w))
      → (progress : Progress) → Holds progress
      → Holds (then_save me slug group rest progress)
  then_save-Holds rest f (goes_on w) h = f w h
  then_save-Holds rest f (throws e db) h = h
  then_save-Holds rest f (waits_for_itself db) h = h

  save_all-Holds :
      (givens : List UserPermission) (w : Work)
      → GivesPermissions givens
      → IsGood w
      → Holds (save_all me slug group givens w)
  unfolding save_all
  save_all-Holds [] w g h = h
  save_all-Holds (given ∷ givens) w (p, g) h =
      then_save-Holds _ (λ next k. save_all-Holds givens next g k)
        (save_given me slug group given given.found w) (save_given-Holds given given.found w p h)

-- A batch without removals, from a database where every group has a manager.
pub add_or_update_user_to_group-IsManaged :
    (me : Number) (slug : String) (givens : List UserPermission) (db : Database)
    → GivesPermissions givens
    → IsManaged db
    → IsManaged (add_or_update_user_to_group me slug givens db).1
unfolding add_or_update_user_to_group
add_or_update_user_to_group-IsManaged me slug givens db g h = in_group (find_group slug db)
  where
    finished : (progress : Progress) → Holds progress → IsManaged (end_transaction progress).1
    finished (goes_on w) k = k.1
    finished (throws e next) k = k
    finished (waits_for_itself next) k = k

    in_group : (found : Result GroupRow) → IsManaged (finish_group me slug givens found db).1
    in_group (err e) = h
    in_group (ok group) =
        finished (save_all me slug group givens (start_work db))
          (save_all-Holds me slug group givens (start_work db) g (unfold seen in (h, h)))

-- A call of a resolver that changes groups, and who makes it.
pub data GroupCall : Type 0 where
  creates : Number → Number → String → String → String → GroupCall
  updates : Number → String → String → String → GroupCall
  deletes : Number → String → GroupCall
  removes : Number → String → Result Number → GroupCall
  adds : Number → String → List UserPermission → GroupCall

unfoldable pub call : GroupCall → Database → Database
unfolding create_group update_group delete_group remove_user_from_group add_or_update_user_to_group
call (creates me new_id slug name description) db =
    (create_group me new_id slug name description db).1
call (updates me slug name description) db = (update_group me slug name description db).1
call (deletes me slug) db = (delete_group me slug db).1
call (removes me slug user) db = (remove_user_from_group me slug user db).1
call (adds me slug givens) db = (add_or_update_user_to_group me slug givens db).1

unfoldable pub call_all : List GroupCall → Database → Database
unfolding call
call_all [] db = db
call_all (c ∷ cs) db = call_all cs (call c db)

-- A call that gives nobody the empty list of permissions.
abbrev pub IsPlain : GroupCall → Type 0
IsPlain (adds me slug givens) = GivesPermissions givens
IsPlain (creates me new_id slug name description) = Unit
IsPlain (updates me slug name description) = Unit
IsPlain (deletes me slug) = Unit
IsPlain (removes me slug user) = Unit

call-IsManaged : (c : GroupCall) (db : Database) → IsPlain c → IsManaged db → IsManaged (call c db)
unfolding call
call-IsManaged (creates me new_id slug name description) db p h =
    create_group-IsManaged me db h new_id slug name description
call-IsManaged (updates me slug name description) db p h =
    update_group-IsManaged me db h slug name description
call-IsManaged (deletes me slug) db p h = delete_group-IsManaged me db h slug
call-IsManaged (removes me slug user) db p h = remove_user_from_group-IsManaged me db h slug user
call-IsManaged (adds me slug givens) db p h =
    add_or_update_user_to_group-IsManaged me slug givens db p h

-- After any calls of createGroup, updateGroup, deleteGroup, removeUserFromGroup and
-- addOrUpdateUserToGroup, one after another and whether they return or throw, every group has a manager
-- if every group had one, provided that addOrUpdateUserToGroup gives nobody an empty list of
-- permissions.
pub call_all-IsManaged :
    (calls : List GroupCall) (db : Database)
    → All IsPlain calls
    → IsManaged db
    → IsManaged (call_all calls db)
unfolding call_all
call_all-IsManaged [] db p h = h
call_all-IsManaged (c ∷ cs) db (q, p) h =
    call_all-IsManaged cs (call c db) p (call-IsManaged c db q h)
