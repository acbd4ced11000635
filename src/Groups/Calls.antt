-- ===== src/Groups/Calls.antt =====
-- backend/src/resolvers/GroupResolver.ts: the calls that change groups and their members.
use datapm.Common.{
  String, Bool, true, false, ◌==◌, Option, none, some, List, [], ◌∷◌, ◌++◌, Result, ok, err, thrown,
  if◌then◌else◌, any,
}
use datapm.PackageFile.Json.{Number}
use datapm.Registry.Records.{Permission, manage, view, edit, includes}
use datapm.Groups.Rows.{
  GroupRow, GroupUser, GroupEvent, group_created, group_edit, group_deleted, member_removed,
  Database, find_member, remove_member, ensure_other_managers, find_group,
}

abbrev pub with_log :
    GroupEvent → Number → Number → Option Number → Option (List Permission) → Database → Database
with_log event_type user_id group_id target permissions db = record db {
  activity_log =
      db.activity_log
      ++ (record {
        event_type = event_type;
        user_id = user_id;
        target_group_id = group_id;
        target_user_id = target;
        permissions = permissions;
      }
          ∷ []);
}

-- The identifier of the new group is given. The program does not await the save of the creator's membership: it
-- is taken to be done, in its place.
unfoldable pub create_group :
    Number → Number → String → String → String → Database → Result GroupRow × Database
create_group me new_id slug name description db =
    let group : GroupRow = record {
      id = new_id;
      slug = slug;
      name = name;
      description = description;
      creator_id = me;
      is_admin = false;
    } in
    if any (λ g. g.slug == slug) db.groups
    then (err (thrown "NOT_UNIQUE - Group slug already exists"), db)
    else (
      ok group,
      with_log group_created me new_id none none (record db {
        groups = db.groups ++ (group ∷ []);
        group_users =
            db.group_users
            ++ (record {
              group_id = new_id;
              user_id = me;
              creator_id = me;
              permissions = view ∷ edit ∷ manage ∷ [];
            }
                ∷ []);
      }),
    )

-- `manager.save` of a group, by its identifier.
abbrev pub save_group : GroupRow → List GroupRow → List GroupRow
save_group group [] = []
save_group group (g ∷ gs) =
    if g.id.text == group.id.text then group ∷ save_group group gs else g ∷ save_group group gs

abbrev pub update_in :
    Number → String → String → Database → Result GroupRow → Result GroupRow × Database
update_in me name description db (err e) = (err e, db)
update_in me name description db (ok group) =
    let saved : GroupRow = record group { name = name; description = description } in
    let written = with_log group_edit me group.id none none db in
    (ok saved, record written { groups = save_group saved db.groups })

unfoldable pub update_group :
    Number → String → String → String → Database → Result GroupRow × Database
unfolding find_group
update_group me slug name description db = update_in me name description db (find_group slug db)

-- The rows of a group's members are removed with it.
abbrev pub without_group : Number → List GroupRow → List GroupRow
without_group id [] = []
without_group id (g ∷ gs) =
    if g.id.text == id.text then without_group id gs else g ∷ without_group id gs

abbrev pub without_members : Number → List GroupUser → List GroupUser
without_members id [] = []
without_members id (row ∷ rows) =
    if row.group_id.text == id.text then without_members id rows else row ∷ without_members id rows

abbrev pub delete_in : Number → Database → Result GroupRow → Result (Unit {0}) × Database
delete_in me db (err e) = (err e, db)
delete_in me db (ok group) =
    let written = with_log group_deleted me group.id none none db in
    (
      ok tt,
      record written {
        groups = without_group group.id db.groups;
        group_users = without_members group.id db.group_users;
      },
    )

unfoldable pub delete_group : Number → String → Database → Result (Unit {0}) × Database
unfolding find_group
delete_group me slug db = delete_in me db (find_group slug db)

abbrev pub check_if : Bool → Result (Unit {0}) → Result (Unit {0})
check_if true check = check
check_if false check = ok tt

-- `removeUserFromGroup`, from the last statement to the first. It writes after all that can throw, so
-- that a transaction that throws has written nothing.
abbrev pub remove_checked :
    Number → GroupRow → Number → Database → Result (Unit {0}) → Result GroupRow × Database
remove_checked me group user_id db (err e) = (err e, db)
remove_checked me group user_id db (ok done) =
    let written = with_log member_removed me group.id (some user_id) none db in
    (ok group, record written { group_users = remove_member group.id user_id db.group_users })

abbrev pub remove_found :
    Number → GroupRow → Number → Database → Option GroupUser → Result GroupRow × Database
remove_found me group user_id db none = (err (thrown "EntityNotFoundError"), db)
remove_found me group user_id db (some row) = remove_checked me group user_id db (
    check_if (includes manage row.permissions)
      (ensure_other_managers group.id user_id db.group_users))

abbrev pub remove_named : Number → GroupRow → Database → Result Number → Result GroupRow × Database
remove_named me group db (err e) = (err e, db)
remove_named me group db (ok user_id) =
    remove_found me group user_id db (find_member group.id user_id db.group_users)

abbrev pub remove_in :
    Number → Result Number → Database → Result GroupRow → Result GroupRow × Database
remove_in me user db (err e) = (err e, db)
remove_in me user db (ok group) = remove_named me group db user

-- The user is the one that the username names.
unfoldable pub remove_user_from_group :
    Number → String → Result Number → Database → Result GroupRow × Database
unfolding find_group find_member remove_member ensure_other_managers
remove_user_from_group me slug user db = remove_in me user db (find_group slug db)
