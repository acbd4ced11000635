-- ===== src/Groups/Batch.antt =====
-- backend/src/resolvers/GroupResolver.ts, `addOrUpdateUserToGroup`: a transaction that calls
-- removeUserFromGroup, whose own transaction is on another connection. That one sees and changes what
-- is committed, and waits for rows that the outer one has written; the outer one sees what is
-- committed under its own writes, and loses these when it throws.
use datapm.Common.{
  String, Bool, false, ◌&◌, Option, none, some, List, [], ◌∷◌, ◌++◌, Error, Result, ok, err, thrown,
  if◌then◌else◌, any,
}
use datapm.PackageFile.Json.{Number}
use datapm.Registry.Records.{Permission, manage, includes}
use datapm.Groups.Rows.{
  GroupRow, GroupUser, member_added_updated, LogRow, Database, is_member, find_member, save_member,
  ensure_other_managers, find_group,
}
use datapm.Groups.Calls.{check_if, remove_user_from_group}

pub record User : Type 0 where
  pub id : Number
  pub is_pending_sign_up : Bool

-- One of the `userPermissions`, with what the repository of users answers when its turn comes.
pub record UserPermission : Type 0 where
  pub username_or_email_address : String
  pub permissions : List Permission
  pub found : Option User
  pub is_email_address : Bool
  pub invited : Result User
  pub by_username : Result Number

-- The transaction's state: what is committed by now, its own rows of members, the latest first, and of
-- the log, and the users to notify.
pub record Work : Type 0 where
  pub committed : Database
  pub written : List GroupUser
  pub log : List LogRow
  pub invite_users : List User
  pub existing_users : List User

pub data Progress : Type 0 where
  goes_on : Work → Progress
  throws : Error → Database → Progress
  waits_for_itself : Database → Progress

-- The members that the transaction sees.
unfoldable pub seen : List GroupUser → List GroupUser → List GroupUser
unfolding save_member
seen [] rows = rows
seen (given ∷ written) rows = save_member given (seen written rows)

abbrev pub is_manager : Option GroupUser → Bool
is_manager none = false
is_manager (some row) = includes manage row.permissions

module _ (me : Number) (slug : String) (group : GroupRow) where
  abbrev pub checked : Result (Unit {0}) → Number → List Permission → Work → Progress
  checked (err e) user_id permissions w = throws e w.committed
  checked (ok done) user_id permissions w = goes_on (record w {
    written =
        record {
          group_id = group.id;
          user_id = user_id;
          creator_id = me;
          permissions = permissions;
        }
        ∷ w.written;
    log =
        w.log
        ++ (record {
          event_type = member_added_updated;
          user_id = me;
          target_group_id = group.id;
          target_user_id = some user_id;
          permissions = some permissions;
        }
            ∷ []);
  })

  -- From the activity log on.
  unfoldable pub save_permissions : Number → List Permission → Work → Progress
  unfolding seen find_member ensure_other_managers includes
  save_permissions user_id permissions w =
      let rows = seen w.written w.committed.group_users in
      let demoted =
        if includes manage permissions
        then false
        else is_manager (find_member group.id user_id rows) in
      checked (check_if demoted (ensure_other_managers group.id user_id rows)) user_id permissions w

  abbrev pub save_invited : Result User → List Permission → Work → Progress
  save_invited (err e) permissions w = throws e w.committed
  save_invited (ok user) permissions w =
      save_permissions user.id permissions
        (record w { invite_users = w.invite_users ++ (user ∷ []) })

  abbrev pub removed : Number → Result GroupRow × Database → Work → Progress
  removed user_id (err e, db) w = throws e db
  removed user_id (ok done, db) w =
      if any (is_member group.id user_id) w.written
      then waits_for_itself w.committed
      else goes_on (record w { committed = db })

  abbrev pub save_found : UserPermission → User → List Permission → Work → Progress
  save_found given user [] w =
      removed user.id (remove_user_from_group me slug given.by_username w.committed) w
  save_found given user (p ∷ ps) w =
      if user.is_pending_sign_up
      then save_permissions user.id (p ∷ ps)
          (record w { invite_users = w.invite_users ++ (user ∷ []) })
      else save_permissions user.id (p ∷ ps)
          (record w { existing_users = w.existing_users ++ (user ∷ []) })

  abbrev pub save_given : UserPermission → Option User → Work → Progress
  save_given given none w =
      if given.is_email_address
      then save_invited given.invited given.permissions w
      else throws (thrown ("USER_NOT_FOUND - " & given.username_or_email_address)) w.committed
  save_given given (some user) w = save_found given user given.permissions w

  abbrev pub then_save : (Work → Progress) → Progress → Progress
  then_save rest (goes_on w) = rest w
  then_save rest (throws e db) = throws e db
  then_save rest (waits_for_itself db) = waits_for_itself db

  -- The loop over the permissions.
  unfoldable pub save_all : List UserPermission → Work → Progress
  unfolding save_permissions remove_user_from_group
  save_all [] w = goes_on w
  save_all (given ∷ givens) w = then_save (save_all givens) (save_given given given.found w)

abbrev pub start_work : Database → Work
start_work db = record {
  committed = db;
  written = [];
  log = [];
  invite_users = [];
  existing_users = [];
}

-- The users to notify, the error, or a transaction that waits for itself and never ends.

pub data Ended : Type 0 where
  returned : List User → List User → Ended
  failed : Error → Ended
  never : Ended

abbrev pub end_transaction : Progress → Ended × Database
end_transaction (goes_on w) = (
  returned w.existing_users w.invite_users,
  record w.committed {
    group_users = seen w.written w.committed.group_users;
    activity_log = w.committed.activity_log ++ w.log;
  },
)
end_transaction (throws e db) = (failed e, db)
end_transaction (waits_for_itself db) = (never, db)

abbrev pub finish_group :
    Number → String → List UserPermission → Result GroupRow → Database → Ended × Database
finish_group me slug givens (err e) db = (failed e, db)
finish_group me slug givens (ok group) db =
    end_transaction (save_all me slug group givens (start_work db))

unfoldable pub add_or_update_user_to_group :
    Number → String → List UserPermission → Database → Ended × Database
unfolding save_all find_group seen
add_or_update_user_to_group me slug givens db = finish_group me slug givens (find_group slug db) db
