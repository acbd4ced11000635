-- ===== src/Groups/Rows.antt =====
-- backend/src/resolvers/GroupResolver.ts and backend/src/repository/GroupUserRepository.ts: the tables of
-- groups and of their members, and what the resolvers read and write in them.
use datapm.Common.{
  String, Bool, not, ◌&&◌, ◌&◌, ◌==◌, Option, none, some, List, [], ◌∷◌, ◌++◌, Result, ok, err,
  thrown, if◌then◌else◌, any, find,
}
use datapm.PackageFile.Json.{Number}
use datapm.Registry.Records.{Permission, manage, includes}

-- A row of the table `group`.
pub record GroupRow : Type 0 where
  pub id : Number
  pub slug : String
  pub name : String
  pub description : String
  pub creator_id : Number
  pub is_admin : Bool

-- A row of the table `group_user`.
pub record GroupUser : Type 0 where
  pub group_id : Number
  pub user_id : Number
  pub creator_id : Number
  pub permissions : List Permission

pub data GroupEvent : Type 0 where
  group_created group_edit group_deleted member_added_updated member_removed : GroupEvent

-- A row of the activity log.
pub record LogRow : Type 0 where
  pub event_type : GroupEvent
  pub user_id : Number
  pub target_group_id : Number
  pub target_user_id : Option Number
  pub permissions : Option (List Permission)

pub record Database : Type 0 where
  pub groups : List GroupRow
  pub group_users : List GroupUser
  pub activity_log : List LogRow

abbrev pub is_member : Number → Number → GroupUser → Bool
is_member group_id user_id row =
    (row.group_id.text == group_id.text) && (row.user_id.text == user_id.text)

-- `findOne` of a member.
unfoldable pub find_member : Number → Number → List GroupUser → Option GroupUser
find_member group_id user_id [] = none
find_member group_id user_id (row ∷ rows) =
    if is_member group_id user_id row then some row else find_member group_id user_id rows

-- The row that `findOne` finds is replaced, or the rows at the end are added.
unfoldable pub change_member :
    Number
    → Number
    → (GroupUser → List GroupUser)
    → List GroupUser
    → List GroupUser
    → List GroupUser
change_member group_id user_id change end [] = end
change_member group_id user_id change end (row ∷ rows) =
    let rest = change_member group_id user_id change end rows in
    if is_member group_id user_id row then change row ++ rows else row ∷ rest

-- `addOrUpdateUserToGroup` of the repository, of a row that says who is given what.
unfoldable pub save_member : GroupUser → List GroupUser → List GroupUser
unfolding change_member
save_member given =
    change_member given.group_id given.user_id
      (λ row. record row { permissions = given.permissions } ∷ []) (given ∷ [])

-- `manager.remove`
unfoldable pub remove_member : Number → Number → List GroupUser → List GroupUser
unfolding change_member
remove_member group_id user_id = change_member group_id user_id (λ row. []) []

-- A row that the query of `ensureOtherManagers` finds.
abbrev pub is_other_manager : Number → Number → GroupUser → Bool
is_other_manager group_id user_id row =
    (row.group_id.text == group_id.text)
    && (not (row.user_id.text == user_id.text) && includes manage row.permissions)

unfoldable pub ensure_other_managers : Number → Number → List GroupUser → Result (Unit {0})
unfolding includes
ensure_other_managers group_id user_id rows =
    if any (is_other_manager group_id user_id) rows
    then ok tt
    else err (thrown "NOT_VALID - Can not remove the last manager from the group")

unfoldable pub find_group : String → Database → Result GroupRow
find_group slug db = elim (find (λ g. g.slug == slug) db.groups) [
  | none ↦ err (thrown ("GROUP_NOT_FOUND - " & slug))
  | some group ↦ ok group
]
