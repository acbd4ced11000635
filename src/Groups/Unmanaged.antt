-- ===== src/Groups/Unmanaged.antt =====
-- backend/src/resolvers/GroupResolver.ts: how addOrUpdateUserToGroup leaves a group without managers.
use datapm.Common.{String, false, ◌==◌, some, List, [], ◌∷◌, ◌≡◌, refl, ok, eq_refl, different_sym}
use datapm.PackageFile.Json.{Number}
use datapm.Registry.Records.{Permission, manage, view, includes}
use datapm.Groups.Rows.{
  GroupRow, GroupUser, LogRow, find_member, change_member, save_member, remove_member,
  ensure_other_managers, find_group,
}
use datapm.Groups.Calls.{remove_user_from_group}
use datapm.Groups.Batch.{
  UserPermission, returned, seen, save_permissions, save_all, add_or_update_user_to_group,
}
use datapm.Groups.Managed.{has_manager}

abbrev pub manager_row : Number → Number → GroupUser
manager_row group_id user_id = record {
  group_id = group_id;
  user_id = user_id;
  creator_id = user_id;
  permissions = manage ∷ [];
}

-- What is given to a user who is there and has signed up.
abbrev pub given_to : String → Number → List Permission → UserPermission
given_to name id permissions = record {
  username_or_email_address = name;
  permissions = permissions;
  found = some (record { id = id; is_pending_sign_up = false });
  is_email_address = false;
  invited = ok (record { id = id; is_pending_sign_up = false });
  by_username = ok id;
}

-- Where two users are the managers of a group, and its only members, one call of addOrUpdateUserToGroup
-- that gives VIEW to the first and nothing to the second returns, and leaves the group without a
-- manager: each of the two tests finds the other manager.
pub add_or_update_user_to_group-no_manager :
    (me : Number) (slug first_name second_name : String) (a b : Number) (group : GroupRow)
    (groups : List GroupRow) (log : List LogRow)
    → find_group slug (record {
      groups = groups;
      group_users = manager_row group.id a ∷ manager_row group.id b ∷ [];
      activity_log = log;
    })
      ≡ ok group
    → (a.text == b.text) ≡ false
    → ((add_or_update_user_to_group me slug
          (given_to first_name a (view ∷ []) ∷ given_to second_name b [] ∷ [])
          (record {
            groups = groups;
            group_users = manager_row group.id a ∷ manager_row group.id b ∷ [];
            activity_log = log;
          })).0
        ≡ returned (record { id = a; is_pending_sign_up = false } ∷ []) [])
      × (has_manager group.id
            (add_or_update_user_to_group me slug
              (given_to first_name a (view ∷ []) ∷ given_to second_name b [] ∷ [])
              (record {
                groups = groups;
                group_users = manager_row group.id a ∷ manager_row group.id b ∷ [];
                activity_log = log;
              })).1.group_users
          ≡ false)
unfolding add_or_update_user_to_group save_all save_permissions seen save_member change_member
    find_member ensure_other_managers includes remove_user_from_group remove_member
add_or_update_user_to_group-no_manager me slug first_name second_name a b group groups log h n =
    rw (h, eq_refl group.id.text, eq_refl a.text, different_sym a.text b.text n)
      (rw (h, n, eq_refl group.id.text, eq_refl b.text)
        (rw (eq_refl group.id.text, n)
          (rw (n, eq_refl group.id.text)
            (rw (eq_refl b.text) (
              rw (eq_refl a.text, eq_refl group.id.text)
                (refl, rw (eq_refl group.id.text) refl))))))
