-- ===== src/Tests/Grouped.antt =====
-- Groups and their managers at concrete inputs.
use datapm.Common.{String, false, List, [], ◌∷◌, ◌≡◌, refl, ok}
use datapm.PackageFile.Json.{Number}
use datapm.Registry.Records.{view, edit, manage}
use datapm.Groups.Rows.{GroupRow, Database, find_group}
use datapm.Groups.Batch.{add_or_update_user_to_group, returned}
use datapm.Groups.Managed.{has_manager}
use datapm.Groups.Kept.{IsManaged}
use datapm.Groups.Batched.{GroupCall, creates, deletes, removes, adds, call_all, call_all-IsManaged}
use datapm.Groups.Unmanaged.{manager_row, given_to, add_or_update_user_to_group-no_manager}

abbrev number : String → Number
number text = record { text = text }

abbrev empty : Database
empty = record { groups = []; group_users = []; activity_log = [] }

-- Two groups; a second manager comes to the first one, whose creator leaves it. The last call throws.
abbrev calls : List GroupCall
calls =
    creates (number "1") (number "10") "team" "Team" ""
    ∷ creates (number "2") (number "11") "crew" "Crew" ""
    ∷ adds (number "1") "team" (given_to "bob" (number "2") (edit ∷ manage ∷ []) ∷ [])
    ∷ removes (number "2") "team" (ok (number "1"))
    ∷ deletes (number "2") "crew"
    ∷ removes (number "2") "team" (ok (number "2"))
    ∷ []

call_all-IsManaged_example : IsManaged (call_all calls empty)
call_all-IsManaged_example =
    call_all-IsManaged calls empty (tt, (tt, ((refl, tt), (tt, (tt, (tt, tt)))))) tt

abbrev team : GroupRow
team = record {
  id = number "10";
  slug = "team";
  name = "Team";
  description = "";
  creator_id = number "1";
  is_admin = false;
}

add_or_update_user_to_group-no_manager_example :
    ((add_or_update_user_to_group
        (number "1")
        "team"
        (given_to "ann" (number "1") (view ∷ []) ∷ given_to "bob" (number "2") [] ∷ [])
        (record {
          groups = team ∷ [];
          group_users =
              manager_row (number "10") (number "1") ∷ manager_row (number "10") (number "2") ∷ [];
          activity_log = [];
        })).0
      ≡ returned (record { id = number "1"; is_pending_sign_up = false } ∷ []) [])
    × (has_manager
          (number "10")
          (add_or_update_user_to_group
            (number "1")
            "team"
            (given_to "ann" (number "1") (view ∷ []) ∷ given_to "bob" (number "2") [] ∷ [])
            (record {
              groups = team ∷ [];
              group_users =
                  manager_row (number "10") (number "1")
                  ∷ manager_row (number "10") (number "2")
                  ∷ [];
              activity_log = [];
            })).1.group_users
        ≡ false)
add_or_update_user_to_group-no_manager_example =
    add_or_update_user_to_group-no_manager (number "1") "team" "ann" "bob" (number "1") (number "2")
      team (team ∷ []) [] (unfold find_group in refl) refl
