-- ===== src/Examples/MsGraph.antt =====
-- A document that Graph shares with a group and with a user of the directory.
use mathlib.Core.List.{Memᴰ}
use groundwork.Base.{
  ◌≡◌, refl, true, false, List, [], ◌∷◌, some, string_eq, trim_space, trim_left, trim_right,
  is_space, lowered_contains, lowers_to, lowered,
}
use groundwork.AclSync.Model.{PermissionChange}
use groundwork.AclSync.Tuples.{Tuple}
use groundwork.AclSync.Change.{change_to_tuples}
use groundwork.AclSync.MsGraph.{
  GraphUser, GraphDriveItem, GraphPermission, member_user, member_group, user_key, user_key_of_user,
  user_key_of_member, last_key, user_key_by_id, map_users, map_group, members_of, put_member,
  group_key, grants_read, role_reads, grantee_key, put_grantee, grantees_from_perms, revoke_change,
  classify_delta,
}
use groundwork.AclSync.MsGraph.Revoked.{item_tuples, revoke_change-granted}

abbrev users : List GraphUser
users =
    record { id = "u1"; display_name = "Bob"; mail = "bob@acme"; user_principal_name = "b" }
    ∷ record { id = "u2"; display_name = "Eve"; mail = ""; user_principal_name = "eve" }
    ∷ []

abbrev plan : GraphDriveItem
plan = record { id = "plan"; name = "Plan"; parent_id = "root"; is_folder = false }

abbrev of_user : GraphPermission
of_user = record {
  id = "p1";
  roles = "Write" ∷ [];
  grantee = record { user_id = "u1"; user_upn = ""; user_mail = ""; group_id = "" };
}

abbrev of_group : GraphPermission
of_group = record {
  id = "p2";
  roles = "read" ∷ [];
  grantee = record { user_id = ""; user_upn = ""; user_mail = ""; group_id = "g1" };
}

abbrev perms : List GraphPermission
perms = of_group ∷ of_user ∷ []

keys : map_users users ≡ "bob@acme" ∷ "eve" ∷ []
unfolding map_users user_key_of_user user_key trim_space trim_right trim_left is_space
keys = refl

looked_up : user_key_by_id users "u2" ≡ "eve"
unfolding user_key_by_id last_key user_key_of_user user_key trim_space trim_right trim_left is_space
looked_up = refl

grantees : grantees_from_perms perms (user_key_by_id users) ≡ ("bob@acme" ∷ [], "g1" ∷ [])
unfolding grantees_from_perms grants_read role_reads lowered_contains lowers_to lowered put_grantee
    grantee_key group_key user_key_by_id last_key user_key_of_user user_key trim_space trim_right
    trim_left is_space
grantees = refl

team :
    map_group
      (record { id = "g1"; display_name = "Team" })
      (record {
        id = "u1";
        display_name = "Bob";
        mail = "bob@acme";
        user_principal_name = "b";
        member_type = member_user;
      }
        ∷ record {
          id = "g2";
          display_name = "Sub";
          mail = "";
          user_principal_name = "";
          member_type = member_group;
        }
        ∷ [])
    ≡ record { id = "g1"; member_users = "bob@acme" ∷ []; member_groups = "g2" ∷ [] }
unfolding map_group members_of put_member user_key_of_member user_key group_key trim_space
    trim_right trim_left is_space
team = refl

delta :
    classify_delta (
      record { id = "a"; name = "A"; parent_id = ""; is_folder = false; deleted = true }
      ∷ record { id = "b"; name = "B"; parent_id = ""; is_folder = false; deleted = false }
      ∷ [])
    ≡ ("a" ∷ [], "b" ∷ [])
unfolding classify_delta
delta = refl

writes_read : grants_read of_user.roles ≡ true
unfolding grants_read role_reads lowered_contains lowers_to lowered
writes_read = refl

revoke_change-granted_example :
    (c : PermissionChange) × ((t : Tuple) × ((revoke_change plan of_user (user_key_by_id users)
          ≡ some c)
        × ((change_to_tuples c ≡ ([], t ∷ []))
            × Memᴰ t (item_tuples plan perms (user_key_by_id users)))))
revoke_change-granted_example =
    revoke_change-granted plan perms (user_key_by_id users) of_user (Memᴰ.tail (Memᴰ.head refl))
      writes_read refl
