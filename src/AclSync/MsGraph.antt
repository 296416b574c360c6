-- ===== src/AclSync/MsGraph.antt =====
-- services/query-runtime/internal/aclsync/msgraph: Microsoft Graph's directory and permissions as a
-- snapshot, mapping.go with the types of graph.go.
pub mod Canonical
pub mod Kept
pub mod Revoked
use groundwork.Base.{
  String, ◌<>◌, Bool, true, false, ◌||◌, List, [], ◌∷◌, map, Option, none, some, if◌then◌else◌,
  ◌==◌, string_eq, trim_space, lowered_contains,
}
use groundwork.AclSync.Model.{
  Group, Folder, Document, PermissionChange, ChangeType, revoke_document_viewer,
  revoke_folder_viewer,
}

pub record GraphUser : Type 0 where
  pub id : String
  pub display_name : String
  pub mail : String
  pub user_principal_name : String

pub record GraphGroup : Type 0 where
  pub id : String
  pub display_name : String

pub data MemberType : Type 0 where
  member_user member_group : MemberType

-- `member_type` is the field `Type`.
pub record GraphMember : Type 0 where
  pub id : String
  pub display_name : String
  pub mail : String
  pub user_principal_name : String
  pub member_type : MemberType

pub record GraphDriveItem : Type 0 where
  pub id : String
  pub name : String
  pub parent_id : String
  pub is_folder : Bool

pub record GraphGrantee : Type 0 where
  pub user_id : String
  pub user_upn : String
  pub user_mail : String
  pub group_id : String

pub record GraphPermission : Type 0 where
  pub id : String
  pub roles : List String
  pub grantee : GraphGrantee

pub record GraphDeltaItem : Type 0 where
  pub id : String
  pub name : String
  pub parent_id : String
  pub is_folder : Bool
  pub deleted : Bool

unfoldable pub user_key : String → String → String → String
user_key mail upn id =
    if trim_space mail == ""
    then if trim_space upn == "" then id else trim_space upn
    else trim_space mail

unfoldable pub user_key_of_user : GraphUser → String
unfolding user_key
user_key_of_user u = user_key u.mail u.user_principal_name u.id

unfoldable pub user_key_of_member : GraphMember → String
unfolding user_key
user_key_of_member m = user_key m.mail m.user_principal_name m.id

unfoldable pub group_key : String → String
group_key id = id

-- The entry of `userKeyByID`: the last user of an id counts.
unfoldable pub last_key : List GraphUser → String → Option String
unfolding user_key_of_user
last_key [] id = none
last_key (u ∷ us) id = elim (last_key us id) [
  | some key ↦ some key
  | none ↦ if u.id == id then some (user_key_of_user u) else none
]

-- The map as the function of its lookups, which answer the empty text for what it does not have.
unfoldable pub user_key_by_id : List GraphUser → String → String
unfolding last_key
user_key_by_id users id = elim (last_key users id) [ some key ↦ key | none ↦ "" ]

unfoldable pub map_users : List GraphUser → List String
unfolding user_key_of_user
map_users users = map user_key_of_user users

-- The body of the loop of `mapGroup`.
unfoldable pub put_member :
    GraphMember → MemberType → List String × List String → List String × List String
unfolding user_key_of_member group_key
put_member m member_group (users, groups) = (users, group_key m.id ∷ groups)
put_member m member_user (users, groups) = (user_key_of_member m ∷ users, groups)

unfoldable pub members_of : List GraphMember → List String × List String
unfolding put_member
members_of [] = ([], [])
members_of (m ∷ ms) = put_member m m.member_type (members_of ms)

unfoldable pub map_group : GraphGroup → List GraphMember → Group
unfolding members_of group_key
map_group g members = record {
  id = group_key g.id;
  member_users = (members_of members).0;
  member_groups = (members_of members).1;
}

unfoldable pub role_reads : String → Bool
unfolding lowered_contains
role_reads r =
    lowered_contains r "read"
    || lowered_contains r "write"
    || lowered_contains r "owner"
    || lowered_contains r "contribute"
    || lowered_contains r "fullcontrol"
    || lowered_contains r "full control"

unfoldable pub grants_read : List String → Bool
unfolding role_reads
grants_read [] = false
grants_read (r ∷ rs) = let rest = grants_read rs in role_reads r || rest

-- The key of a user whom a permission names.
unfoldable pub grantee_key : (String → String) → GraphGrantee → String
unfolding user_key
grantee_key by_id g =
    if by_id g.user_id == "" then user_key g.user_mail g.user_upn g.user_id else by_id g.user_id

-- The switch of `granteesFromPerms`, on a permission that grants reading.
unfoldable pub put_grantee :
    (String → String) → GraphGrantee → List String × List String → List String × List String
unfolding grantee_key group_key
put_grantee by_id g (users, groups) =
    if g.group_id == ""
    then if g.user_id == "" then (users, groups) else (grantee_key by_id g ∷ users, groups)
    else (users, group_key g.group_id ∷ groups)

unfoldable pub grantees_from_perms :
    List GraphPermission → (String → String) → List String × List String
unfolding grants_read put_grantee
grantees_from_perms [] by_id = ([], [])
grantees_from_perms (p ∷ ps) by_id =
    let rest = grantees_from_perms ps by_id in
    if grants_read p.roles then put_grantee by_id p.grantee rest else rest

unfoldable pub map_folder : GraphDriveItem → List GraphPermission → (String → String) → Folder
unfolding grantees_from_perms
map_folder it perms by_id =
    let (users, groups) = grantees_from_perms perms by_id in
    record { id = it.id; viewer_users = users; viewer_groups = groups }

unfoldable pub map_document : GraphDriveItem → List GraphPermission → (String → String) → Document
unfolding grantees_from_perms
map_document it perms by_id =
    let (users, groups) = grantees_from_perms perms by_id in
    record { id = it.id; folder_id = it.parent_id; viewer_users = users; viewer_groups = groups }

-- The type of the change and the prefix of its object.
unfoldable pub revoke_kind : Bool → ChangeType × String
revoke_kind true = (revoke_folder_viewer, "folder:")
revoke_kind false = (revoke_document_viewer, "document:")

unfoldable pub revoke_change :
    GraphDriveItem → GraphPermission → (String → String) → Option PermissionChange
unfolding revoke_kind grantee_key group_key
revoke_change item removed by_id =
    let (kind, prefix) = revoke_kind item.is_folder in
    let g = removed.grantee in
    if g.group_id == ""
    then if g.user_id == ""
      then none
      else some (record {
        change_type = kind;
        subject = "user:" <> grantee_key by_id g;
        object = prefix <> item.id;
      })
    else some (record {
      change_type = kind;
      subject = ("group:" <> group_key g.group_id) <> "#member";
      object = prefix <> item.id;
    })

unfoldable pub classify_delta : List GraphDeltaItem → List String × List String
classify_delta [] = ([], [])
classify_delta (it ∷ items) =
    let (deleted, changed) = classify_delta items in
    if it.deleted then (it.id ∷ deleted, changed) else (deleted, it.id ∷ changed)
