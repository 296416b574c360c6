-- ===== src/AclSync/MockConnector.antt =====
-- aclsync/mock.go: a source of permissions in memory, with revocations and the events they send.
pub mod Changes
use groundwork.Base.{
  String, Bool, true, false, List, [], ◌∷◌, ◌++◌, map, length, ltb, not, if◌then◌else◌, ◌==◌,
  string_eq, remove, Result, ok,
}
use groundwork.AclSync.Model.{
  Group, Folder, Document, PermissionSet, DocumentPermissions, PermissionChange, add_group_member,
  revoke_group_member,
}
use groundwork.AclSync.Tuples.{user_ref, group_ref}

-- `changes` holds what the buffered channel does, oldest first.
pub record MockConnector : Type 0 where
  pub tenant : String
  pub permissions : PermissionSet
  pub changes : List PermissionChange

abbrev pub demo_group : String → List String → List String → Group
demo_group id users groups = record { id = id; member_users = users; member_groups = groups }

abbrev pub demo_folder : String → String → Folder
demo_folder id group = record { id = id; viewer_users = []; viewer_groups = group ∷ [] }

abbrev pub demo_document : String → String → Document
demo_document id folder = record {
  id = id;
  folder_id = folder;
  viewer_users = [];
  viewer_groups = [];
}

unfoldable pub new_mock_connector : MockConnector
new_mock_connector = record {
  tenant = "tenant_demo";
  changes = [];
  permissions = record {
    tenant_id = "tenant_demo";
    users = "finance_user" ∷ "general_user" ∷ "executive_user" ∷ [];
    groups =
        demo_group "finance" ("finance_user" ∷ []) []
        ∷ demo_group "executives" ("executive_user" ∷ []) []
        ∷ demo_group "employees" ("general_user" ∷ []) ("finance" ∷ "executives" ∷ [])
        ∷ [];
    folders =
        demo_folder "finance-folder" "finance"
        ∷ demo_folder "public-folder" "employees"
        ∷ demo_folder "executive-folder" "executives"
        ∷ [];
    documents =
        demo_document "security-policy" "finance-folder"
        ∷ demo_document "handbook" "public-folder"
        ∷ demo_document "board-minutes" "executive-folder"
        ∷ [];
  };
}

-- The clone that `Snapshot` hands out is the value itself.
unfoldable pub snapshot : MockConnector → String → Result PermissionSet
snapshot m tenant_id = ok m.permissions

unfoldable pub list_documents : MockConnector → String → Result (List Document)
list_documents m tenant_id = ok m.permissions.documents

-- The inner loop of `GetDocumentPermissions`, which folds in the document's folders.
unfoldable pub fold_folders : List Folder → DocumentPermissions → DocumentPermissions
fold_folders [] perms = perms
fold_folders (f ∷ fs) perms =
    let folded = record perms {
      viewer_users = perms.viewer_users ++ f.viewer_users;
      viewer_groups = perms.viewer_groups ++ f.viewer_groups;
    } in
    fold_folders fs (if f.id == perms.folder_id then folded else perms)

-- Its outer loop; an unknown document has the empty permissions.
unfoldable pub find_permissions : List Folder → String → List Document → DocumentPermissions
find_permissions folders document_id [] = record {
  document_id = "";
  folder_id = "";
  viewer_users = [];
  viewer_groups = [];
}
find_permissions folders document_id (d ∷ ds) =
    if d.id == document_id
    then fold_folders folders (record {
      document_id = d.id;
      folder_id = d.folder_id;
      viewer_users = d.viewer_users;
      viewer_groups = d.viewer_groups;
    })
    else find_permissions folders document_id ds

unfoldable pub get_document_permissions :
    MockConnector → String → String → Result DocumentPermissions
get_document_permissions m tenant_id document_id =
    ok (find_permissions m.permissions.folders document_id m.permissions.documents)

-- The channel has room for 64 events, and one that finds no room is dropped.
unfoldable pub emit : PermissionChange → MockConnector → MockConnector
emit c m = if ltb (length m.changes) 64 then record m { changes = m.changes ++ c ∷ [] } else m

-- The bodies of the loops over the groups.
unfoldable pub without_member : String → String → Group → Group
without_member group user g =
    if g.id == group then record g { member_users = remove user g.member_users } else g

unfoldable pub with_member : String → String → Group → Group
with_member group user g =
    if g.id == group then record g { member_users = g.member_users ++ user ∷ [] } else g

abbrev pub with_groups : (Group → Group) → PermissionSet → PermissionSet
with_groups f ps = record ps { groups = map f ps.groups }

-- What the method leaves when it unlocks, and the event that it sends (`emit`) after that. Other
-- calls can come between the two.
unfoldable pub revoke_member : MockConnector → String → String → MockConnector × PermissionChange
unfolding without_member
revoke_member m group user = (
  record m { permissions = with_groups (without_member group user) m.permissions },
  record { change_type = revoke_group_member; subject = user_ref user; object = group_ref group },
)

-- As for `revoke_member`.
unfoldable pub add_member : MockConnector → String → String → MockConnector × PermissionChange
unfolding with_member
add_member m group user = (
  record m { permissions = with_groups (with_member group user) m.permissions },
  record { change_type = add_group_member; subject = user_ref user; object = group_ref group },
)

unfoldable pub keep_documents : String → List Document → List Document
keep_documents document_id [] = []
keep_documents document_id (d ∷ ds) =
    let rest = keep_documents document_id ds in if d.id == document_id then rest else d ∷ rest

unfoldable pub remove_document : MockConnector → String → MockConnector
remove_document m document_id = record m {
  permissions = record m.permissions {
    documents = keep_documents document_id m.permissions.documents;
  };
}
