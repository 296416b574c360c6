-- ===== src/AclSync/Model.antt =====
-- aclsync/connector.go: the snapshot of the permissions of a tenant in its source.
use groundwork.Base.{String, List}

pub record Group : Type 0 where
  pub id : String
  pub member_users : List String
  pub member_groups : List String

pub record Folder : Type 0 where
  pub id : String
  pub viewer_users : List String
  pub viewer_groups : List String

-- `folder_id` is empty where the document has no folder.
pub record Document : Type 0 where
  pub id : String
  pub folder_id : String
  pub viewer_users : List String
  pub viewer_groups : List String

pub record PermissionSet : Type 0 where
  pub tenant_id : String
  pub users : List String
  pub groups : List Group
  pub folders : List Folder
  pub documents : List Document

-- The effective permissions of one document.
pub record DocumentPermissions : Type 0 where
  pub document_id : String
  pub folder_id : String
  pub viewer_users : List String
  pub viewer_groups : List String

-- The texts of `ChangeType`, and any other text in its place.
pub data ChangeType : Type 0 where
  add_group_member revoke_group_member revoke_folder_viewer revoke_document_viewer : ChangeType
  other_change : String → ChangeType

-- `change_type` is the field `Type`.
pub record PermissionChange : Type 0 where
  pub change_type : ChangeType
  pub subject : String
  pub object : String
