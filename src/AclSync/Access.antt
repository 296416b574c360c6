-- ===== src/AclSync/Access.antt =====
-- Who may view a document according to a snapshot of the source (aclsync/connector.go), stated
-- without tuples.
pub mod Groups
pub mod Viewers
use mathlib.Core.List.{Memᴰ}
use groundwork.Base.{
  String, ◌≡◌, refl, sym, ap, subst, ◌∙◌, ◌⊎◌, inl, inr, ◌↔◌, Bool, true, false, ◌&&◌, List, arith,
  ◌==◌, string_eq, ==_refl, contains, has_suffix, has_prefix,
}
use text.Mathlib.TextEquality.{eq_iff}
use groundwork.AclSync.Model.{Group, Folder, Document, PermissionSet}
use groundwork.AclSync.Tuples.{
  Tuple, tuple_eq, tuple, user_ref, group_ref, group_members_ref, folder_ref, document_ref,
  permission_set_to_tuples,
}
use groundwork.AclSync.Tuples.Refs.{
  user_ref_inj, group_ref_inj, folder_ref_inj, document_ref_inj, user-ne-group_members,
  folder-ne-document, group_members-prefix, group_members-suffix, subject_group_lem,
  user_ref-prefix, folder_ref-prefix, document_ref-prefix,
}
use groundwork.AclSync.Tuples.Grants.{Grant, permission_set_to_tuples_iff}
use groundwork.AclSync.Fga.{subject_group, is_nested, check_set, viewer_document}
use groundwork.AclSync.Fga.Member.{Member, direct, nested}
use groundwork.AclSync.Fga.Viewer.{Views, ViewsDocument, viewer_document_iff}

-- The user is in the group `id`: listed, or in a group that is nested in it.
pub data InGroup (ps : PermissionSet) (u : String) : String → Type 0 where
  listed :
      {id : String} (g : Group)
      → Memᴰ g ps.groups
      → g.id ≡ id
      → contains g.member_users u ≡ true
      → InGroup ps u id
  through :
      {id : String} (g : Group) (sub : String)
      → Memᴰ g ps.groups
      → g.id ≡ id
      → contains g.member_groups sub ≡ true
      → InGroup ps u sub
      → InGroup ps u id

pub data CanViewFolder (ps : PermissionSet) (u : String) (id : String) : Type 0 where
  user_viewer :
      (f : Folder)
      → Memᴰ f ps.folders
      → f.id ≡ id
      → contains f.viewer_users u ≡ true
      → CanViewFolder ps u id
  group_viewer :
      (f : Folder) (g : String)
      → Memᴰ f ps.folders
      → f.id ≡ id
      → contains f.viewer_groups g ≡ true
      → InGroup ps u g
      → CanViewFolder ps u id

pub data CanView (ps : PermissionSet) (u : String) (id : String) : Type 0 where
  user_viewer :
      (d : Document)
      → Memᴰ d ps.documents
      → d.id ≡ id
      → contains d.viewer_users u ≡ true
      → CanView ps u id
  group_viewer :
      (d : Document) (g : String)
      → Memᴰ d ps.documents
      → d.id ≡ id
      → contains d.viewer_groups g ≡ true
      → InGroup ps u g
      → CanView ps u id
  inherited :
      (d : Document)
      → Memᴰ d ps.documents
      → d.id ≡ id
      → (d.folder_id == "") ≡ false
      → CanViewFolder ps u d.folder_id
      → CanView ps u id

-- No user that is named as a viewer has an identifier that ends like a reference to a group.
pub record NoGroupLikeViewers (ps : PermissionSet) : Type 0 where
  pub folders :
      (f : Folder) (u : String)
      → Memᴰ f ps.folders
      → contains f.viewer_users u ≡ true
      → has_suffix (user_ref u) "#member" ≡ false
  pub documents :
      (d : Document) (u : String)
      → Memᴰ d ps.documents
      → contains d.viewer_users u ≡ true
      → has_suffix (user_ref u) "#member" ≡ false
