-- ===== src/AclSync/Change.antt =====
-- aclsync/service.go, `changeToTuples`: a change event as tuples to write and to delete.
use groundwork.Base.{List, [], ◌∷◌}
use groundwork.AclSync.Model.{
  ChangeType, PermissionChange, add_group_member, revoke_group_member, revoke_folder_viewer,
  revoke_document_viewer, other_change,
}
use groundwork.AclSync.Tuples.{Tuple, tuple}

-- The switch on the type of the change.
unfoldable pub change_of_type : ChangeType → PermissionChange → List Tuple × List Tuple
change_of_type add_group_member c = (tuple c.subject "member" c.object ∷ [], [])
change_of_type revoke_group_member c = ([], tuple c.subject "member" c.object ∷ [])
change_of_type revoke_folder_viewer c = ([], tuple c.subject "viewer" c.object ∷ [])
change_of_type revoke_document_viewer c = ([], tuple c.subject "viewer" c.object ∷ [])
change_of_type (other_change text) c = ([], [])

unfoldable pub change_to_tuples : PermissionChange → List Tuple × List Tuple
unfolding change_of_type
change_to_tuples c = change_of_type c.change_type c
