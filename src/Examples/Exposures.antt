-- ===== src/Examples/Exposures.antt =====
-- The leak report on a document that two groups can view.
use groundwork.Base.{String, [], ◌∷◌}
use groundwork.AclSync.Model.{PermissionSet}

abbrev budget : PermissionSet
budget = record {
  tenant_id = "acme";
  users = [];
  groups = [];
  folders = [];
  documents =
      record {
        id = "budget";
        folder_id = "";
        viewer_users = [];
        viewer_groups = "eng" ∷ "finance" ∷ [];
      }
      ∷ [];
}

abbrev owners : String → String
owners id = "finance"
