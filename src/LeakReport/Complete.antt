-- ===== src/LeakReport/Complete.antt =====
-- The report's findings are exactly the exposures.
use mathlib.Core.List.{Memᴰ}
use mathlib.Core.List.Memᴰ
use groundwork.Base.{String, ◌≡◌, List, [], map, sort_strings}
use groundwork.AclSync.Model.{Document, PermissionSet}
use groundwork.LeakReport.{ForeignOwners, sort_documents}
use groundwork.LeakReport.Documents.{all_owners}
use groundwork.LeakReport.Exposures.{ForeignView}

-- A document of the list that another than the group owns, `x`, and that the group can view.
Seen : (String → String) → String → String → List Document → Type 0
Seen owners g x ds = (d : Document) × (Memᴰ d ds × (ForeignView owners g d × (owners d.id ≡ x)))

module _ (ps : PermissionSet) (owners : String → String) where
  abbrev foreign : ForeignOwners
  foreign = all_owners owners (sort_documents ps.documents) []

  abbrev keys : List String
  keys = sort_strings (map (λ e. e.0) foreign)
