-- ===== src/AclSync/Tuples.antt =====
-- aclsync/tuples.go: the translation of a snapshot into OpenFGA tuples.
pub mod Refs
pub mod Grants
use groundwork.Base.{
  String, ◌<>◌, ◌≡◌, ◌↔◌, Bool, true, false, ◌&&◌, List, [], ◌∷◌, ◌++◌, map, arith, Comparable,
  ◌==◌, if◌then◌else◌, string_eq, contains,
}
use mathlib.Core.List.{flat_map}
use text.Mathlib.TextEquality.{eq_iff}
use groundwork.AclSync.Model.{Group, Folder, Document, PermissionSet}

pub record Tuple : Type 0 where
  pub user : String
  pub relation : String
  pub object : String

abbrev pub tuple_beq : Tuple → Tuple → Bool
tuple_beq s t = s.user == t.user && s.relation == t.relation && s.object == t.object

pub tuple_beq_iff : (s t : Tuple) → (tuple_beq s t ≡ true) ↔ (s ≡ t)
tuple_beq_iff s t =
    ground (arith, eq_iff s.user t.user, eq_iff s.relation t.relation, eq_iff s.object t.object)

instance abbrev pub tuple_eq : Comparable Tuple
tuple_eq = record { equals = tuple_beq; equals_iff = tuple_beq_iff }

abbrev pub tuple : String → String → String → Tuple
tuple u r o = record { user = u; relation = r; object = o }

unfoldable pub user_ref : String → String
user_ref id = "user:" <> id

unfoldable pub group_ref : String → String
group_ref id = "group:" <> id

unfoldable pub group_members_ref : String → String
group_members_ref id = ("group:" <> id) <> "#member"

unfoldable pub folder_ref : String → String
folder_ref id = "folder:" <> id

unfoldable pub document_ref : String → String
document_ref id = "document:" <> id

-- The bodies of the three loops.
unfoldable pub group_tuples : Group → List Tuple
group_tuples g =
    map (λ u. tuple (user_ref u) "member" (group_ref g.id)) g.member_users
    ++ map (λ sub. tuple (group_members_ref sub) "member" (group_ref g.id)) g.member_groups

unfoldable pub viewer_tuples : List String → List String → String → List Tuple
viewer_tuples users groups object =
    map (λ u. tuple (user_ref u) "viewer" object) users
    ++ map (λ gr. tuple (group_members_ref gr) "viewer" object) groups

unfoldable pub folder_tuples : Folder → List Tuple
unfolding viewer_tuples
folder_tuples f = viewer_tuples f.viewer_users f.viewer_groups (folder_ref f.id)

unfoldable pub parent_tuples : Document → List Tuple
parent_tuples d =
    if d.folder_id == ""
    then []
    else tuple (folder_ref d.folder_id) "parent" (document_ref d.id) ∷ []

unfoldable pub document_tuples : Document → List Tuple
unfolding parent_tuples viewer_tuples
document_tuples d =
    parent_tuples d ++ viewer_tuples d.viewer_users d.viewer_groups (document_ref d.id)

-- The loop of `dedupeTuples`; `seen` is the map of that name.
unfoldable pub dedupe_from : List Tuple → List Tuple → List Tuple
dedupe_from seen [] = []
dedupe_from seen (t ∷ ts) = elim (contains seen t) [
  | true ↦ dedupe_from seen ts
  | false ↦ t ∷ dedupe_from (t ∷ seen) ts
]

unfoldable pub dedupe_tuples : List Tuple → List Tuple
unfolding dedupe_from
dedupe_tuples = dedupe_from []

unfoldable pub permission_set_to_tuples : PermissionSet → List Tuple
unfolding group_tuples folder_tuples document_tuples dedupe_tuples
permission_set_to_tuples ps = dedupe_tuples (
    flat_map group_tuples ps.groups
    ++ (flat_map folder_tuples ps.folders ++ flat_map document_tuples ps.documents))
