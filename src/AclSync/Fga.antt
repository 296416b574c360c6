-- ===== src/AclSync/Fga.antt =====
-- aclsync/fga.go, `MemoryFGA`: the in-memory tuple store and its resolution of relation queries.
pub mod Member
pub mod Viewer
use groundwork.Base.{
  ℕ, zero, suc, String, ◌<>◌, Bool, true, false, ◌&&◌, ◌||◌, List, [], ◌∷◌, Option, none, some,
  length, ◌==◌, if◌then◌else◌, string_eq, contains, insert, remove, has_prefix, has_suffix,
  trim_prefix, trim_suffix,
}
use groundwork.AclSync.Tuples.{Tuple, tuple_eq, tuple}

-- `byTenant`; a Go map has no order, and every theorem holds for any order of these lists.
pub record MemoryFga : Type 0 where
  pub by_tenant : List (String × List Tuple)

unfoldable pub new_memory_fga : MemoryFga
new_memory_fga = record { by_tenant = [] }

unfoldable pub tenant_set : String → List (String × List Tuple) → List Tuple
tenant_set tenant [] = []
tenant_set tenant ((t, set) ∷ m) = if t == tenant then set else tenant_set tenant m

-- `m.byTenant[tenantID] = set`
unfoldable pub put_tenant :
    String → List Tuple → List (String × List Tuple) → List (String × List Tuple)
put_tenant tenant set [] = (tenant, set) ∷ []
put_tenant tenant set ((t, old) ∷ m) =
    if t == tenant then (t, set) ∷ m else (t, old) ∷ put_tenant tenant set m

unfoldable pub list_tuples : MemoryFga → String → List Tuple
list_tuples m tenant = tenant_set tenant m.by_tenant

unfoldable pub insert_all : List Tuple → List Tuple → List Tuple
insert_all set [] = set
insert_all set (t ∷ ts) = insert_all (insert t set) ts

unfoldable pub remove_all : List Tuple → List Tuple → List Tuple
remove_all set [] = set
remove_all set (t ∷ ts) = remove_all (remove t set) ts

unfoldable pub write_tuples : MemoryFga → String → List Tuple → MemoryFga
write_tuples m tenant tuples = record {
  by_tenant = put_tenant tenant (insert_all (list_tuples m tenant) tuples) m.by_tenant;
}

unfoldable pub delete_tuples : MemoryFga → String → List Tuple → MemoryFga
delete_tuples m tenant tuples = record {
  by_tenant = put_tenant tenant (remove_all (list_tuples m tenant) tuples) m.by_tenant;
}

-- The group behind `group:H#member`, as the code computes it.
unfoldable pub subject_group : String → String
subject_group user = "group:" <> trim_suffix (trim_prefix user "group:") "#member"

-- The test of the loop in `memberOf`.
unfoldable pub is_nested : String → Tuple → Bool
is_nested group t =
    t.relation == "member"
    && t.object == group
    && has_prefix t.user "group:"
    && has_suffix t.user "#member"

module _ (set : List Tuple) (user : String) where
  -- The loop of `memberOf` over the set. `member` is the recursive call; the map `seen` is shared
  -- by all calls, so it is passed on and handed back.
  unfoldable pub scan_nested :
      (String → List String → Bool × List String)
      → String
      → List Tuple
      → List String
      → Bool × List String
  scan_nested member group [] seen = (false, seen)
  scan_nested member group (t ∷ ts) seen = elim (is_nested group t) [
    | false ↦ scan_nested member group ts seen
    | true ↦
        let (found, seen') = member (subject_group t.user) seen in
        elim found [ true ↦ (true, seen') | false ↦ scan_nested member group ts seen' ]
  ]

  -- `memberOf`, on fuel: every deeper call has one more group in `seen`.
  unfoldable pub member_of : ℕ → String → List String → Bool × List String
  member_of zero group seen = (false, seen)
  member_of (suc fuel) group seen = elim (contains seen group) [
    | true ↦ (false, seen)
    | false ↦ elim (contains set (tuple user "member" group)) [
      | true ↦ (true, group ∷ seen)
      | false ↦ scan_nested (member_of fuel) group set (group ∷ seen)
    ]
  ]

  -- `memberOf(set, user, group, map[string]bool{})`
  unfoldable pub is_member : String → Bool
  is_member group = (member_of (suc (length set)) group []).0

  -- The loop over group viewers in `viewerFolder` and `viewerDocument`.
  unfoldable pub scan_groups : String → List Tuple → Bool
  scan_groups object [] = false
  scan_groups object (t ∷ ts) =
      (t.relation == "viewer"
        && t.object == object
        && has_suffix t.user "#member"
        && is_member (subject_group t.user))
      || scan_groups object ts

  unfoldable pub viewer_folder : String → Bool
  viewer_folder folder = contains set (tuple user "viewer" folder) || scan_groups folder set

  -- The loop over parent folders in `viewerDocument`.
  unfoldable pub scan_parents : String → List Tuple → Bool
  scan_parents document [] = false
  scan_parents document (t ∷ ts) =
      (t.relation == "parent"
        && t.object == document
        && has_prefix t.user "folder:"
        && viewer_folder t.user)
      || scan_parents document ts

  unfoldable pub viewer_document : String → Bool
  viewer_document document =
      contains set (tuple user "viewer" document)
      || scan_groups document set
      || scan_parents document set

-- The `switch` of `Check` on a tenant's set; an absent tenant has the empty set, which grants nothing.
unfoldable pub check_set : List Tuple → String → String → String → Bool
check_set set user relation object =
    if relation == "viewer" && has_prefix object "document:"
    then viewer_document set user object
    else if relation == "viewer" && has_prefix object "folder:"
    then viewer_folder set user object
    else if relation == "member" && has_prefix object "group:"
    then is_member set user object
    else false

unfoldable pub check : MemoryFga → String → String → String → String → Bool
check m tenant user relation object = check_set (list_tuples m tenant) user relation object
