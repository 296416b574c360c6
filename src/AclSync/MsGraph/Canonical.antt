-- ===== src/AclSync/MsGraph/Canonical.antt =====
-- aclsync/msgraph/canonical.go: users of a snapshot replaced by their canonical principals.
use groundwork.Base.{
  ℕ, String, true, List, [], ◌∷◌, ◌++◌, map, Option, none, some, ◌⊎◌, inl, inr, if◌then◌else◌, ◌==◌,
  string_eq, trim_space,
}
use groundwork.AclSync.Model.{Group, Folder, Document, PermissionSet}
use groundwork.AclSync.MsGraph.{user_key}
use groundwork.Runtime.Principal.{
  IdentityAssertion, Principal, ResolveError, identity_unresolved, other_error, PrincipalResolver,
  principal_user_id, asserted,
}

unfoldable pub directory_assertions : String → String → String → List IdentityAssertion
unfolding asserted
directory_assertions mail upn id =
    asserted "entra:id" (trim_space id) true
    ++ asserted "jwt:email" (trim_space mail) true
    ++ asserted "jwt:preferred_username" (trim_space upn) true

-- The map `byUserKey`: each key with its canonical user id, the newest first.
abbrev pub ByUserKey : Type 0
ByUserKey = List (String × String)

unfoldable pub find_user_key : ByUserKey → String → Option String
find_user_key [] uk = none
find_user_key ((k, v) ∷ m) uk = let rest = find_user_key m uk in if k == uk then some v else rest

unfoldable pub map_user_key : ByUserKey → String → String
unfolding find_user_key
map_user_key m uk = elim (find_user_key m uk) [ some v ↦ v | none ↦ uk ]

unfoldable pub rewrite_group : ByUserKey → Group → Group
unfolding map_user_key
rewrite_group m g = record g { member_users = map (map_user_key m) g.member_users }

unfoldable pub rewrite_folder : ByUserKey → Folder → Folder
unfolding map_user_key
rewrite_folder m f = record f { viewer_users = map (map_user_key m) f.viewer_users }

unfoldable pub rewrite_document : ByUserKey → Document → Document
unfolding map_user_key
rewrite_document m d = record d { viewer_users = map (map_user_key m) d.viewer_users }

-- `rewrite`
unfoldable pub rewrite_set : ByUserKey → PermissionSet → PermissionSet
unfolding map_user_key rewrite_group rewrite_folder rewrite_document
rewrite_set m ps = record ps {
  users = map (map_user_key m) ps.users;
  groups = map (rewrite_group m) ps.groups;
  folders = map (rewrite_folder m) ps.folders;
  documents = map (rewrite_document m) ps.documents;
}

module _ (resolver : PrincipalResolver) (tenant : String) where
  open resolver use {State}

  -- The end of `observe`: the aliases are stored, then the principal is remembered.
  unfoldable pub stored :
      String
      → List IdentityAssertion
      → Principal
      → State
      → ByUserKey
      → (State × ByUserKey) × Option String
  stored uk assertions p s m =
      let (s', error) = resolver.upsert_aliases s tenant p assertions in
      elim error [
        | some e ↦ ((s', m), some e)
        | none ↦ ((s', (uk, principal_user_id p.id) ∷ m), none)
      ]

  -- The switch on the resolver's answer; `fresh` is the next random principal id.
  unfoldable pub settle :
      String
      → String
      → List IdentityAssertion
      → ByUserKey
      → State × (ResolveError ⊎ Principal)
      → (State × ByUserKey) × Option String
  unfolding stored
  settle fresh uk assertions m (s, inr p) = stored uk assertions p s m
  settle fresh uk assertions m (s, inl identity_unresolved) =
      stored uk assertions (record { id = fresh; tenant_id = tenant }) s m
  settle fresh uk assertions m (s, inl (other_error e)) = ((s, m), some e)

  -- For the assertions that there are, at the clock `now`.
  unfoldable pub observe_asserted :
      ℕ
      → String
      → String
      → List IdentityAssertion
      → State
      → ByUserKey
      → (State × ByUserKey) × Option String
  unfolding settle
  observe_asserted now fresh uk [] s m = ((s, m), none)
  observe_asserted now fresh uk (a ∷ others) s m =
      settle fresh uk (a ∷ others) m (resolver.resolve s now tenant (a ∷ others))

  unfoldable pub observe :
      ℕ
      → String
      → String
      → String
      → String
      → State
      → ByUserKey
      → (State × ByUserKey) × Option String
  unfolding observe_asserted find_user_key
  observe now fresh mail upn id s m =
      let uk = user_key mail upn id in
      if uk == "" then ((s, m), none) else elim (find_user_key m uk) [
        | some v ↦ ((s, m), none)
        | none ↦ observe_asserted now fresh uk (directory_assertions mail upn id) s m
      ]
