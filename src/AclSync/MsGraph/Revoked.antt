-- ===== src/AclSync/MsGraph/Revoked.antt =====
-- A permission that Graph removes is revoked by the very tuple that granted it.
use mathlib.Core.List.{Memᴰ}
use mathlib.Core.List.Memᴰ
use groundwork.Base.{
  String, ◌<>◌, ◌≡◌, refl, subst, Bool, true, false, ◌&&◌, List, [], ◌∷◌, map, some, if◌then◌else◌,
  ◌==◌, string_eq, Bool-cases, inl, inr,
}
use groundwork.AclSync.Model.{PermissionChange}
use groundwork.AclSync.Tuples.{
  Tuple, tuple, user_ref, group_members_ref, folder_ref, document_ref, viewer_tuples, parent_tuples,
  folder_tuples, document_tuples,
}
use groundwork.AclSync.Change.{change_to_tuples, change_of_type}
use groundwork.AclSync.MsGraph.{
  GraphDriveItem, GraphGrantee, GraphPermission, group_key, grants_read, grantee_key, put_grantee,
  grantees_from_perms, map_folder, map_document, revoke_kind, revoke_change,
}

-- The tuples that `Snapshot` and the translation make of an item.
abbrev pub item_tuples : GraphDriveItem → List GraphPermission → (String → String) → List Tuple
item_tuples it perms by_id =
    if it.is_folder
    then folder_tuples (map_folder it perms by_id)
    else document_tuples (map_document it perms by_id)

module _ (by_id : String → String) where
  put_grantee-keeps_user :
      (g : GraphGrantee) (r : List String × List String) {x : String}
      → Memᴰ x r.0
      → Memᴰ x (put_grantee by_id g r).0
  unfolding put_grantee
  put_grantee-keeps_user g (users, groups) m = elim (Bool-cases (g.group_id == "")) [
    | inr e ↦ rw (e, put_grantee) m
    | inl e ↦ elim (Bool-cases (g.user_id == "")) [
      | inl u ↦ rw (e, u, put_grantee) m
      | inr u ↦ rw (e, u, put_grantee) (Memᴰ.tail m)
    ]
  ]

  put_grantee-keeps_group :
      (g : GraphGrantee) (r : List String × List String) {x : String}
      → Memᴰ x r.1
      → Memᴰ x (put_grantee by_id g r).1
  unfolding put_grantee
  put_grantee-keeps_group g (users, groups) m = elim (Bool-cases (g.group_id == "")) [
    | inr e ↦ rw (e, put_grantee) (Memᴰ.tail m)
    | inl e ↦ elim (Bool-cases (g.user_id == "")) [
      | inl u ↦ rw (e, u, put_grantee) m
      | inr u ↦ rw (e, u, put_grantee) m
    ]
  ]

  -- A permission further on takes no grantee away.
  group_kept :
      (y : GraphPermission) (perms : List GraphPermission) {x : String}
      → Memᴰ x (grantees_from_perms perms by_id).1
      → Memᴰ x (grantees_from_perms (y ∷ perms) by_id).1
  unfolding grantees_from_perms
  group_kept y perms m = elim (Bool-cases (grants_read y.roles)) [
    | inl e ↦
        rw (e, grantees_from_perms)
          (put_grantee-keeps_group y.grantee (grantees_from_perms perms by_id) m)
    | inr e ↦ rw (e, grantees_from_perms) m
  ]

  user_kept :
      (y : GraphPermission) (perms : List GraphPermission) {x : String}
      → Memᴰ x (grantees_from_perms perms by_id).0
      → Memᴰ x (grantees_from_perms (y ∷ perms) by_id).0
  unfolding grantees_from_perms
  user_kept y perms m = elim (Bool-cases (grants_read y.roles)) [
    | inl e ↦
        rw (e, grantees_from_perms)
          (put_grantee-keeps_user y.grantee (grantees_from_perms perms by_id) m)
    | inr e ↦ rw (e, grantees_from_perms) m
  ]

  module _ (p : GraphPermission) (reads : grants_read p.roles ≡ true) where
    group_granted :
        (perms : List GraphPermission)
        → Memᴰ p perms
        → (p.grantee.group_id == "") ≡ false
        → Memᴰ (group_key p.grantee.group_id) (grantees_from_perms perms by_id).1
    unfolding grantees_from_perms put_grantee
    group_granted [] m named = absurd (Memᴰ.not-nil m)
    group_granted (y ∷ ps) (Memᴰ.head e) named =
        subst (λ q. Memᴰ (group_key p.grantee.group_id) (grantees_from_perms (q ∷ ps) by_id).1) e
          (rw (reads, named, grantees_from_perms, put_grantee) (Memᴰ.head refl))
    group_granted (y ∷ ps) (Memᴰ.tail m) named = group_kept y ps (group_granted ps m named)

    user_granted :
        (perms : List GraphPermission)
        → Memᴰ p perms
        → (p.grantee.group_id == "") ≡ true
        → (p.grantee.user_id == "") ≡ false
        → Memᴰ (grantee_key by_id p.grantee) (grantees_from_perms perms by_id).0
    unfolding grantees_from_perms put_grantee
    user_granted [] m plain named = absurd (Memᴰ.not-nil m)
    user_granted (y ∷ ps) (Memᴰ.head e) plain named =
        subst (λ q. Memᴰ (grantee_key by_id p.grantee) (grantees_from_perms (q ∷ ps) by_id).0) e
          (rw (reads, plain, named, grantees_from_perms, put_grantee) (Memᴰ.head refl))
    user_granted (y ∷ ps) (Memᴰ.tail m) plain named = user_kept y ps (user_granted ps m plain named)

-- The viewers of an item, each with the tuple of `viewer_tuples`.
user_viewer :
    (users groups : List String) (object : String) {u : String}
    → Memᴰ u users
    → Memᴰ (tuple (user_ref u) "viewer" object) (viewer_tuples users groups object)
unfolding viewer_tuples
user_viewer users groups object m =
    Memᴰ.append_left (map (λ gr. tuple (group_members_ref gr) "viewer" object) groups)
      (Memᴰ.map (λ u. tuple (user_ref u) "viewer" object) m)

group_viewer :
    (users groups : List String) (object : String) {gr : String}
    → Memᴰ gr groups
    → Memᴰ (tuple (group_members_ref gr) "viewer" object) (viewer_tuples users groups object)
unfolding viewer_tuples
group_viewer users groups object m =
    Memᴰ.append_right (map (λ u. tuple (user_ref u) "viewer" object) users)
      (Memᴰ.map (λ gr. tuple (group_members_ref gr) "viewer" object) m)

-- The object that the tuples of an item are about.
abbrev item_ref : GraphDriveItem → String
item_ref it = if it.is_folder then folder_ref it.id else document_ref it.id

viewer_of_item :
    (it : GraphDriveItem) (perms : List GraphPermission) (by_id : String → String) {t : Tuple}
    → Memᴰ t (
        viewer_tuples
          (grantees_from_perms perms by_id).0
          (grantees_from_perms perms by_id).1
          (item_ref it))
    → Memᴰ t (item_tuples it perms by_id)
unfolding folder_tuples document_tuples map_folder map_document
viewer_of_item it perms by_id m = elim (Bool-cases it.is_folder) [
  | inl e ↦ rw (e, folder_tuples, map_folder) (rw e at m)
  | inr e ↦
      rw (e, document_tuples, map_document)
        (Memᴰ.append_right (parent_tuples (map_document it perms by_id)) (rw e at m))
]

-- The event on an item, by whether it is a folder, as tuples.
revoke_kind-tuples :
    (b : Bool) (subject id : String)
    → change_to_tuples (record {
      change_type = (revoke_kind b).0;
      subject = subject;
      object = (revoke_kind b).1 <> id;
    })
      ≡ ([], tuple subject "viewer" (if b then folder_ref id else document_ref id) ∷ [])
unfolding change_to_tuples change_of_type revoke_kind folder_ref document_ref
revoke_kind-tuples true subject id = refl
revoke_kind-tuples false subject id = refl

-- A permission that grants reading to a group or a user, on a folder or a document, gives its
-- grantee a tuple in a snapshot without canonical identities; when Graph removes that permission, `revokeChange` makes an event
-- that writes nothing and deletes exactly this tuple.
pub revoke_change-granted :
    (it : GraphDriveItem) (perms : List GraphPermission) (by_id : String → String)
    (p : GraphPermission)
    → Memᴰ p perms
    → grants_read p.roles ≡ true
    → (p.grantee.group_id == "" && p.grantee.user_id == "") ≡ false
    → (c : PermissionChange) × ((t : Tuple) × ((revoke_change it p by_id ≡ some c)
          × ((change_to_tuples c ≡ ([], t ∷ [])) × Memᴰ t (item_tuples it perms by_id))))
unfolding revoke_change user_ref group_members_ref
revoke_change-granted it perms by_id p m reads names =
    let users = (grantees_from_perms perms by_id).0 in
    let groups = (grantees_from_perms perms by_id).1 in
    elim (Bool-cases (p.grantee.group_id == "")) [
      | inr group ↦ (
        _,
        (
          _,
          (
            rw (group, revoke_change),
            (
              revoke_kind-tuples it.is_folder (group_members_ref (group_key p.grantee.group_id))
                  it.id,
              viewer_of_item it perms by_id (
                  group_viewer users groups (item_ref it)
                    (group_granted by_id p reads perms m group)),
            ),
          ),
        ),
      )
      | inl plain ↦
          let user = rw plain at names in
          (
            _,
            (
              _,
              (
                rw (plain, user, revoke_change),
                (
                  revoke_kind-tuples it.is_folder (user_ref (grantee_key by_id p.grantee)) it.id,
                  viewer_of_item it perms by_id (
                      user_viewer users groups (item_ref it)
                        (user_granted by_id p reads perms m plain user)),
                ),
              ),
            ),
          )
    ]
