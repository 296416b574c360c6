-- ===== src/AclSync/MockConnector/Changes.antt =====
-- The tuples of the source after a change of a group, beside those that the event of the change
-- writes and deletes.
use mathlib.Core.List.{flat_map, map-append}
use groundwork.Base.{
  String, ◌≡◌, refl, sym, ap, subst, ◌∙◌, inl, inr, true, false, not, ◌&&◌, ◌||◌, List, [], ◌∷◌,
  ◌++◌, map, arith, ◌==◌, string_eq, contains, contains-append, remove, Bool-cases,
}
use groundwork.AclSync.Model.{Group, Folder, Document, PermissionSet}
use groundwork.AclSync.Tuples.{
  Tuple, tuple, tuple_eq, tuple_beq_iff, user_ref, group_ref, group_members_ref, folder_ref,
  document_ref, group_tuples, folder_tuples, document_tuples, viewer_tuples, parent_tuples,
  permission_set_to_tuples,
}
use groundwork.AclSync.Tuples.Refs.{user_ref_inj, group_ref_inj, user-ne-group_members}
use groundwork.AclSync.Tuples.Grants.{contains_raw}
use groundwork.AclSync.MockConnector.{with_groups, without_member, with_member}

-- The membership that a change is about.
abbrev pub membership : String → String → Tuple
membership group user = tuple (user_ref user) "member" (group_ref group)

contains-map_none :
    (mk : String → Tuple) (us : List String) (t : Tuple)
    → ((u : String) → (mk u == t) ≡ false)
    → contains (map mk us) t ≡ false
unfolding contains
contains-map_none mk [] t h = refl
contains-map_none mk (u ∷ us) t h = ground (arith, h u, contains-map_none mk us t h)

module _ (group user : String) where
  abbrev member_of_group : String → Tuple
  member_of_group u = membership group u

  distinct :
      (v : String) (t : Tuple)
      → (v == user) ≡ false
      → (member_of_group v == t) ≡ true
      → (membership group user == t) ≡ false
  distinct v t other here = elim (Bool-cases (membership group user == t)) [
    | inr no_match ↦ no_match
    | inl match ↦
        let same =
          (tuple_beq_iff (member_of_group v) t).0 here
          ∙ sym ((tuple_beq_iff (membership group user) t).0 match) in
        cc (other, (string_eq.equals_iff v user).1 (user_ref_inj v user (ap (λ x. x.user) same)))
  ]

  contains-remove_member :
      (us : List String) (t : Tuple)
      → contains (map member_of_group (remove user us)) t
        ≡ (contains (map member_of_group us) t && not (membership group user == t))
  unfolding contains remove
  contains-remove_member [] t = refl
  contains-remove_member (v ∷ us) t = elim (Bool-cases (v == user)) [
    | inl same ↦ ground (
      arith,
      contains-remove_member us t,
      ap (λ x. member_of_group x == t) ((string_eq.equals_iff v user).0 same),
    )
    | inr other ↦ ground (arith, contains-remove_member us t, distinct v t other)
  ]

  -- What cannot be the membership is kept by its removal.
  kept_elsewhere :
      (xs : List Tuple) (t : Tuple)
      → contains xs (membership group user) ≡ false
      → contains xs t ≡ (contains xs t && not (membership group user == t))
  kept_elsewhere xs t absent = elim (Bool-cases (membership group user == t)) [
    | inr other ↦ ground arith
    | inl same ↦
        let here = ap (contains xs) ((tuple_beq_iff (membership group user) t).0 same) in
        ground (arith, here)
  ]

  no_subgroup :
      (id : String) (hs : List String)
      → contains
          (map (λ h. tuple (group_members_ref h) "member" (group_ref id)) hs)
          (membership group user)
        ≡ false
  no_subgroup id hs =
      contains-map_none (λ h. tuple (group_members_ref h) "member" (group_ref id)) hs
        (membership group user)
        (λ h. elim (Bool-cases (group_members_ref h == user_ref user)) [
          | inl same ↦ absurd (
              user-ne-group_members user h
                (sym ((string_eq.equals_iff (group_members_ref h) (user_ref user)).0 same)))
          | inr other ↦ ground arith
        ])

  no_viewer :
      (us gs : List String) (object : String)
      → contains (viewer_tuples us gs object) (membership group user) ≡ false
  unfolding viewer_tuples
  no_viewer us gs object = ground (
    arith,
    contains-append (map (λ u. tuple (user_ref u) "viewer" object) us)
        (map (λ g. tuple (group_members_ref g) "viewer" object) gs) (membership group user),
    contains-map_none (λ u. tuple (user_ref u) "viewer" object) us (membership group user)
        (λ u. ground arith),
    contains-map_none (λ g. tuple (group_members_ref g) "viewer" object) gs (membership group user)
        (λ g. ground arith),
  )

  other_group :
      (id : String) (us : List String)
      → (id == group) ≡ false
      → contains (map (membership id) us) (membership group user) ≡ false
  other_group id us other = contains-map_none (membership id) us (membership group user) (λ u.
      elim (Bool-cases (group_ref id == group_ref group)) [
        | inl same ↦ cc (
          other,
          (string_eq.equals_iff id group).1 (
              group_ref_inj id group
                ((string_eq.equals_iff (group_ref id) (group_ref group)).0 same)),
        )
        | inr differ ↦ ground arith
      ])

  no_folder :
      (fs : List Folder) → contains (flat_map folder_tuples fs) (membership group user) ≡ false
  unfolding flat_map folder_tuples contains
  no_folder [] = refl
  no_folder (f ∷ fs) = ground (
    arith,
    contains-append (folder_tuples f) (flat_map folder_tuples fs) (membership group user),
    no_viewer f.viewer_users f.viewer_groups (folder_ref f.id),
    no_folder fs,
  )

  no_parent : (d : Document) → contains (parent_tuples d) (membership group user) ≡ false
  unfolding parent_tuples contains
  no_parent d = ground arith

  no_document :
      (ds : List Document) → contains (flat_map document_tuples ds) (membership group user) ≡ false
  unfolding flat_map document_tuples contains
  no_document [] = refl
  no_document (d ∷ ds) = ground (
    arith,
    contains-append (document_tuples d) (flat_map document_tuples ds) (membership group user),
    contains-append (parent_tuples d)
        (viewer_tuples d.viewer_users d.viewer_groups (document_ref d.id)) (membership group user),
    no_viewer d.viewer_users d.viewer_groups (document_ref d.id),
    no_parent d,
    no_document ds,
  )

  without_member-tuples :
      (g : Group) (t : Tuple)
      → contains (group_tuples (without_member group user g)) t
        ≡ (contains (group_tuples g) t && not (membership group user == t))
  unfolding without_member group_tuples
  without_member-tuples g t = elim (Bool-cases (g.id == group)) [
    | inl same ↦
        rw (same, without_member)
          (ground (
            arith,
            contains-append (map (membership g.id) (remove user g.member_users))
                (map (λ h. tuple (group_members_ref h) "member" (group_ref g.id)) g.member_groups)
                t,
            contains-append (map (membership g.id) g.member_users)
                (map (λ h. tuple (group_members_ref h) "member" (group_ref g.id)) g.member_groups)
                t,
            subst
                (λ id. contains (map (membership id) (remove user g.member_users)) t ≡ (
                  contains (map (membership id) g.member_users) t
                  && not (membership group user == t)))
                (sym ((string_eq.equals_iff g.id group).0 same))
                (contains-remove_member g.member_users t),
            kept_elsewhere
                (map (λ h. tuple (group_members_ref h) "member" (group_ref g.id)) g.member_groups) t
                (no_subgroup g.id g.member_groups),
          ))
    | inr other ↦
        rw (other, without_member)
          (kept_elsewhere (group_tuples g) t (
            ground (
              arith,
              contains-append (map (membership g.id) g.member_users)
                  (map (λ h. tuple (group_members_ref h) "member" (group_ref g.id)) g.member_groups)
                  (membership group user),
              other_group g.id g.member_users other,
              no_subgroup g.id g.member_groups,
            )))
  ]

  without_member-groups :
      (gs : List Group) (t : Tuple)
      → contains (flat_map group_tuples (map (without_member group user) gs)) t
        ≡ (contains (flat_map group_tuples gs) t && not (membership group user == t))
  unfolding flat_map contains
  without_member-groups [] t = refl
  without_member-groups (g ∷ gs) t = ground (
    arith,
    contains-append (group_tuples (without_member group user g))
        (flat_map group_tuples (map (without_member group user) gs)) t,
    contains-append (group_tuples g) (flat_map group_tuples gs) t,
    without_member-tuples g t,
    without_member-groups gs t,
  )

  -- The tuples of the source without a membership are its tuples less that one, as the event of
  -- the revocation deletes it.
  pub without_member-permission_set :
      (ps : PermissionSet) (t : Tuple)
      → contains (permission_set_to_tuples (with_groups (without_member group user) ps)) t
        ≡ (contains (permission_set_to_tuples ps) t && not (membership group user == t))
  without_member-permission_set ps t = ground (
    arith,
    contains_raw ps t,
    contains_raw (with_groups (without_member group user) ps) t,
    without_member-groups ps.groups t,
    kept_elsewhere (flat_map folder_tuples ps.folders) t (no_folder ps.folders),
    kept_elsewhere (flat_map document_tuples ps.documents) t (no_document ps.documents),
  )

  with_member-tuples :
      (g : Group) (t : Tuple)
      → contains (group_tuples (with_member group user g)) t
        ≡ (contains (group_tuples g) t || (g.id == group && membership group user == t))
  unfolding with_member group_tuples contains
  with_member-tuples g t = elim (Bool-cases (g.id == group)) [
    | inl same ↦
        rw (same, with_member)
          (ground (
            arith,
            contains-append (map (membership g.id) (g.member_users ++ user ∷ []))
                (map (λ h. tuple (group_members_ref h) "member" (group_ref g.id)) g.member_groups)
                t,
            contains-append (map (membership g.id) g.member_users)
                (map (λ h. tuple (group_members_ref h) "member" (group_ref g.id)) g.member_groups)
                t,
            ap (λ ts. contains ts t) (map-append (membership g.id) g.member_users (user ∷ [])),
            contains-append (map (membership g.id) g.member_users) (membership g.id user ∷ []) t,
            ap (λ id. membership id user == t) ((string_eq.equals_iff g.id group).0 same),
          ))
    | inr other ↦ rw (other, with_member) (ground arith)
  ]

  with_member-groups :
      (gs : List Group) (t : Tuple)
      → contains (flat_map group_tuples (map (with_member group user) gs)) t ≡ (
          contains (flat_map group_tuples gs) t
          || (contains (map (λ g. g.id) gs) group && membership group user == t))
  unfolding flat_map contains
  with_member-groups [] t = refl
  with_member-groups (g ∷ gs) t = ground (
    arith,
    contains-append (group_tuples (with_member group user g))
        (flat_map group_tuples (map (with_member group user) gs)) t,
    contains-append (group_tuples g) (flat_map group_tuples gs) t,
    with_member-tuples g t,
    with_member-groups gs t,
  )

  -- The tuples of the source with a membership more are its tuples and, if the group exists, that
  -- one.
  pub with_member-permission_set :
      (ps : PermissionSet) (t : Tuple)
      → contains (permission_set_to_tuples (with_groups (with_member group user) ps)) t ≡ (
          contains (permission_set_to_tuples ps) t
          || (contains (map (λ g. g.id) ps.groups) group && membership group user == t))
  with_member-permission_set ps t = ground (
    arith,
    contains_raw ps t,
    contains_raw (with_groups (with_member group user) ps) t,
    with_member-groups ps.groups t,
  )
