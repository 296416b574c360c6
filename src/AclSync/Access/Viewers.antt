-- ===== src/AclSync/Access/Viewers.antt =====
-- Viewers of folders and documents: `MemoryFGA.Check` on the emitted tuples decides `CanView`.
use groundwork.Base.{
  String, ◌≡◌, refl, sym, ap, subst, ◌∙◌, ◌↔◌, true, List, string_eq, contains, has_suffix,
}
use groundwork.AclSync.Model.{PermissionSet}
use groundwork.AclSync.Tuples.{
  Tuple, tuple_eq, tuple, user_ref, group_members_ref, folder_ref, document_ref,
  permission_set_to_tuples,
}
use groundwork.AclSync.Tuples.Refs.{
  user_ref_inj, folder_ref_inj, document_ref_inj, user-ne-group_members, folder-ne-document,
  group_members-suffix, subject_group_lem, folder_ref-prefix, document_ref-prefix,
}
use groundwork.AclSync.Tuples.Grants.{Grant}
use groundwork.AclSync.Fga.{subject_group, check_set}
use groundwork.AclSync.Fga.Member.{Member}
use groundwork.AclSync.Fga.Viewer.{Views, ViewsDocument, viewer_document_iff}
use groundwork.AclSync.Access.{InGroup, CanViewFolder, CanView, NoGroupLikeViewers}
use groundwork.AclSync.Access.Groups.{
  member_ne_viewer, member_ne_parent, viewer_ne_parent, user_of, relation_of, object_of, in_set,
  Grant-of, Member-iff,
}

module _ (ps : PermissionSet) (u : String) (set : List Tuple)
    (same : (t : Tuple) → contains set t ≡ contains (permission_set_to_tuples ps) t)
    (plain : NoGroupLikeViewers ps) where
  -- A group viewer's tuple leads back to the group.
  in_group :
      (g : String) (t : Tuple)
      → t.user ≡ group_members_ref g
      → Member set (user_ref u) (subject_group t.user)
      → InGroup ps u g
  in_group g t e p =
      (Member-iff ps u set same g).0
        (subst (Member set (user_ref u)) (ap subject_group e ∙ subject_group_lem g) p)

  folder_user-Grant :
      (id : String) → Grant ps (tuple (user_ref u) "viewer" (folder_ref id)) → CanViewFolder ps u id
  folder_user-Grant id (Grant.folder_user f v m i e) =
      CanViewFolder.user_viewer f m (sym (folder_ref_inj id f.id (object_of e)))
        (rw (user_ref_inj u v (user_of e)) i)
  folder_user-Grant id (Grant.folder_group f g m i e) =
      absurd (user-ne-group_members u g (user_of e))
  folder_user-Grant id (Grant.user_member g v m i e) = member_ne_viewer (sym (relation_of e))
  folder_user-Grant id (Grant.group_member g h m i e) = member_ne_viewer (sym (relation_of e))
  folder_user-Grant id (Grant.parent d m n e) = viewer_ne_parent (relation_of e)
  folder_user-Grant id (Grant.document_user d v m i e) =
      absurd (folder-ne-document id d.id (object_of e))
  folder_user-Grant id (Grant.document_group d g m i e) =
      absurd (folder-ne-document id d.id (object_of e))

  folder_group-Grant :
      (id : String) (t : Tuple)
      → t.relation ≡ "viewer"
      → t.object ≡ folder_ref id
      → has_suffix t.user "#member" ≡ true
      → Member set (user_ref u) (subject_group t.user)
      → Grant ps t
      → CanViewFolder ps u id
  folder_group-Grant id t r ob s p (Grant.folder_group f g m i e) =
      CanViewFolder.group_viewer f g m (folder_ref_inj f.id id (sym (object_of e) ∙ ob)) i
        (in_group g t (user_of e) p)
  folder_group-Grant id t r ob s p (Grant.folder_user f v m i e) =
      absurd (cc (user_of e, plain.folders f v m i))
  folder_group-Grant id t r ob s p (Grant.user_member g v m i e) =
      member_ne_viewer (sym (relation_of e) ∙ r)
  folder_group-Grant id t r ob s p (Grant.group_member g h m i e) =
      member_ne_viewer (sym (relation_of e) ∙ r)
  folder_group-Grant id t r ob s p (Grant.parent d m n e) = viewer_ne_parent (sym r ∙ relation_of e)
  folder_group-Grant id t r ob s p (Grant.document_user d v m i e) =
      absurd (folder-ne-document id d.id (sym ob ∙ object_of e))
  folder_group-Grant id t r ob s p (Grant.document_group d g m i e) =
      absurd (folder-ne-document id d.id (sym ob ∙ object_of e))

  folder_sound : (id : String) → Views set (user_ref u) (folder_ref id) → CanViewFolder ps u id
  folder_sound id (Views.user_grant m) = folder_user-Grant id (Grant-of ps u set same _ m)
  folder_sound id (Views.group_grant t m r ob s p) =
      folder_group-Grant id t r ob s p (Grant-of ps u set same t m)

  group-Grant_of :
      (g o : String)
      → Grant ps (tuple (group_members_ref g) "viewer" o)
      → InGroup ps u g
      → Views set (user_ref u) o
  group-Grant_of g o gr p =
      Views.group_grant (tuple (group_members_ref g) "viewer" o) (in_set ps u set same _ gr) refl
        refl (group_members-suffix g)
        (subst (Member set (user_ref u)) (sym (subject_group_lem g))
          ((Member-iff ps u set same g).1 p))

  folder_complete : (id : String) → CanViewFolder ps u id → Views set (user_ref u) (folder_ref id)
  folder_complete id (CanViewFolder.user_viewer f m e i) =
      Views.user_grant (in_set ps u set same _ (Grant.folder_user f u m i (rw (← e))))
  folder_complete id (CanViewFolder.group_viewer f g m e i p) =
      group-Grant_of g (folder_ref id) (Grant.folder_group f g m i (rw (← e))) p

  document_user-Grant :
      (id : String) → Grant ps (tuple (user_ref u) "viewer" (document_ref id)) → CanView ps u id
  document_user-Grant id (Grant.document_user d v m i e) =
      CanView.user_viewer d m (sym (document_ref_inj id d.id (object_of e)))
        (rw (user_ref_inj u v (user_of e)) i)
  document_user-Grant id (Grant.document_group d g m i e) =
      absurd (user-ne-group_members u g (user_of e))
  document_user-Grant id (Grant.user_member g v m i e) = member_ne_viewer (sym (relation_of e))
  document_user-Grant id (Grant.group_member g h m i e) = member_ne_viewer (sym (relation_of e))
  document_user-Grant id (Grant.parent d m n e) = viewer_ne_parent (relation_of e)
  document_user-Grant id (Grant.folder_user f v m i e) =
      absurd (folder-ne-document f.id id (sym (object_of e)))
  document_user-Grant id (Grant.folder_group f g m i e) =
      absurd (folder-ne-document f.id id (sym (object_of e)))

  document_group-Grant :
      (id : String) (t : Tuple)
      → t.relation ≡ "viewer"
      → t.object ≡ document_ref id
      → has_suffix t.user "#member" ≡ true
      → Member set (user_ref u) (subject_group t.user)
      → Grant ps t
      → CanView ps u id
  document_group-Grant id t r ob s p (Grant.document_group d g m i e) =
      CanView.group_viewer d g m (document_ref_inj d.id id (sym (object_of e) ∙ ob)) i
        (in_group g t (user_of e) p)
  document_group-Grant id t r ob s p (Grant.document_user d v m i e) =
      absurd (cc (user_of e, plain.documents d v m i))
  document_group-Grant id t r ob s p (Grant.user_member g v m i e) =
      member_ne_viewer (sym (relation_of e) ∙ r)
  document_group-Grant id t r ob s p (Grant.group_member g h m i e) =
      member_ne_viewer (sym (relation_of e) ∙ r)
  document_group-Grant id t r ob s p (Grant.parent d m n e) =
      viewer_ne_parent (sym r ∙ relation_of e)
  document_group-Grant id t r ob s p (Grant.folder_user f v m i e) =
      absurd (folder-ne-document f.id id (sym (object_of e) ∙ ob))
  document_group-Grant id t r ob s p (Grant.folder_group f g m i e) =
      absurd (folder-ne-document f.id id (sym (object_of e) ∙ ob))

  parent-Grant :
      (id : String) (t : Tuple)
      → t.relation ≡ "parent"
      → t.object ≡ document_ref id
      → Views set (user_ref u) t.user
      → Grant ps t
      → CanView ps u id
  parent-Grant id t r ob v (Grant.parent d m n e) =
      CanView.inherited d m (document_ref_inj d.id id (sym (object_of e) ∙ ob)) n
        (folder_sound d.folder_id (subst (Views set (user_ref u)) (user_of e) v))
  parent-Grant id t r ob p (Grant.user_member g v m i e) =
      member_ne_parent (sym (relation_of e) ∙ r)
  parent-Grant id t r ob p (Grant.group_member g h m i e) =
      member_ne_parent (sym (relation_of e) ∙ r)
  parent-Grant id t r ob p (Grant.folder_user f v m i e) =
      viewer_ne_parent (sym (relation_of e) ∙ r)
  parent-Grant id t r ob p (Grant.folder_group f g m i e) =
      viewer_ne_parent (sym (relation_of e) ∙ r)
  parent-Grant id t r ob p (Grant.document_user d v m i e) =
      viewer_ne_parent (sym (relation_of e) ∙ r)
  parent-Grant id t r ob p (Grant.document_group d g m i e) =
      viewer_ne_parent (sym (relation_of e) ∙ r)

  document_sound :
      (id : String) → ViewsDocument set (user_ref u) (document_ref id) → CanView ps u id
  document_sound id (ViewsDocument.own (Views.user_grant m)) =
      document_user-Grant id (Grant-of ps u set same _ m)
  document_sound id (ViewsDocument.own (Views.group_grant t m r ob s p)) =
      document_group-Grant id t r ob s p (Grant-of ps u set same t m)
  document_sound id (ViewsDocument.inherited t m r ob s v) =
      parent-Grant id t r ob v (Grant-of ps u set same t m)

  document_complete :
      (id : String) → CanView ps u id → ViewsDocument set (user_ref u) (document_ref id)
  document_complete id (CanView.user_viewer d m e i) =
      ViewsDocument.own
        (Views.user_grant (in_set ps u set same _ (Grant.document_user d u m i (rw (← e)))))
  document_complete id (CanView.group_viewer d g m e i p) =
      ViewsDocument.own
        (group-Grant_of g (document_ref id) (Grant.document_group d g m i (rw (← e))) p)
  document_complete id (CanView.inherited d m e n v) =
      ViewsDocument.inherited (tuple (folder_ref d.folder_id) "parent" (document_ref id))
        (in_set ps u set same _ (Grant.parent d m n (rw (← e)))) refl refl
        (folder_ref-prefix d.folder_id) (folder_complete d.folder_id v)

-- Let the tenant's tuple set hold exactly the tuples of a snapshot, in any order, and let no user
-- viewer's reference in it end in "#member". Then `Check` for a user, the relation "viewer" and a
-- document answers true exactly if the snapshot lets that user view the document: by name, through
-- a group or a group nested to any depth (cycles included), or through the document's folder.
pub check_set-iff-CanView :
    (ps : PermissionSet) (set : List Tuple) (u id : String)
    → ((t : Tuple) → contains set t ≡ contains (permission_set_to_tuples ps) t)
    → NoGroupLikeViewers ps
    → (check_set set (user_ref u) "viewer" (document_ref id) ≡ true) ↔ CanView ps u id
unfolding check_set
check_set-iff-CanView ps set u id same plain = rw (document_ref-prefix id) (
  λ h. document_sound ps u set same plain id ((viewer_document_iff set (user_ref u) _).0 h),
  λ c. (viewer_document_iff set (user_ref u) _).1 (document_complete ps u set same plain id c),
)
