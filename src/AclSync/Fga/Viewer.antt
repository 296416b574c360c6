-- ===== src/AclSync/Fga/Viewer.antt =====
-- The loops of `viewerFolder` and `viewerDocument` of aclsync/fga.go, as statements about the set.
use groundwork.Base.{
  String, ◌≡◌, inl, inr, ◌↔◌, Bool, true, false, ◌&&◌, ◌||◌, List, [], ◌∷◌, arith, ◌==◌, string_eq,
  contains, contains_head, contains_tail, Bool-cases, ==_refl, has_suffix, has_prefix, refl,
}
use groundwork.AclSync.Tuples.{Tuple, tuple_eq, tuple, tuple_beq_iff}
use groundwork.AclSync.Fga.{
  subject_group, is_member, scan_groups, scan_parents, viewer_folder, viewer_document,
}
use groundwork.AclSync.Fga.Member.{Member, is_member_iff}

-- Some tuple of the list passes the test.
any_tuple : (Tuple → Bool) → List Tuple → Bool
any_tuple p [] = false
any_tuple p (t ∷ ts) = p t || any_tuple p ts

any_tuple_sound :
    (p : Tuple → Bool) (ts : List Tuple)
    → any_tuple p ts ≡ true
    → (t : Tuple) × (contains ts t ≡ true) × (p t ≡ true)
unfolding any_tuple
any_tuple_sound p [] h = absurd (cc h)
any_tuple_sound p (s ∷ ts) h = elim (Bool-cases (p s)) [
  | inl here ↦ (s, contains_head s ts, here)
  | inr there ↦
      let (t, m, e) = any_tuple_sound p ts (rw there at h) in (t, contains_tail s t ts m, e)
]

any_tuple_complete :
    (p : Tuple → Bool) (ts : List Tuple) (t : Tuple)
    → contains ts t ≡ true
    → p t ≡ true
    → any_tuple p ts ≡ true
unfolding any_tuple contains
any_tuple_complete p [] t m e = absurd (cc m)
any_tuple_complete p (s ∷ ts) t m e = elim (Bool-cases (s == t)) [
  | inl here ↦ rw ((tuple_beq_iff s t).0 here, e)
  | inr there ↦ ground (arith, any_tuple_complete p ts t)
]

all_four :
    (a b c d : Bool) → (a && b && c && d) ≡ true → (a ≡ true) × (b ≡ true) × (c ≡ true) × (d ≡ true)
all_four a b c d h = ground arith

or_right : (a b : Bool) → b ≡ true → (a || b) ≡ true
or_right a b h = ground arith

module _ (set : List Tuple) (user : String) where
  -- The tests of the two loops.
  abbrev pub groups_test : String → Tuple → Bool
  groups_test object t =
      t.relation == "viewer"
      && t.object == object
      && has_suffix t.user "#member"
      && is_member set user (subject_group t.user)

  abbrev pub parents_test : String → Tuple → Bool
  parents_test document t =
      t.relation == "parent"
      && t.object == document
      && has_prefix t.user "folder:"
      && viewer_folder set user t.user

  scan_groups-any :
      (o : String) (ts : List Tuple) → scan_groups set user o ts ≡ any_tuple (groups_test o) ts
  unfolding scan_groups any_tuple
  scan_groups-any o [] = refl
  scan_groups-any o (t ∷ ts) = rw (scan_groups-any o ts)

  scan_parents-any :
      (o : String) (ts : List Tuple) → scan_parents set user o ts ≡ any_tuple (parents_test o) ts
  unfolding scan_parents any_tuple
  scan_parents-any o [] = refl
  scan_parents-any o (t ∷ ts) = rw (scan_parents-any o ts)

  -- A viewer: named directly, or a member of a group that is named.
  pub data Views (o : String) : Type 0 where
    user_grant : contains set (tuple user "viewer" o) ≡ true → Views o
    group_grant :
        (t : Tuple)
        → contains set t ≡ true
        → t.relation ≡ "viewer"
        → t.object ≡ o
        → has_suffix t.user "#member" ≡ true
        → Member set user (subject_group t.user)
        → Views o

  Views-sound :
      (o : String)
      → (contains set (tuple user "viewer" o) || scan_groups set user o set) ≡ true
      → Views o
  Views-sound o h = elim (Bool-cases (contains set (tuple user "viewer" o))) [
    | inl named ↦ user_grant named
    | inr unnamed ↦
        let (t, m, test) =
          any_tuple_sound (groups_test o) set (rw (unnamed, scan_groups-any) at h) in
        let (r, ob, s, p) = all_four (t.relation == "viewer") (t.object == o) _ _ test in
        group_grant t m ((string_eq.equals_iff t.relation "viewer").0 r)
          ((string_eq.equals_iff t.object o).0 ob) s ((is_member_iff set user _).0 p)
  ]

  Views-complete :
      (o : String)
      → Views o
      → (contains set (tuple user "viewer" o) || scan_groups set user o set) ≡ true
  Views-complete o (user_grant m) = rw m
  Views-complete o (group_grant t m r ob s p) =
      or_right (contains set (tuple user "viewer" o)) (scan_groups set user o set) (
        rw scan_groups-any (
          any_tuple_complete (groups_test o) set t m
            (rw (r, ob, s, (is_member_iff set user (subject_group t.user)).1 p, ==_refl o))))

  pub viewer_folder_iff : (f : String) → (viewer_folder set user f ≡ true) ↔ Views f
  unfolding viewer_folder
  viewer_folder_iff f = (Views-sound f, Views-complete f)

  -- A viewer of the document itself, or of a folder that is its parent.
  pub data ViewsDocument (d : String) : Type 0 where
    own : Views d → ViewsDocument d
    inherited :
        (t : Tuple)
        → contains set t ≡ true
        → t.relation ≡ "parent"
        → t.object ≡ d
        → has_prefix t.user "folder:" ≡ true
        → Views t.user
        → ViewsDocument d

  ViewsDocument-sound : (d : String) → viewer_document set user d ≡ true → ViewsDocument d
  unfolding viewer_document
  ViewsDocument-sound d h =
      elim (Bool-cases (contains set (tuple user "viewer" d) || scan_groups set user d set)) [
        | inl direct ↦ own (Views-sound d direct)
        | inr no_direct ↦
            let (t, m, test) =
              any_tuple_sound (parents_test d) set (rw (no_direct, scan_parents-any) at h) in
            let (r, ob, s, p) = all_four (t.relation == "parent") (t.object == d) _ _ test in
            inherited t m ((string_eq.equals_iff t.relation "parent").0 r)
              ((string_eq.equals_iff t.object d).0 ob) s ((viewer_folder_iff t.user).0 p)
      ]

  ViewsDocument-complete : (d : String) → ViewsDocument d → viewer_document set user d ≡ true
  unfolding viewer_document
  ViewsDocument-complete d (own v) = rw (Views-complete d v)
  ViewsDocument-complete d (inherited t m r ob s v) =
      or_right (contains set (tuple user "viewer" d) || scan_groups set user d set)
        (scan_parents set user d set)
        (rw scan_parents-any (
          any_tuple_complete (parents_test d) set t m
            (rw (r, ob, s, (viewer_folder_iff t.user).1 v, ==_refl d))))

  pub viewer_document_iff : (d : String) → (viewer_document set user d ≡ true) ↔ ViewsDocument d
  viewer_document_iff d = (ViewsDocument-sound d, ViewsDocument-complete d)
