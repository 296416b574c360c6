-- ===== src/AclSync/Tuples/Grants.antt =====
-- What `PermissionSetToTuples` emits: the seven kinds of grant, and nothing else.
use mathlib.Core.List.{flat_map, Memᴰ}
use mathlib.Core.List.Memᴰ
use groundwork.Base.{
  String, ◌≡◌, refl, sym, ◌⊎◌, inl, inr, ◌↔◌, Bool, true, false, ◌||◌, List, [], ◌∷◌, ◌++◌, map,
  arith, ◌==◌, string_eq, contains, contains-append, contains-cons, contains_tail, contains_head,
  contains-map, Bool-cases,
}
use groundwork.AclSync.Model.{Group, Folder, Document, PermissionSet}
use groundwork.AclSync.Tuples.{
  Tuple, tuple, tuple_eq, user_ref, group_ref, group_members_ref, folder_ref, document_ref,
  group_tuples, parent_tuples, viewer_tuples, folder_tuples, document_tuples, dedupe_from,
  dedupe_tuples, permission_set_to_tuples,
}

pub data Grant (ps : PermissionSet) (t : Tuple) : Type 0 where
  user_member :
      (g : Group) (u : String)
      → Memᴰ g ps.groups
      → contains g.member_users u ≡ true
      → t ≡ tuple (user_ref u) "member" (group_ref g.id)
      → Grant ps t
  group_member :
      (g : Group) (h : String)
      → Memᴰ g ps.groups
      → contains g.member_groups h ≡ true
      → t ≡ tuple (group_members_ref h) "member" (group_ref g.id)
      → Grant ps t
  folder_user :
      (f : Folder) (u : String)
      → Memᴰ f ps.folders
      → contains f.viewer_users u ≡ true
      → t ≡ tuple (user_ref u) "viewer" (folder_ref f.id)
      → Grant ps t
  folder_group :
      (f : Folder) (g : String)
      → Memᴰ f ps.folders
      → contains f.viewer_groups g ≡ true
      → t ≡ tuple (group_members_ref g) "viewer" (folder_ref f.id)
      → Grant ps t
  parent :
      (d : Document)
      → Memᴰ d ps.documents
      → (d.folder_id == "") ≡ false
      → t ≡ tuple (folder_ref d.folder_id) "parent" (document_ref d.id)
      → Grant ps t
  document_user :
      (d : Document) (u : String)
      → Memᴰ d ps.documents
      → contains d.viewer_users u ≡ true
      → t ≡ tuple (user_ref u) "viewer" (document_ref d.id)
      → Grant ps t
  document_group :
      (d : Document) (g : String)
      → Memᴰ d ps.documents
      → contains d.viewer_groups g ≡ true
      → t ≡ tuple (group_members_ref g) "viewer" (document_ref d.id)
      → Grant ps t

module _ {A : Type 0} (f : A → List Tuple) (t : Tuple) where
  in_flat_map :
      (x : A) (xs : List A)
      → Memᴰ x xs
      → contains (f x) t ≡ true
      → contains (flat_map f xs) t ≡ true
  unfolding flat_map
  in_flat_map x [] m h = absurd (Memᴰ.not-nil m)
  in_flat_map x (y ∷ ys) (Memᴰ.head e) h = rw (contains-append, ← e, h)
  in_flat_map x (y ∷ ys) (Memᴰ.tail m) h =
      ground (arith, contains-append (f y) (flat_map f ys) t, in_flat_map x ys m h)

  of_flat_map :
      (xs : List A)
      → contains (flat_map f xs) t ≡ true
      → (x : A) × Memᴰ x xs × (contains (f x) t ≡ true)
  unfolding flat_map
  of_flat_map [] h = absurd (unfold contains in cc h)
  of_flat_map (y ∷ ys) h = elim (Bool-cases (contains (f y) t)) [
    | inl here ↦ (y, Memᴰ.head refl, here)
    | inr there ↦
        let (x, m, at) = of_flat_map ys (ground (arith, contains-append (f y) (flat_map f ys) t)) in
        (x, Memᴰ.tail m, at)
  ]

of_map :
    (mk : String → Tuple) (t : Tuple) (us : List String)
    → contains (map mk us) t ≡ true
    → (u : String) × (contains us u ≡ true) × (t ≡ mk u)
unfolding contains
of_map mk t [] h = absurd (cc h)
of_map mk t (v ∷ us) h = elim (Bool-cases (mk v == t)) [
  | inl here ↦ (v, contains_head v us, sym ((tuple_eq.equals_iff (mk v) t).0 here))
  | inr there ↦ let (u, m, e) = of_map mk t us (ground arith) in (u, contains_tail v u us m, e)
]

contains-dedupe_from :
    (seen ts : List Tuple) (t : Tuple)
    → (contains seen t || contains (dedupe_from seen ts) t) ≡ (contains seen t || contains ts t)
unfolding dedupe_from
contains-dedupe_from seen [] t = refl
contains-dedupe_from seen (s ∷ ts) t = elim (Bool-cases (contains seen s)) [
  | inl old ↦
      rw (old, dedupe_from)
        (ground
          (arith, contains-dedupe_from seen ts t, contains-cons s t ts, tuple_eq.equals_iff s t))
  | inr new ↦
      rw (new, dedupe_from)
        (ground (
          arith,
          contains-dedupe_from (s ∷ seen) ts t,
          contains-cons s t ts,
          contains-cons s t seen,
          contains-cons s t (dedupe_from (s ∷ seen) ts),
        ))
]

-- Removing duplicates keeps the set of tuples.
pub contains-dedupe_tuples :
    (ts : List Tuple) (t : Tuple) → contains (dedupe_tuples ts) t ≡ contains ts t
unfolding dedupe_tuples contains
contains-dedupe_tuples ts t = contains-dedupe_from [] ts t

abbrev raw_tuples : PermissionSet → List Tuple
raw_tuples ps =
    flat_map group_tuples ps.groups
    ++ (flat_map folder_tuples ps.folders ++ flat_map document_tuples ps.documents)

pub contains_raw :
    (ps : PermissionSet) (t : Tuple)
    → contains (permission_set_to_tuples ps) t ≡ (
        contains (flat_map group_tuples ps.groups) t
        || (contains (flat_map folder_tuples ps.folders) t
            || contains (flat_map document_tuples ps.documents) t))
unfolding permission_set_to_tuples
contains_raw ps t = rw (contains-dedupe_tuples, contains-append, contains-append)

split_append :
    (xs ys : List Tuple) (t : Tuple)
    → contains (xs ++ ys) t ≡ true
    → (contains xs t ≡ true) ⊎ (contains ys t ≡ true)
split_append xs ys t h = ground (arith, contains-append xs ys t)

in_left : (xs ys : List Tuple) (t : Tuple) → contains xs t ≡ true → contains (xs ++ ys) t ≡ true
in_left xs ys t h = ground (arith, contains-append xs ys t)

in_right : (xs ys : List Tuple) (t : Tuple) → contains ys t ≡ true → contains (xs ++ ys) t ≡ true
in_right xs ys t h = ground (arith, contains-append xs ys t)

of_singleton : (x t : Tuple) → contains (x ∷ []) t ≡ true → t ≡ x
unfolding contains
of_singleton x t h = sym ((tuple_eq.equals_iff x t).0 (ground arith))

-- What `viewer_tuples` emits for an object.
of_viewer_tuples :
    (users groups : List String) (o : String) (t : Tuple)
    → contains (viewer_tuples users groups o) t ≡ true
    → ((u : String) × (contains users u ≡ true) × (t ≡ tuple (user_ref u) "viewer" o))
      ⊎ ((g : String) × (contains groups g ≡ true) × (t ≡ tuple (group_members_ref g) "viewer" o))
unfolding viewer_tuples
of_viewer_tuples users groups o t h = elim (split_append _ _ t h) [
  | inl a ↦ inl (of_map (λ u. tuple (user_ref u) "viewer" o) t users a)
  | inr b ↦ inr (of_map (λ g. tuple (group_members_ref g) "viewer" o) t groups b)
]

module _ (ps : PermissionSet) (t : Tuple) where
  of_group_tuples : (g : Group) → Memᴰ g ps.groups → contains (group_tuples g) t ≡ true → Grant ps t
  unfolding group_tuples
  of_group_tuples g m h = elim (split_append _ _ t h) [
    | inl a ↦
        let (u, i, e) =
          of_map (λ u. tuple (user_ref u) "member" (group_ref g.id)) t g.member_users a in
        user_member g u m i e
    | inr b ↦
        let (s, i, e) =
          of_map (λ s. tuple (group_members_ref s) "member" (group_ref g.id)) t g.member_groups b in
        group_member g s m i e
  ]

  of_folder_tuples :
      (f : Folder) → Memᴰ f ps.folders → contains (folder_tuples f) t ≡ true → Grant ps t
  unfolding folder_tuples
  of_folder_tuples f m h =
      elim (of_viewer_tuples f.viewer_users f.viewer_groups (folder_ref f.id) t h) [
        | inl (u, i, e) ↦ folder_user f u m i e
        | inr (g, i, e) ↦ folder_group f g m i e
      ]

  of_parent :
      (d : Document) → Memᴰ d ps.documents → contains (parent_tuples d) t ≡ true → Grant ps t
  unfolding parent_tuples
  of_parent d m h = elim (Bool-cases (d.folder_id == "")) [
    | inl empty ↦ absurd (unfold contains in cc (rw empty at h))
    | inr some_folder ↦ parent d m some_folder (of_singleton _ t (rw some_folder at h))
  ]

  of_document_tuples :
      (d : Document) → Memᴰ d ps.documents → contains (document_tuples d) t ≡ true → Grant ps t
  unfolding document_tuples
  of_document_tuples d m h = elim (split_append _ _ t h) [
    | inl a ↦ of_parent d m a
    | inr b ↦ elim (of_viewer_tuples d.viewer_users d.viewer_groups (document_ref d.id) t b) [
      | inl (u, i, e) ↦ document_user d u m i e
      | inr (g, i, e) ↦ document_group d g m i e
    ]
  ]

  Grant-of_contains : contains (permission_set_to_tuples ps) t ≡ true → Grant ps t
  Grant-of_contains h = elim (split (contains_raw ps t) h) [
    | inl a ↦ let (g, m, i) = of_flat_map group_tuples t ps.groups a in of_group_tuples g m i
    | inr (inl b) ↦
        let (f, m, i) = of_flat_map folder_tuples t ps.folders b in of_folder_tuples f m i
    | inr (inr c) ↦
        let (d, m, i) = of_flat_map document_tuples t ps.documents c in of_document_tuples d m i
  ]
    where
      split :
          {a b c d : Bool} → a ≡ (b || (c || d)) → a ≡ true → (b ≡ true) ⊎ ((c ≡ true) ⊎ (d ≡ true))
      split e h = ground arith

  from_groups :
      contains (flat_map group_tuples ps.groups) t ≡ true
      → contains (permission_set_to_tuples ps) t ≡ true
  from_groups h = ground (arith, contains_raw ps t)

  from_folders :
      contains (flat_map folder_tuples ps.folders) t ≡ true
      → contains (permission_set_to_tuples ps) t ≡ true
  from_folders h = ground (arith, contains_raw ps t)

  from_documents :
      contains (flat_map document_tuples ps.documents) t ≡ true
      → contains (permission_set_to_tuples ps) t ≡ true
  from_documents h = ground (arith, contains_raw ps t)

  emitted :
      (mk : String → Tuple) (u : String) (us : List String)
      → contains us u ≡ true
      → t ≡ mk u
      → contains (map mk us) t ≡ true
  emitted mk u us m e = rw e (contains-map mk us u m)

  contains_of_Grant : Grant ps t → contains (permission_set_to_tuples ps) t ≡ true
  unfolding group_tuples folder_tuples document_tuples
  contains_of_Grant (user_member g u m i e) =
      from_groups
        (in_flat_map group_tuples t g ps.groups m (in_left _ _ t (emitted _ u g.member_users i e)))
  contains_of_Grant (group_member g h m i e) =
      from_groups (
        in_flat_map group_tuples t g ps.groups m (in_right _ _ t (emitted _ h g.member_groups i e)))
  contains_of_Grant (folder_user f u m i e) =
      from_folders (
        in_flat_map folder_tuples t f ps.folders m (in_left _ _ t (emitted _ u f.viewer_users i e)))
  contains_of_Grant (folder_group f g m i e) = from_folders (
      in_flat_map folder_tuples t f ps.folders m (in_right _ _ t (emitted _ g f.viewer_groups i e)))
  contains_of_Grant (parent d m n e) = from_documents (
      in_flat_map document_tuples t d ps.documents m
        (in_left (parent_tuples d) _ t (rw (n, e) (contains_head _ []))))
  contains_of_Grant (document_user d u m i e) = from_documents (
      in_flat_map document_tuples t d ps.documents m
        (in_right _ _ t (in_left _ _ t (emitted _ u d.viewer_users i e))))
  contains_of_Grant (document_group d g m i e) = from_documents (
      in_flat_map document_tuples t d ps.documents m
        (in_right _ _ t (in_right _ _ t (emitted _ g d.viewer_groups i e))))

-- The emitted tuples are exactly the grants of the snapshot.
pub permission_set_to_tuples_iff :
    (ps : PermissionSet) (t : Tuple)
    → (contains (permission_set_to_tuples ps) t ≡ true) ↔ Grant ps t
permission_set_to_tuples_iff ps t = (Grant-of_contains ps t, contains_of_Grant ps t)
