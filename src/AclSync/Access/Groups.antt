-- ===== src/AclSync/Access/Groups.antt =====
-- Nested groups: membership among the set tuples is membership in the snapshot.
use mathlib.Core.List.{Memᴰ}
use groundwork.Base.{
  String, ◌≡◌, refl, sym, ap, subst, ◌∙◌, ◌↔◌, true, List, arith, string_eq, ==_refl, contains,
  has_prefix,
}
use text.Mathlib.TextEquality.{eq_iff}
use groundwork.AclSync.Model.{Group, PermissionSet}
use groundwork.AclSync.Tuples.{
  Tuple, tuple_eq, tuple, user_ref, group_ref, group_members_ref, permission_set_to_tuples,
}
use groundwork.AclSync.Tuples.Refs.{
  user_ref_inj, group_ref_inj, user-ne-group_members, group_members-prefix, group_members-suffix,
  subject_group_lem, user_ref-prefix,
}
use groundwork.AclSync.Tuples.Grants.{Grant, permission_set_to_tuples_iff}
use groundwork.AclSync.Fga.{subject_group, is_nested}
use groundwork.AclSync.Fga.Member.{Member, direct, nested}
use groundwork.AclSync.Access.{InGroup, listed, through}

pub member_ne_viewer : {A : Type 0} → ◌≡◌ {A = String} "member" "viewer" → A
member_ne_viewer e = absurd (cc ((eq_iff "member" "viewer").1 e))

pub member_ne_parent : {A : Type 0} → ◌≡◌ {A = String} "member" "parent" → A
member_ne_parent e = absurd (cc ((eq_iff "member" "parent").1 e))

pub viewer_ne_parent : {A : Type 0} → ◌≡◌ {A = String} "viewer" "parent" → A
viewer_ne_parent e = absurd (cc ((eq_iff "viewer" "parent").1 e))

-- A tuple equal to another has its fields.
pub user_of : {s t : Tuple} → s ≡ t → s.user ≡ t.user
user_of e = ap (λ (t : Tuple). t.user) e

pub relation_of : {s t : Tuple} → s ≡ t → s.relation ≡ t.relation
relation_of e = ap (λ (t : Tuple). t.relation) e

pub object_of : {s t : Tuple} → s ≡ t → s.object ≡ t.object
object_of e = ap (λ (t : Tuple). t.object) e

nested_parts :
    (x : String) (t : Tuple)
    → is_nested x t ≡ true
    → (t.relation ≡ "member") × (t.object ≡ x) × (has_prefix t.user "group:" ≡ true)
unfolding is_nested
nested_parts x t n = ground (arith, eq_iff t.relation "member", eq_iff t.object x)

nested_test :
    (sub g : String)
    → is_nested (group_ref g) (tuple (group_members_ref sub) "member" (group_ref g)) ≡ true
unfolding is_nested
nested_test sub g = rw (==_refl (group_ref g), group_members-prefix sub, group_members-suffix sub)

-- `set` holds the tuples that the snapshot emits, in any order.
module _ (ps : PermissionSet) (u : String) (set : List Tuple)
    (same : (t : Tuple) → contains set t ≡ contains (permission_set_to_tuples ps) t) where
  pub in_set : (t : Tuple) → Grant ps t → contains set t ≡ true
  in_set t g = rw (same t) ((permission_set_to_tuples_iff ps t).1 g)

  pub Grant-of : (t : Tuple) → contains set t ≡ true → Grant ps t
  Grant-of t m = (permission_set_to_tuples_iff ps t).0 (rw (same t) at m)

  direct_of_Grant :
      (g : String) → Grant ps (tuple (user_ref u) "member" (group_ref g)) → InGroup ps u g
  direct_of_Grant g (Grant.user_member gr v m i e) =
      listed gr m (sym (group_ref_inj g gr.id (object_of e))) (rw (user_ref_inj u v (user_of e)) i)
  direct_of_Grant g (Grant.group_member gr h m i e) = absurd (user-ne-group_members u h (user_of e))
  direct_of_Grant g (Grant.folder_user f v m i e) = member_ne_viewer (relation_of e)
  direct_of_Grant g (Grant.folder_group f h m i e) = member_ne_viewer (relation_of e)
  direct_of_Grant g (Grant.parent d m n e) = member_ne_parent (relation_of e)
  direct_of_Grant g (Grant.document_user d v m i e) = member_ne_viewer (relation_of e)
  direct_of_Grant g (Grant.document_group d h m i e) = member_ne_viewer (relation_of e)

  -- A group that a nested tuple names, with the entry of the snapshot that emits it.
  record NestedIn (g : String) (t : Tuple) : Type 0 where
    group : Group
    sub : String
    entry : Memᴰ group ps.groups
    named : group.id ≡ g
    is_sub : contains group.member_groups sub ≡ true
    subject : subject_group t.user ≡ group_ref sub

  nested_of_Grant :
      (g : String) (t : Tuple) → is_nested (group_ref g) t ≡ true → Grant ps t → NestedIn g t
  nested_of_Grant g t n (Grant.user_member gr v m i e) =
      absurd (cc (user_of e, (nested_parts (group_ref g) t n).2, user_ref-prefix v))
  nested_of_Grant g t n (Grant.group_member gr h m i e) = record {
    group = gr;
    sub = h;
    entry = m;
    named = group_ref_inj gr.id g (sym (object_of e) ∙ (nested_parts (group_ref g) t n).1);
    is_sub = i;
    subject = ap subject_group (user_of e) ∙ subject_group_lem h;
  }
  nested_of_Grant g t n (Grant.folder_user f v m i e) =
      member_ne_viewer (sym (nested_parts (group_ref g) t n).0 ∙ relation_of e)
  nested_of_Grant g t n (Grant.folder_group f h m i e) =
      member_ne_viewer (sym (nested_parts (group_ref g) t n).0 ∙ relation_of e)
  nested_of_Grant g t n (Grant.parent d m x e) =
      member_ne_parent (sym (nested_parts (group_ref g) t n).0 ∙ relation_of e)
  nested_of_Grant g t n (Grant.document_user d v m i e) =
      member_ne_viewer (sym (nested_parts (group_ref g) t n).0 ∙ relation_of e)
  nested_of_Grant g t n (Grant.document_group d h m i e) =
      member_ne_viewer (sym (nested_parts (group_ref g) t n).0 ∙ relation_of e)

  InGroup-of_Member :
      {x : String} → Member set (user_ref u) x → (g : String) → x ≡ group_ref g → InGroup ps u g
  InGroup-of_Member (direct {g = x} m) g e = direct_of_Grant g (
      Grant-of (tuple (user_ref u) "member" (group_ref g))
        (subst (λ y. contains set (tuple (user_ref u) "member" y) ≡ true) e m))
  InGroup-of_Member (nested {g = x} t m n deeper) g e =
      let entry = nested_of_Grant g t (subst (λ y. is_nested y t ≡ true) e n) (Grant-of t m) in
      through entry.group entry.sub entry.entry entry.named entry.is_sub
        (InGroup-of_Member deeper entry.sub entry.subject)

  Member-of_InGroup : {g : String} → InGroup ps u g → Member set (user_ref u) (group_ref g)
  Member-of_InGroup (listed {id = g} gr m e i) =
      direct (in_set _ (Grant.user_member gr u m i (rw (← e))))
  Member-of_InGroup (through {id = g} gr sub m e i deeper) =
      let t = tuple (group_members_ref sub) "member" (group_ref g) in
      nested t (in_set t (Grant.group_member gr sub m i (rw (← e)))) (nested_test sub g)
        (subst (Member set (user_ref u)) (sym (subject_group_lem sub)) (Member-of_InGroup deeper))

  -- Membership of the tuple set is membership in the snapshot.
  pub Member-iff : (g : String) → Member set (user_ref u) (group_ref g) ↔ InGroup ps u g
  Member-iff g = (λ p. InGroup-of_Member p g refl, Member-of_InGroup)
