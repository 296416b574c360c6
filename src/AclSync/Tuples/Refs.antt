-- ===== src/AclSync/Tuples/Refs.antt =====
-- The OpenFGA identifiers of aclsync/tuples.go: each is injective, and no two kinds coincide.
use groundwork.Base.{
  String, ◌<>◌, ◌≡◌, ◌≢◌, refl, ◌∙◌, arith, true, false, has_prefix, has_suffix, has_prefix-append,
  has_suffix-append, trim_prefix-append, trim_suffix-append, prefix_ne, has_prefix-eq-false,
}
use text.Mathlib.TextLemmas.{append_cancel_left, append_cancel_right, append_assoc}
use text.Mathlib.TextEquality.{eq_iff}
use groundwork.AclSync.Tuples.{user_ref, group_ref, group_members_ref, folder_ref, document_ref}
use groundwork.AclSync.Fga.{subject_group}

pub user_ref_inj : (a b : String) → user_ref a ≡ user_ref b → a ≡ b
unfolding user_ref
user_ref_inj a b e = append_cancel_left "user:" a b e

pub group_ref_inj : (a b : String) → group_ref a ≡ group_ref b → a ≡ b
unfolding group_ref
group_ref_inj a b e = append_cancel_left "group:" a b e

pub folder_ref_inj : (a b : String) → folder_ref a ≡ folder_ref b → a ≡ b
unfolding folder_ref
folder_ref_inj a b e = append_cancel_left "folder:" a b e

pub document_ref_inj : (a b : String) → document_ref a ≡ document_ref b → a ≡ b
unfolding document_ref
document_ref_inj a b e = append_cancel_left "document:" a b e

pub group_members_ref_inj : (a b : String) → group_members_ref a ≡ group_members_ref b → a ≡ b
unfolding group_members_ref
group_members_ref_inj a b e =
    append_cancel_left "group:" a b
      (append_cancel_right ("group:" <> a) ("group:" <> b) "#member" e)

u_ne_g : ◌≢◌ {A = String} "u" "g"
u_ne_g = ground (arith, eq_iff "u" "g")

f_ne_d : ◌≢◌ {A = String} "f" "d"
f_ne_d = ground (arith, eq_iff "f" "d")

g_ne_f : ◌≢◌ {A = String} "g" "f"
g_ne_f = ground (arith, eq_iff "g" "f")

g_ne_d : ◌≢◌ {A = String} "g" "d"
g_ne_d = ground (arith, eq_iff "g" "d")

u_ne_f : ◌≢◌ {A = String} "u" "f"
u_ne_f = ground (arith, eq_iff "u" "f")

pub user-ne-group : (a b : String) → user_ref a ≢ group_ref b
unfolding user_ref group_ref
user-ne-group a b = prefix_ne "u" "g" "ser:" "roup:" a b refl u_ne_g

pub user-ne-group_members : (a b : String) → user_ref a ≢ group_members_ref b
unfolding user_ref group_members_ref
user-ne-group_members a b e =
    prefix_ne "u" "g" "ser:" "roup:" a (b <> "#member") refl u_ne_g
      (e ∙ append_assoc "group:" b "#member")

pub folder-ne-document : (a b : String) → folder_ref a ≢ document_ref b
unfolding folder_ref document_ref
folder-ne-document a b = prefix_ne "f" "d" "older:" "ocument:" a b refl f_ne_d

pub group_members-prefix : (g : String) → has_prefix (group_members_ref g) "group:" ≡ true
unfolding group_members_ref
group_members-prefix g =
    rw (append_assoc "group:" g "#member") (has_prefix-append "group:" (g <> "#member"))

pub group_members-suffix : (g : String) → has_suffix (group_members_ref g) "#member" ≡ true
unfolding group_members_ref
group_members-suffix g = has_suffix-append ("group:" <> g) "#member"

-- The code reads back the group that `groupMembersRef` names.
pub subject_group_lem : (g : String) → subject_group (group_members_ref g) ≡ group_ref g
unfolding subject_group group_members_ref group_ref
subject_group_lem g = rw (append_assoc "group:" g "#member", trim_prefix-append, trim_suffix-append)

pub user_ref-prefix : (u : String) → has_prefix (user_ref u) "group:" ≡ false
user_ref-prefix u = has_prefix-eq-false (user_ref u) "group:" (unfold group_ref in user-ne-group u)

pub folder_ref-prefix : (f : String) → has_prefix (folder_ref f) "folder:" ≡ true
unfolding folder_ref
folder_ref-prefix f = has_prefix-append "folder:" f

pub document_ref-prefix : (d : String) → has_prefix (document_ref d) "document:" ≡ true
unfolding document_ref
document_ref-prefix d = has_prefix-append "document:" d
