-- ===== src/LeakReport/Foreign.antt =====
-- The map of the owners whose documents a group can view without being the owner.
use mathlib.Core.List.{Memᴰ}
use mathlib.Core.List.Memᴰ
use groundwork.Base.{
  String, ◌≡◌, ◌↔◌, Bool, true, false, not, ◌&&◌, ◌||◌, List, [], ◌∷◌, map, length, ltb,
  if◌then◌else◌, ◌==◌, ==_refl, string_eq, contains, insert, contains-insert, inl, inr, Bool-cases,
  arith,
}
use groundwork.AclSync.Model.{Document}
use groundwork.LeakReport.{
  Finding, ForeignOwners, owners_of, put_owner, dedupe_sorted, excessive, excessive_finding,
}
use groundwork.LeakReport.Sets.{contains-dedupe_sorted, Once, insert-Once}
use groundwork.LeakReport.Documents.{cross_owners, document_owners, all_owners}

contains-put_owner :
    (group owner : String) (m : ForeignOwners) (g x : String)
    → contains (owners_of g (put_owner group owner m)) x
      ≡ ((group == g && owner == x) || contains (owners_of g m) x)
unfolding contains owners_of put_owner
contains-put_owner group owner [] g x = ground arith
contains-put_owner group owner ((h, owners) ∷ m) g x = ground (
  arith,
  contains-put_owner group owner m g x,
  contains-insert owner x owners,
  string_eq.equals_iff h group,
  string_eq.equals_iff h g,
  string_eq.equals_iff group g,
)

contains-cross_owners :
    (owner : String) (vgs : List String) (m : ForeignOwners) (g x : String)
    → contains (owners_of g (cross_owners owner vgs m)) x
      ≡ (contains (owners_of g m) x || (contains vgs g && not (g == owner) && owner == x))
unfolding contains cross_owners
contains-cross_owners owner [] m g x = ground arith
contains-cross_owners owner (vg ∷ vgs) m g x = elim (Bool-cases (vg == owner)) [
  | inl own ↦
      rw (own, cross_owners)
        (ground (
          arith,
          contains-cross_owners owner vgs m g x,
          string_eq.equals_iff vg owner,
          string_eq.equals_iff vg g,
          string_eq.equals_iff g owner,
        ))
  | inr foreign ↦
      rw (foreign, cross_owners)
        (ground (
          arith,
          contains-cross_owners owner vgs (put_owner vg owner m) g x,
          contains-put_owner vg owner m g x,
          string_eq.equals_iff vg owner,
          string_eq.equals_iff vg g,
          string_eq.equals_iff g owner,
        ))
]

-- The document is owned by `owner`, which is not the group, and the group can view it.
unfoldable pub is_foreign : (String → String) → String → String → Document → Bool
is_foreign owners g owner d =
    not (owners d.id == "")
    && (contains d.viewer_groups g && not (g == owners d.id) && owners d.id == owner)

contains-document_owners :
    (owners : String → String) (d : Document) (m : ForeignOwners) (g x : String)
    → contains (owners_of g (document_owners owners d m)) x
      ≡ (contains (owners_of g m) x || is_foreign owners g x d)
unfolding document_owners is_foreign
contains-document_owners owners d m g x = ground (
  arith,
  contains-cross_owners (owners d.id) (dedupe_sorted d.viewer_groups) m g x,
  contains-dedupe_sorted d.viewer_groups g,
)

unfoldable pub some_foreign : (String → String) → String → String → List Document → Bool
some_foreign owners g x [] = false
some_foreign owners g x (d ∷ ds) = is_foreign owners g x d || some_foreign owners g x ds

pub contains-all_owners :
    (owners : String → String) (ds : List Document) (m : ForeignOwners) (g x : String)
    → contains (owners_of g (all_owners owners ds m)) x
      ≡ (contains (owners_of g m) x || some_foreign owners g x ds)
unfolding all_owners some_foreign
contains-all_owners owners [] m g x = ground arith
contains-all_owners owners (d ∷ ds) m g x = ground (
  arith,
  contains-all_owners owners ds (document_owners owners d m) g x,
  contains-document_owners owners d m g x,
)

-- Each group's owners are there once.
unfoldable pub OnceEach : ForeignOwners → Type 0
OnceEach m = (g : String) → Once (owners_of g m)

owners_of-put_owner :
    (group owner : String) (m : ForeignOwners) (g : String)
    → owners_of g (put_owner group owner m)
      ≡ (if group == g then insert owner (owners_of g m) else owners_of g m)
unfolding owners_of put_owner insert contains
owners_of-put_owner group owner [] g = ground arith
owners_of-put_owner group owner ((h, owners) ∷ m) g = ground (
  arith,
  owners_of-put_owner group owner m g,
  string_eq.equals_iff h group,
  string_eq.equals_iff h g,
  string_eq.equals_iff group g,
)

put_owner-OnceEach :
    (group owner : String) (m : ForeignOwners) → OnceEach m → OnceEach (put_owner group owner m)
unfolding OnceEach
put_owner-OnceEach group owner m h g = elim (Bool-cases (group == g)) [
  | inl own ↦ rw (owners_of-put_owner, own) (insert-Once owner (owners_of g m) (h g))
  | inr other ↦ rw (owners_of-put_owner, other) (h g)
]

cross_owners-OnceEach :
    (owner : String) (vgs : List String) (m : ForeignOwners)
    → OnceEach m
    → OnceEach (cross_owners owner vgs m)
unfolding cross_owners
cross_owners-OnceEach owner [] m h = h
cross_owners-OnceEach owner (vg ∷ vgs) m h = elim (Bool-cases (vg == owner)) [
  | inl own ↦ rw (own, cross_owners) (cross_owners-OnceEach owner vgs m h)
  | inr foreign ↦
      rw (foreign, cross_owners)
        (cross_owners-OnceEach owner vgs (put_owner vg owner m) (put_owner-OnceEach vg owner m h))
]

pub all_owners-OnceEach :
    (owners : String → String) (ds : List Document) (m : ForeignOwners)
    → OnceEach m
    → OnceEach (all_owners owners ds m)
unfolding all_owners document_owners
all_owners-OnceEach owners [] m h = h
all_owners-OnceEach owners (d ∷ ds) m h = elim (Bool-cases (owners d.id == "")) [
  | inl unowned ↦ rw (unowned, all_owners) (all_owners-OnceEach owners ds m h)
  | inr owned ↦
      rw (owned, all_owners)
        (all_owners-OnceEach owners ds _
          (cross_owners-OnceEach (owners d.id) (dedupe_sorted d.viewer_groups) m h))
]

-- A group with owners is among the map's keys.
pub keys-owners_of :
    (m : ForeignOwners) (g : String)
    → ltb 0 (length (owners_of g m)) ≡ true
    → contains (map (λ e. e.0) m) g ≡ true
unfolding owners_of contains
keys-owners_of [] g h = absurd (ground arith)
keys-owners_of ((h, owners) ∷ m) g filled = ground (arith, keys-owners_of m g)

-- A group of the list that has more than one owner, and its finding.
unfoldable pub Many : ForeignOwners → List String → Finding → Type 0
Many m gs f =
    (g : String) × ((contains gs g ≡ true)
      × ((ltb 1 (length (owners_of g m)) ≡ true) × (f ≡ excessive_finding g)))

excessive-Many :
    (m : ForeignOwners) (gs : List String) (f : Finding) → Memᴰ f (excessive m gs) → Many m gs f
unfolding excessive contains Many
excessive-Many m [] f h = absurd (Memᴰ.not-nil h)
excessive-Many m (g ∷ gs) f h = elim (Bool-cases (ltb 1 (length (owners_of g m)))) [
  | inr few ↦
      let (k, (listed, r)) = excessive-Many m gs f (rw (few, excessive) at h) in
      (k, (ground arith, r))
  | inl many ↦ elim (Memᴰ.cases_cons (rw (many, excessive) at h)) [
    | inl here ↦ (g, (ground (arith, ==_refl g), (many, here)))
    | inr there ↦ let (k, (listed, r)) = excessive-Many m gs f there in (k, (ground arith, r))
  ]
]

mem-excessive :
    (m : ForeignOwners) (gs : List String) (f : Finding) → Many m gs f → Memᴰ f (excessive m gs)
unfolding excessive contains Many
mem-excessive m [] f (g, (h, _)) = absurd (cc h)
mem-excessive m (h ∷ gs) f (g, (listed, (many, same))) = elim (Bool-cases (h == g)) [
  | inl own ↦ let e = (string_eq.equals_iff h g).0 own in rw (e, many, excessive) (Memᴰ.head same)
  | inr other ↦
      let rest = mem-excessive m gs f (g, (ground arith, (many, same))) in
      elim (Bool-cases (ltb 1 (length (owners_of h m)))) [
        | inl more ↦ rw (more, excessive) (Memᴰ.tail rest)
        | inr fewer ↦ rw (fewer, excessive) rest
      ]
]

pub mem-excessive_iff :
    (m : ForeignOwners) (gs : List String) (f : Finding) → Memᴰ f (excessive m gs) ↔ Many m gs f
mem-excessive_iff m gs f = (excessive-Many m gs f, mem-excessive m gs f)
