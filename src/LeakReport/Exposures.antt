-- ===== src/LeakReport/Exposures.antt =====
-- The report finds the exposures that the snapshot has, and no others.
use mathlib.Core.List.{Memᴰ}
use mathlib.Core.List.Memᴰ
use groundwork.Base.{
  String, ◌≡◌, ◌≢◌, ◌↔◌, refl, sym, ap, subst, ◌∙◌, Bool, true, false, List, [], ◌∷◌, length,
  nat_beq, if◌then◌else◌, ◌==◌, ==_refl, string_eq, contains, ◌⊎◌, inl, inr, Bool-cases, arith,
}
use groundwork.AclSync.Model.{Document, PermissionSet}
use groundwork.LeakReport.{
  Finding, on_document, cross_finding, excessive_finding, world_readable, orphaned, overexposed,
  high, medium, low, is_public, has_public,
}
use groundwork.LeakReport.Sets.{Two}
use groundwork.LeakReport.Documents.{crossed}

-- The group can view the document, which another has as its owner.
pub record ForeignView (owners : String → String) (g : String) (d : Document) : Type 0 where
  pub views : contains d.viewer_groups g ≡ true
  pub owned : owners d.id ≢ ""
  pub by_other : g ≢ owners d.id

-- The exposures of one document.
pub data ExposedBy (owners : String → String) (d : Document) : Finding → Type 0 where
  to_all :
      (v : String)
      → (contains d.viewer_users v ≡ true) ⊎ (contains d.viewer_groups v ≡ true)
      → is_public v ≡ true
      → ExposedBy owners d (on_document world_readable high d.id)
  to_nobody :
      d.viewer_users ≡ []
      → d.viewer_groups ≡ []
      → ExposedBy owners d (on_document orphaned low d.id)
  to_foreign :
      (g : String)
      → ForeignView owners g d
      → ExposedBy owners d (cross_finding d.id g (owners d.id))
  to_many : Two d.viewer_groups → ExposedBy owners d (on_document overexposed medium d.id)

pub data Exposed (ps : PermissionSet) (owners : String → String) : Finding → Type 0 where
  document :
      {f : Finding} (d : Document)
      → Memᴰ d ps.documents
      → ExposedBy owners d f
      → Exposed ps owners f
  reaching :
      (g : String) (d e : Document)
      → Memᴰ d ps.documents
      → Memᴰ e ps.documents
      → ForeignView owners g d
      → ForeignView owners g e
      → owners d.id ≢ owners e.id
      → Exposed ps owners (excessive_finding g)

pub mem_if : (b : Bool) (x f : Finding) → Memᴰ f (if b then x ∷ [] else []) ↔ ((b ≡ true) × (f ≡ x))
mem_if true x f = ((λ m. (refl, Memᴰ.eq_of_singleton m)), (λ (_, e). Memᴰ.head e))
mem_if false x f = ((λ m. absurd (Memᴰ.not-nil m)), (λ (h, _). absurd (cc h)))

pub has_public_iff :
    (ids : List String)
    → (has_public ids ≡ true) ↔ ((v : String) × ((contains ids v ≡ true) × (is_public v ≡ true)))
unfolding has_public contains
has_public_iff [] = ((λ h. absurd (cc h)), (λ (v, (h, _)). absurd (cc h)))
has_public_iff (id ∷ ids) = (
  (λ h. elim (Bool-cases (is_public id)) [
    | inl open_to_all ↦ (id, (ground (arith, ==_refl id), open_to_all))
    | inr closed ↦
        let (v, (listed, public)) = (has_public_iff ids).0 (ground arith) in
        (v, (ground arith, public))
  ]),
  (λ (v, (listed, public)). elim (Bool-cases (id == v)) [
    | inl own ↦
        let e = (string_eq.equals_iff id v).0 own in
        let here = subst (λ u. is_public u ≡ true) (sym e) public in ground arith
    | inr other ↦ let rest = (has_public_iff ids).1 (v, (ground arith, public)) in ground arith
  ]),
)

pub ne_of : (a b : String) → (a == b) ≡ false → a ≢ b
ne_of a b h e = cc (h, (string_eq.equals_iff a b).1 e)

pub of_ne : (a b : String) → a ≢ b → (a == b) ≡ false
of_ne a b h = elim (Bool-cases (a == b)) [
  | inl same ↦ absurd (h ((string_eq.equals_iff a b).0 same))
  | inr other ↦ other
]

pub empty : (xs : List String) → nat_beq (length xs) 0 ≡ true → xs ≡ []
empty [] h = refl
empty (x ∷ xs) h = absurd (ground arith)

pub mem-crossed :
    (id owner : String) (vgs : List String) (f : Finding)
    → Memᴰ f (crossed id owner vgs)
      ↔ ((g : String) × ((contains vgs g ≡ true) × ((g ≢ owner) × (f ≡ cross_finding id g owner))))
unfolding crossed contains
mem-crossed id owner [] f = ((λ m. absurd (Memᴰ.not-nil m)), (λ (g, (h, _)). absurd (cc h)))
mem-crossed id owner (vg ∷ vgs) f = elim (Bool-cases (vg == owner)) [
  | inl own ↦
      rw (own, crossed)
        (
          (λ m. let (g, (listed, r)) = (mem-crossed id owner vgs f).0 m in (g, (ground arith, r))),
          (λ (g, (listed, (ne, e))).
              let other : (vg == g) ≡ false = elim (Bool-cases (vg == g)) [
                | inl same ↦ absurd (
                    ne (
                      sym ((string_eq.equals_iff vg g).0 same)
                      ∙ (string_eq.equals_iff vg owner).0 own))
                | inr differ ↦ differ
              ] in
              (mem-crossed id owner vgs f).1 (g, (ground arith, (ne, e)))),
        )
  | inr foreign ↦
      rw (foreign, crossed)
        (
          (λ m. elim (Memᴰ.cases_cons m) [
            | inl here ↦ (vg, (ground (arith, ==_refl vg), (ne_of vg owner foreign, here)))
            | inr there ↦
                let (g, (listed, r)) = (mem-crossed id owner vgs f).0 there in
                (g, (ground arith, r))
          ]),
          (λ (g, (listed, (ne, e))). elim (Bool-cases (vg == g)) [
            | inl same ↦
                Memᴰ.head (
                  e ∙ ap (λ h. cross_finding id h owner) (sym ((string_eq.equals_iff vg g).0 same)))
            | inr other ↦ Memᴰ.tail ((mem-crossed id owner vgs f).1 (g, (ground arith, (ne, e))))
          ]),
        )
]
