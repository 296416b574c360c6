-- ===== src/LeakReport/Each.antt =====
-- The findings of one document are its exposures.
use mathlib.Core.List.{Memᴰ}
use mathlib.Core.List.Memᴰ
use groundwork.Base.{
  String, ◌≡◌, refl, sym, ap, subst, ◌∙◌, true, false, ◌&&◌, ◌||◌, [], ◌++◌, length, nat_beq,
  if◌then◌else◌, ◌==◌, string_eq, contains, inl, inr, Bool-cases, arith,
}
use groundwork.AclSync.Model.{Document}
use groundwork.LeakReport.{Finding, has_public, dedupe_sorted, public_findings, over_findings}
use groundwork.LeakReport.Sets.{
  Two, Two-of_dedupe_sorted, length-dedupe_sorted, contains-dedupe_sorted,
}
use groundwork.LeakReport.Documents.{crossed, is_orphan, document_findings}
use groundwork.LeakReport.Exposures.{
  ExposedBy, to_all, to_nobody, to_foreign, to_many, mem_if, has_public_iff, mem-crossed, ne_of,
  of_ne, empty,
}

module _ (owners : String → String) (d : Document) where
  public-ExposedBy : (f : Finding) → Memᴰ f (public_findings d) → ExposedBy owners d f
  unfolding public_findings
  public-ExposedBy f m =
      let (open_to_all, e) = (mem_if _ _ f).0 m in
      subst (ExposedBy owners d) (sym e) (elim (Bool-cases (has_public d.viewer_users)) [
        | inl users ↦
            let (v, (listed, public)) = (has_public_iff d.viewer_users).0 users in
            to_all v (inl listed) public
        | inr none_public ↦
            let (v, (listed, public)) = (has_public_iff d.viewer_groups).0 (ground arith) in
            to_all v (inr listed) public
      ])

  over-ExposedBy :
      (f : Finding)
      → Memᴰ f (over_findings d (dedupe_sorted d.viewer_groups))
      → ExposedBy owners d f
  unfolding over_findings
  over-ExposedBy f m =
      let (many, e) = (mem_if _ _ f).0 m in
      subst (ExposedBy owners d) (sym e) (to_many (Two-of_dedupe_sorted d.viewer_groups many))

  cross_if-ExposedBy :
      (f : Finding)
      → Memᴰ f (
          if owners d.id == ""
          then []
          else crossed d.id (owners d.id) (dedupe_sorted d.viewer_groups))
      → ExposedBy owners d f
  cross_if-ExposedBy f m = elim (Bool-cases (owners d.id == "")) [
    | inl unowned ↦ absurd (Memᴰ.not-nil (rw unowned at m))
    | inr owned ↦
        let (g, (listed, (ne, e))) =
          (mem-crossed d.id (owners d.id) (dedupe_sorted d.viewer_groups) f).0 (rw owned at m) in
        subst (ExposedBy owners d) (sym e) (
          to_foreign g (record {
            views = sym (contains-dedupe_sorted d.viewer_groups g) ∙ listed;
            owned = ne_of (owners d.id) "" owned;
            by_other = ne;
          }))
  ]

  pub document_findings-ExposedBy :
      (f : Finding) → Memᴰ f (document_findings owners d) → ExposedBy owners d f
  unfolding document_findings is_orphan
  document_findings-ExposedBy f m = elim (Memᴰ.append_cases (public_findings d) m) [
    | inl public ↦ public-ExposedBy f public
    | inr others ↦
        elim (Bool-cases
          (nat_beq (length d.viewer_groups) 0 && nat_beq (length d.viewer_users) 0)) [
            | inl orphan ↦
                subst (ExposedBy owners d) (sym (Memᴰ.eq_of_singleton (rw orphan at others))) (
                  to_nobody (empty d.viewer_users (ground arith))
                    (empty d.viewer_groups (ground arith)))
            | inr shared ↦
                elim (Memᴰ.append_cases
                  (if owners d.id == ""
                    then []
                    else crossed d.id (owners d.id) (dedupe_sorted d.viewer_groups))
                  (rw shared at others)) [
                    | inl cross ↦ cross_if-ExposedBy f cross
                    | inr over ↦ over-ExposedBy f over
                  ]
          ]
  ]

  viewed : (g : String) → contains d.viewer_groups g ≡ true → is_orphan d ≡ false
  unfolding is_orphan contains
  viewed g h = elim (Bool-cases (nat_beq (length d.viewer_groups) 0)) [
    | inl none_left ↦ absurd (cc (ap (λ gs. contains gs g) (empty d.viewer_groups none_left), h))
    | inr some_left ↦ ground arith
  ]

  -- What the findings of a document with viewers have in common.
  mem-shared :
      (f : Finding)
      → is_orphan d ≡ false
      → Memᴰ f (
          (if owners d.id == ""
            then []
            else crossed d.id (owners d.id) (dedupe_sorted d.viewer_groups))
          ++ over_findings d (dedupe_sorted d.viewer_groups))
      → Memᴰ f (document_findings owners d)
  unfolding document_findings
  mem-shared f shared m = Memᴰ.append_right (public_findings d) (rw shared m)

  pub mem-document_findings :
      (f : Finding) → ExposedBy owners d f → Memᴰ f (document_findings owners d)
  unfolding document_findings is_orphan public_findings over_findings Two
  mem-document_findings f (to_all v (inl listed) public) =
      let users = (has_public_iff d.viewer_users).1 (v, (listed, public)) in
      let open_to_all : (has_public d.viewer_users || has_public d.viewer_groups) ≡ true =
        ground arith in
      Memᴰ.append_left _ ((mem_if _ _ _).1 (open_to_all, refl))
  mem-document_findings f (to_all v (inr listed) public) =
      let groups = (has_public_iff d.viewer_groups).1 (v, (listed, public)) in
      let open_to_all : (has_public d.viewer_users || has_public d.viewer_groups) ≡ true =
        ground arith in
      Memᴰ.append_left _ ((mem_if _ _ _).1 (open_to_all, refl))
  mem-document_findings f (to_nobody users groups) =
      Memᴰ.append_right (public_findings d) (rw (users, groups) (Memᴰ.head refl))
  mem-document_findings f (to_foreign g view) = mem-shared _ (viewed g view.views) (
      rw (of_ne (owners d.id) "" view.owned) (
        Memᴰ.append_left _ (
          (mem-crossed d.id (owners d.id) (dedupe_sorted d.viewer_groups) _).1
            (g, (contains-dedupe_sorted d.viewer_groups g ∙ view.views, (view.by_other, refl))))))
  mem-document_findings f (to_many (a, (b, (ha, r)))) = mem-shared _ (viewed a ha) (
      Memᴰ.append_right _
        ((mem_if _ _ _).1 (length-dedupe_sorted d.viewer_groups (a, (b, (ha, r))), refl)))
