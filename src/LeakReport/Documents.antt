-- ===== src/LeakReport/Documents.antt =====
-- The findings of the documents: those of each document, whatever their order.
use mathlib.Core.List.{Memᴰ, append-nil, append_assoc, flat_map}
use mathlib.Core.List.Memᴰ
use Prim.Native.String.{compare}
use text.Mathlib.Text.{is_le}
use groundwork.Base.{
  String, ◌≡◌, ◌↔◌, refl, sym, ap, ◌∙◌, Bool, true, ◌&&◌, List, [], ◌∷◌, ◌++◌, length, nat_beq,
  if◌then◌else◌, ◌==◌, string_eq, ◌⊎◌, inl, inr, Bool-cases, arith,
}
use groundwork.AclSync.Model.{Document}
use groundwork.LeakReport.{
  Finding, ForeignOwners, on_document, orphaned, low, cross_finding, put_owner, insert_document,
  sort_documents, dedupe_sorted, public_findings, cross, over_findings, analyze_document,
  analyze_documents,
}
use groundwork.LeakReport.Sets.{nil-dedupe_sorted}

mem-insert_document :
    (d : Document) (ds : List Document) {x : Document}
    → Memᴰ x (insert_document d ds) ↔ ((x ≡ d) ⊎ Memᴰ x ds)
unfolding insert_document
mem-insert_document d [] =
    ((λ m. Memᴰ.cases_cons m), (λ r. elim r [ inl e ↦ Memᴰ.head e | inr m ↦ Memᴰ.tail m ]))
mem-insert_document d (e ∷ es) {x} = elim (Bool-cases (is_le (compare d.id e.id))) [
  | inl first ↦
      rw (first, insert_document)
        ((λ m. Memᴰ.cases_cons m), (λ r. elim r [ inl e ↦ Memᴰ.head e | inr m ↦ Memᴰ.tail m ]))
  | inr later ↦
      rw (later, insert_document)
        (
          (λ m. elim (Memᴰ.cases_cons m) [
            | inl here ↦ inr (Memᴰ.head here)
            | inr there ↦ elim ((mem-insert_document d es).0 there) [
              | inl own ↦ inl own
              | inr old ↦ inr (Memᴰ.tail old)
            ]
          ]),
          (λ r. elim r [
            | inl own ↦ Memᴰ.tail ((mem-insert_document d es).1 (inl own))
            | inr old ↦ elim (Memᴰ.cases_cons old) [
              | inl here ↦ Memᴰ.head here
              | inr there ↦ Memᴰ.tail ((mem-insert_document d es).1 (inr there))
            ]
          ]),
        )
]

pub mem-sort_documents :
    (ds : List Document) {x : Document} → Memᴰ x (sort_documents ds) ↔ Memᴰ x ds
unfolding sort_documents
mem-sort_documents [] = ((λ m. m), (λ m. m))
mem-sort_documents (d ∷ ds) {x} =
    let insertion = mem-insert_document d (sort_documents ds) {x = x} in
    let rest = mem-sort_documents ds {x = x} in
    (
      (λ m. elim (insertion.0 m) [ inl e ↦ Memᴰ.head e | inr old ↦ Memᴰ.tail (rest.0 old) ]),
      (λ m. elim (Memᴰ.cases_cons m) [
        | inl e ↦ insertion.1 (inl e)
        | inr old ↦ insertion.1 (inr (rest.1 old))
      ]),
    )

-- The findings and the owners that the loop over the groups adds.
unfoldable pub crossed : String → String → List String → List Finding
crossed id owner [] = []
crossed id owner (vg ∷ vgs) =
    let rest = crossed id owner vgs in
    if vg == owner then rest else cross_finding id vg owner ∷ rest

unfoldable pub cross_owners : String → List String → ForeignOwners → ForeignOwners
cross_owners owner [] m = m
cross_owners owner (vg ∷ vgs) m =
    cross_owners owner vgs (if vg == owner then m else put_owner vg owner m)

cross_lem :
    (id owner : String) (vgs : List String) (fs : List Finding) (m : ForeignOwners)
    → cross id owner vgs (fs, m) ≡ (fs ++ crossed id owner vgs, cross_owners owner vgs m)
unfolding cross crossed cross_owners
cross_lem id owner [] fs m = ap (λ xs. (xs, m)) (sym (append-nil fs))
cross_lem id owner (vg ∷ vgs) fs m = elim (Bool-cases (vg == owner)) [
  | inl own ↦ rw (own, cross, crossed, cross_owners) (cross_lem id owner vgs fs m)
  | inr foreign ↦
      rw (foreign, cross, crossed, cross_owners)
        (cross_lem id owner vgs (fs ++ cross_finding id vg owner ∷ []) (put_owner vg owner m)
          ∙ ap (λ xs. (xs, cross_owners owner vgs (put_owner vg owner m)))
              (append_assoc fs (cross_finding id vg owner ∷ []) (crossed id owner vgs)))
]

unfoldable pub is_orphan : Document → Bool
is_orphan d = nat_beq (length d.viewer_groups) 0 && nat_beq (length d.viewer_users) 0

-- A document's findings.
unfoldable pub document_findings : (String → String) → Document → List Finding
document_findings owners d =
    let viewers = dedupe_sorted d.viewer_groups in
    public_findings d
    ++ (if is_orphan d
        then on_document orphaned low d.id ∷ []
        else (if owners d.id == "" then [] else crossed d.id (owners d.id) viewers)
          ++ over_findings d viewers)

unfoldable pub document_owners : (String → String) → Document → ForeignOwners → ForeignOwners
document_owners owners d m =
    if owners d.id == "" then m else cross_owners (owners d.id) (dedupe_sorted d.viewer_groups) m

unfoldable pub all_owners : (String → String) → List Document → ForeignOwners → ForeignOwners
all_owners owners [] m = m
all_owners owners (d ∷ ds) m = all_owners owners ds (document_owners owners d m)

empty : (xs : List String) → nat_beq (length xs) 0 ≡ true → xs ≡ []
empty [] h = refl
empty (x ∷ xs) h = absurd (ground arith)

no_groups :
    (d : Document) (owner : String) (m : ForeignOwners)
    → is_orphan d ≡ true
    → cross_owners owner (dedupe_sorted d.viewer_groups) m ≡ m
unfolding cross_owners is_orphan
no_groups d owner m h =
    let none_left : nat_beq (length (dedupe_sorted d.viewer_groups)) 0 ≡ true =
      nil-dedupe_sorted d.viewer_groups ∙ ground arith in
    ap (λ vgs. cross_owners owner vgs m) (empty (dedupe_sorted d.viewer_groups) none_left)

analyze_document_lem :
    (owners : String → String) (d : Document) (fs : List Finding) (m : ForeignOwners)
    → analyze_document owners d (fs, m)
      ≡ (fs ++ document_findings owners d, document_owners owners d m)
unfolding analyze_document document_findings document_owners is_orphan
analyze_document_lem owners d fs m =
    elim (Bool-cases (nat_beq (length d.viewer_groups) 0 && nat_beq (length d.viewer_users) 0)) [
      | inl orphan ↦ elim (Bool-cases (owners d.id == "")) [
        | inl unowned ↦
            rw (nil-dedupe_sorted, orphan, unowned, analyze_document)
              (ap (λ xs. (xs, m)) (append_assoc fs (public_findings d) _))
        | inr owned ↦
            rw
              (
                nil-dedupe_sorted,
                orphan,
                owned,
                analyze_document,
                no_groups d (owners d.id) m orphan,
              )
              (ap (λ xs. (xs, m)) (append_assoc fs (public_findings d) _))
      ]
      | inr shared ↦ elim (Bool-cases (owners d.id == "")) [
        | inl unowned ↦
            rw (nil-dedupe_sorted, shared, unowned, analyze_document)
              (ap (λ xs. (xs, m)) (append_assoc fs (public_findings d) _))
        | inr owned ↦
            rw (nil-dedupe_sorted, shared, owned, analyze_document, cross_lem)
              (ap (λ xs. (xs, cross_owners (owners d.id) (dedupe_sorted d.viewer_groups) m))
                (append_assoc (fs ++ public_findings d) _
                    (over_findings d (dedupe_sorted d.viewer_groups))
                  ∙ append_assoc fs (public_findings d) _))
      ]
    ]

pub analyze_documents_lem :
    (owners : String → String) (ds : List Document) (fs : List Finding) (m : ForeignOwners)
    → analyze_documents owners ds (fs, m)
      ≡ (fs ++ flat_map (document_findings owners) ds, all_owners owners ds m)
unfolding analyze_documents all_owners flat_map
analyze_documents_lem owners [] fs m = ap (λ xs. (xs, m)) (sym (append-nil fs))
analyze_documents_lem owners (d ∷ ds) fs m = rw (
  analyze_document_lem owners d fs m,
  analyze_documents_lem owners ds (fs ++ document_findings owners d) (document_owners owners d m),
  append_assoc,
)
