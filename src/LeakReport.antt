-- ===== src/LeakReport.antt =====
-- services/query-runtime/internal/leakreport/leakreport.go: the exposures that a snapshot shows.
pub mod Sets
pub mod Documents
pub mod Foreign
pub mod Exposures
pub mod Each
pub mod Complete
use Prim.Native.String.{compare}
use text.Mathlib.Text.{is_le}
use groundwork.Base.{
  ℕ, ◌+◌, String, Bool, true, false, not, ◌&&◌, ◌||◌, List, [], ◌∷◌, ◌++◌, map, length, ltb,
  nat_beq, if◌then◌else◌, ◌==◌, string_eq, contains, insert, sort_strings,
}
use groundwork.AclSync.Model.{Document, PermissionSet}

pub data Severity : Type 0 where
  high medium low : Severity

pub data Kind : Type 0 where
  cross_department overexposed world_readable orphaned excessive_group : Kind

-- `Detail` is not modelled.
pub record Finding : Type 0 where
  pub kind : Kind
  pub severity : Severity
  pub document_id : String
  pub group : String
  pub owner : String

pub record Report : Type 0 where
  pub tenant_id : String
  pub document_count : ℕ
  pub group_count : ℕ
  pub findings : List Finding

-- The documents' findings, as `Analyze` makes them.
abbrev pub on_document : Kind → Severity → String → Finding
on_document kind severity id = record {
  kind = kind;
  severity = severity;
  document_id = id;
  group = "";
  owner = "";
}

abbrev pub cross_finding : String → String → String → Finding
cross_finding id group owner = record {
  kind = cross_department;
  severity = high;
  document_id = id;
  group = group;
  owner = owner;
}

abbrev pub excessive_finding : String → Finding
excessive_finding group = record {
  kind = excessive_group;
  severity = high;
  document_id = "";
  group = group;
  owner = "";
}

abbrev pub is_public : String → Bool
is_public id = id == "*" || id == "user:*" || id == "public"

unfoldable pub has_public : List String → Bool
has_public [] = false
has_public (id ∷ ids) = is_public id || has_public ids

-- The loop of `dedupeSorted`, with the map `seen`.
unfoldable pub dedupe_new : List String → List String → List String
dedupe_new seen [] = []
dedupe_new seen (v ∷ vs) =
    let old = dedupe_new seen vs in
    let new = dedupe_new (insert v seen) vs in if contains seen v then old else v ∷ new

unfoldable pub dedupe_sorted : List String → List String
unfolding dedupe_new
dedupe_sorted ids = sort_strings (dedupe_new [] ids)

-- The map `groupForeignOwners`, and `m[group][owner] = struct{}{}` in it.
abbrev pub ForeignOwners : Type 0
ForeignOwners = List (String × List String)

unfoldable pub owners_of : String → ForeignOwners → List String
owners_of group [] = []
owners_of group ((g, owners) ∷ m) =
    let rest = owners_of group m in if g == group then owners else rest

unfoldable pub put_owner : String → String → ForeignOwners → ForeignOwners
put_owner group owner [] = (group, owner ∷ []) ∷ []
put_owner group owner ((g, owners) ∷ m) =
    let rest = put_owner group owner m in
    if g == group then (g, insert owner owners) ∷ m else (g, owners) ∷ rest

-- `docs` is sorted by `ID`.
unfoldable pub insert_document : Document → List Document → List Document
insert_document d [] = d ∷ []
insert_document d (e ∷ es) =
    let rest = insert_document d es in if is_le (compare d.id e.id) then d ∷ e ∷ es else e ∷ rest

unfoldable pub sort_documents : List Document → List Document
unfolding insert_document
sort_documents [] = []
sort_documents (d ∷ ds) = insert_document d (sort_documents ds)

unfoldable pub public_findings : Document → List Finding
public_findings d =
    if has_public d.viewer_users || has_public d.viewer_groups
    then on_document world_readable high d.id ∷ []
    else []

-- The loop over the viewer groups of a document with an owner.
unfoldable pub cross :
    String → String → List String → List Finding × ForeignOwners → List Finding × ForeignOwners
cross id owner [] acc = acc
cross id owner (vg ∷ vgs) (findings, foreign) = cross id owner vgs (
    if vg == owner
    then (findings, foreign)
    else (findings ++ cross_finding id vg owner ∷ [], put_owner vg owner foreign))

unfoldable pub over_findings : Document → List String → List Finding
over_findings d viewers =
    if ltb 1 (length viewers) then on_document overexposed medium d.id ∷ [] else []

-- One round of the loop over the documents; `owners` gives "" where the map has no owner.
unfoldable pub analyze_document :
    (String → String) → Document → List Finding × ForeignOwners → List Finding × ForeignOwners
unfolding public_findings cross over_findings
analyze_document owners d (findings, foreign) =
    let viewers = dedupe_sorted d.viewer_groups in
    let seen = findings ++ public_findings d in
    let owner = owners d.id in
    let (crossed, foreign') =
      if owner == "" then (seen, foreign) else cross d.id owner viewers (seen, foreign) in
    if nat_beq (length viewers) 0 && nat_beq (length d.viewer_users) 0
    then (seen ++ on_document orphaned low d.id ∷ [], foreign)
    else (crossed ++ over_findings d viewers, foreign')

unfoldable pub analyze_documents :
    (String → String) → List Document → List Finding × ForeignOwners → List Finding × ForeignOwners
unfolding analyze_document
analyze_documents owners [] acc = acc
analyze_documents owners (d ∷ ds) acc = analyze_documents owners ds (analyze_document owners d acc)

-- The loop over the groups.
unfoldable pub excessive : ForeignOwners → List String → List Finding
excessive foreign [] = []
excessive foreign (g ∷ gs) =
    let rest = excessive foreign gs in
    if ltb 1 (length (owners_of g foreign)) then excessive_finding g ∷ rest else rest

unfoldable pub analyze : PermissionSet → (String → String) → Report
unfolding analyze_documents excessive sort_documents
analyze ps owners =
    let (findings, foreign) = analyze_documents owners (sort_documents ps.documents) ([], []) in
    record {
      tenant_id = ps.tenant_id;
      document_count = length ps.documents;
      group_count = length ps.groups;
      findings = findings ++ excessive foreign (sort_strings (map (λ e. e.0) foreign));
    }

abbrev pub severity_eq : Severity → Severity → Bool
severity_eq high high = true
severity_eq medium medium = true
severity_eq low low = true
severity_eq _ _ = false

-- `CountBySeverity`, at a severity.
unfoldable pub count_by_severity : List Finding → Severity → ℕ
count_by_severity [] s = 0
count_by_severity (f ∷ fs) s =
    let rest = count_by_severity fs s in if severity_eq f.severity s then 1 + rest else rest
