-- ===== src/Examples/AclSync.antt =====
-- The permission sync of aclsync/ on a small tenant whose two groups contain each other.
use mathlib.Core.List.{Memᴰ, flat_map}
use mathlib.Core.List.Memᴰ
use groundwork.Base.{ℕ}
use groundwork.Base.{
  String, ◌≡◌, ◌≢◌, refl, sym, subst, ◌↔◌, inl, inr, true, false, [], ◌∷◌, ◌==◌, string_eq, ok,
  contains, insert, has_suffix, has_prefix, Bool-cases,
}
use groundwork.AclSync.Model.{Folder, Document, PermissionSet}
use groundwork.AclSync.Tuples.{
  tuple, tuple_eq, user_ref, group_ref, group_members_ref, folder_ref, document_ref, group_tuples,
  viewer_tuples, folder_tuples, parent_tuples, document_tuples, dedupe_from, dedupe_tuples,
  permission_set_to_tuples,
}
use groundwork.AclSync.Tuples.Grants.{Grant, permission_set_to_tuples_iff}
use groundwork.AclSync.Fga.{
  MemoryFga, new_memory_fga, tenant_set, put_tenant, list_tuples, insert_all, write_tuples,
  check_set, check, is_member,
}
use groundwork.AclSync.Fga.Member.{Member, is_member_iff}
use groundwork.AclSync.Access.{CanView, NoGroupLikeViewers}
use groundwork.AclSync.Access.Viewers.{check_set-iff-CanView}
use groundwork.AclSync.Sync.{
  SyncResult, DriftReport, fga_documents, source_documents, missing_from, tuple_set, difference,
  deletions, write_some, delete_some, push, sync_to_open_fga, detect_drift,
}
use groundwork.AclSync.Sync.Exact.{
  sync_to_open_fga-exact, sync_to_open_fga_keeps, sync_to_open_fga_idem, detect_drift_after_sync,
}
use groundwork.AclSync.Memory.{memory_sink, memory_laws, check_after_sync}
use groundwork.AclSync.Checker.{Answerable, unanswerable, can_access, can_access_after_sync}
use groundwork.Engine.Types.{QueryRequest, Chunk}

abbrev acme : PermissionSet
acme = record {
  tenant_id = "acme";
  users = "alice" ∷ "bob" ∷ "carol" ∷ [];
  groups =
      record { id = "eng"; member_users = "alice" ∷ []; member_groups = "leads" ∷ [] }
      ∷ record { id = "leads"; member_users = "bob" ∷ []; member_groups = "eng" ∷ [] }
      ∷ [];
  folders = record { id = "specs"; viewer_users = []; viewer_groups = "eng" ∷ [] } ∷ [];
  documents =
      record { id = "plan"; folder_id = "specs"; viewer_users = "carol" ∷ []; viewer_groups = [] }
      ∷ [];
}

abbrev nobody : PermissionSet
nobody = record { tenant_id = "acme"; users = []; groups = []; folders = []; documents = [] }

only : (s u : String) → contains (s ∷ []) u ≡ true → u ≡ s
unfolding contains
only s u h = elim (Bool-cases (s == u)) [
  | inl same ↦ sym ((string_eq.equals_iff s u).0 same)
  | inr other ↦ absurd (unfold contains in cc (h, other))
]

acme-NoGroupLikeViewers : NoGroupLikeViewers acme
unfolding contains has_suffix user_ref
acme-NoGroupLikeViewers = record {
  folders = λ f u m h. nobody_named f u m h;
  documents = λ d u m h. only_carol d u m h;
}
  where
    nobody_named :
        (f : Folder) (u : String)
        → Memᴰ f acme.folders
        → contains f.viewer_users u ≡ true
        → has_suffix (user_ref u) "#member" ≡ false
    nobody_named f u (Memᴰ.head e) h =
        absurd (cc (h, subst (λ g. contains g.viewer_users u ≡ false) (sym e) refl))
    nobody_named f u (Memᴰ.tail m) h = absurd (Memᴰ.not-nil m)

    only_carol :
        (d : Document) (u : String)
        → Memᴰ d acme.documents
        → contains d.viewer_users u ≡ true
        → has_suffix (user_ref u) "#member" ≡ false
    only_carol d u (Memᴰ.head e) h =
        subst (λ v. has_suffix (user_ref v) "#member" ≡ false)
          (sym (only "carol" u (subst (λ c. contains c.viewer_users u ≡ true) e h))) refl
    only_carol d u (Memᴰ.tail m) h = absurd (Memᴰ.not-nil m)

-- The store after the first sync, and its result.
abbrev synced : MemoryFga
synced = (sync_to_open_fga memory_sink false (ok acme) new_memory_fga "acme").0

abbrev first_result : SyncResult
first_result = record { tenant_id = "acme"; tuples_written = 7; tuples_deleted = 0 }

first_sync :
    sync_to_open_fga memory_sink false (ok acme) new_memory_fga "acme" ≡ (synced, ok first_result)
unfolding sync_to_open_fga push write_some delete_some tuple_set difference deletions
    permission_set_to_tuples dedupe_tuples dedupe_from group_tuples viewer_tuples folder_tuples
    parent_tuples document_tuples user_ref group_ref group_members_ref folder_ref document_ref
    insert_all insert contains list_tuples write_tuples new_memory_fga tenant_set put_tenant
    flat_map
first_sync = refl

abbrev second_result : SyncResult
second_result = record { tenant_id = "acme"; tuples_written = 0; tuples_deleted = 0 }

acme_grants : permission_set_to_tuples acme ≢ []
unfolding permission_set_to_tuples dedupe_tuples dedupe_from group_tuples contains flat_map
acme_grants h = cc

permission_set_to_tuples_iff_example :
    (contains (permission_set_to_tuples acme) (tuple (user_ref "alice") "member" (group_ref "eng"))
      ≡ true)
    ↔ Grant acme (tuple (user_ref "alice") "member" (group_ref "eng"))
permission_set_to_tuples_iff_example =
    permission_set_to_tuples_iff acme (tuple (user_ref "alice") "member" (group_ref "eng"))

is_member_iff_example :
    (is_member (permission_set_to_tuples acme) "user:bob" "group:eng" ≡ true)
    ↔ Member (permission_set_to_tuples acme) "user:bob" "group:eng"
is_member_iff_example = is_member_iff (permission_set_to_tuples acme) "user:bob" "group:eng"

check_set-iff-CanView_example :
    (check_set (permission_set_to_tuples acme) (user_ref "bob") "viewer" (document_ref "plan")
      ≡ true)
    ↔ CanView acme "bob" "plan"
check_set-iff-CanView_example =
    check_set-iff-CanView acme (permission_set_to_tuples acme) "bob" "plan" (λ t. refl)
      acme-NoGroupLikeViewers

sync_to_open_fga-exact_example :
    memory_laws.has synced "acme" (tuple "user:bob" "member" "group:leads")
    ≡ contains (permission_set_to_tuples acme) (tuple "user:bob" "member" "group:leads")
sync_to_open_fga-exact_example =
    sync_to_open_fga-exact memory_sink memory_laws false acme new_memory_fga synced "acme"
      first_result first_sync (inl acme_grants) "acme" (tuple "user:bob" "member" "group:leads")

check_after_sync_example :
    (check synced "acme" (user_ref "bob") "viewer" (document_ref "plan") ≡ true)
    ↔ CanView acme "bob" "plan"
check_after_sync_example =
    check_after_sync false acme new_memory_fga synced "acme" first_result "bob" "plan" first_sync
      (inl acme_grants) acme-NoGroupLikeViewers

again : sync_to_open_fga memory_sink false (ok acme) synced "acme" ≡ (synced, ok second_result)
unfolding sync_to_open_fga push write_some delete_some tuple_set difference deletions
    permission_set_to_tuples dedupe_tuples dedupe_from group_tuples viewer_tuples folder_tuples
    parent_tuples document_tuples user_ref group_ref group_members_ref folder_ref document_ref
    insert_all insert contains list_tuples write_tuples new_memory_fga tenant_set put_tenant
    flat_map
again = refl

sync_to_open_fga_idem_example :
    (synced ≡ synced) × (second_result.tuples_written ≡ 0) × (second_result.tuples_deleted ≡ 0)
sync_to_open_fga_idem_example =
    sync_to_open_fga_idem memory_sink memory_laws false acme new_memory_fga synced synced "acme"
      first_result second_result first_sync (inl acme_grants) again

kept : sync_to_open_fga memory_sink false (ok nobody) synced "acme" ≡ (synced, ok second_result)
unfolding sync_to_open_fga push write_some delete_some tuple_set difference deletions
    permission_set_to_tuples dedupe_tuples dedupe_from group_tuples viewer_tuples folder_tuples
    parent_tuples document_tuples user_ref group_ref group_members_ref folder_ref document_ref
    insert_all insert contains list_tuples write_tuples new_memory_fga tenant_set put_tenant
    flat_map
kept = refl

nobody_grants : permission_set_to_tuples nobody ≡ []
unfolding permission_set_to_tuples dedupe_tuples dedupe_from flat_map
nobody_grants = refl

sync_to_open_fga_keeps_example :
    (synced ≡ synced) × (second_result.tuples_written ≡ 0) × (second_result.tuples_deleted ≡ 0)
sync_to_open_fga_keeps_example =
    sync_to_open_fga_keeps memory_sink memory_laws nobody synced synced "acme" second_result kept
      nobody_grants

abbrev no_drift : DriftReport
no_drift = record {
  tenant_id = "acme";
  source_missing_in_fga = [];
  fga_extra_not_in_source = [];
  documents_missing_in_fga = [];
  orphaned_fga_documents = [];
}

drift : detect_drift memory_sink (ok acme) synced "acme" ≡ ok no_drift
unfolding detect_drift fga_documents source_documents missing_from has_prefix sync_to_open_fga push
    write_some delete_some tuple_set difference deletions permission_set_to_tuples dedupe_tuples
    dedupe_from group_tuples viewer_tuples folder_tuples parent_tuples document_tuples user_ref
    group_ref group_members_ref folder_ref document_ref insert_all insert contains list_tuples
    write_tuples new_memory_fga tenant_set put_tenant flat_map
drift = refl

detect_drift_after_sync_example :
    (no_drift.source_missing_in_fga ≡ []) × (no_drift.fga_extra_not_in_source ≡ [])
detect_drift_after_sync_example =
    detect_drift_after_sync memory_sink memory_laws false acme new_memory_fga synced "acme"
      first_result no_drift first_sync (inl acme_grants) drift

abbrev bob : QueryRequest
bob = record {
  tenant_id = "acme";
  user_id = "bob";
  region = "eu";
  question = "why";
  agent_key_id = 1;
  agent_key_name = "k";
}

abbrev plan_chunk : Chunk ℕ
plan_chunk = record {
  tenant_id = "acme";
  region = "eu";
  document_id = "plan";
  chunk_id = "c";
  chunk_hash = "h";
  page = 1;
  offset = 0;
  text = "text";
  required_scope = "";
  owner_acl_tags = [];
  freshness_score = 1;
  soft_deleted = false;
}

-- A chunk of another tenant is refused, whatever the tuples are.
foreign_refused : can_access synced (record bob { tenant_id = "other" }) plan_chunk ≡ false
unfolding can_access unanswerable
foreign_refused = refl

can_access_after_sync_example :
    (can_access synced bob plan_chunk ≡ true)
    ↔ (Answerable bob plan_chunk × CanView acme "bob" "plan")
can_access_after_sync_example =
    can_access_after_sync false acme new_memory_fga synced first_result bob plan_chunk first_sync
      (inl acme_grants) acme-NoGroupLikeViewers
