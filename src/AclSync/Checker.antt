-- ===== src/AclSync/Checker.antt =====
-- aclsync/fga.go, `CanAccess`: the in-memory store as the engine's ACL checker.
use groundwork.Base.{
  ◌≡◌, ◌≢◌, ◌↔◌, ◌⊎◌, Bool, true, false, ◌||◌, not, [], ok, ◌==◌, string_eq, if◌then◌else◌,
  Bool-cases, inl, inr, arith,
}
use text.Mathlib.TextEquality.{eq_iff}
use groundwork.AclSync.Model.{PermissionSet}
use groundwork.AclSync.Tuples.{user_ref, document_ref, permission_set_to_tuples}
use groundwork.AclSync.Fga.{MemoryFga, check}
use groundwork.AclSync.Access.{CanView, NoGroupLikeViewers}
use groundwork.AclSync.Sync.{SyncResult, sync_to_open_fga}
use groundwork.AclSync.Memory.{memory_sink, check_after_sync}
use groundwork.Engine.Types.{QueryRequest, Chunk}

-- The early return: an empty identifier, a chunk that is deleted or one of another tenant.
unfoldable pub unanswerable : {F : Type 0} → QueryRequest → Chunk F → Bool
unanswerable req chunk =
    req.tenant_id == ""
    || req.user_id == ""
    || chunk.document_id == ""
    || chunk.soft_deleted
    || not (chunk.tenant_id == req.tenant_id)

unfoldable pub can_access : {F : Type 0} → MemoryFga → QueryRequest → Chunk F → Bool
can_access m req chunk =
    if unanswerable req chunk
    then false
    else check m req.tenant_id (user_ref req.user_id) "viewer" (document_ref chunk.document_id)

-- The request names a tenant and a user, and the chunk is one of that tenant's, with a document,
-- that is not deleted.
pub Answerable : {F : Type 0} → QueryRequest → Chunk F → Type 0
Answerable req chunk =
    (req.tenant_id ≢ "")
    × ((req.user_id ≢ "")
        × ((chunk.document_id ≢ "")
            × ((chunk.soft_deleted ≡ false) × (chunk.tenant_id ≡ req.tenant_id))))

unanswerable_iff :
    {F : Type 0} (req : QueryRequest) (chunk : Chunk F)
    → (unanswerable req chunk ≡ false) ↔ Answerable req chunk
unfolding unanswerable Answerable
unanswerable_iff req chunk =
    let tenant = eq_iff req.tenant_id "" in
    let user = eq_iff req.user_id "" in
    let document = eq_iff chunk.document_id "" in
    let owner = eq_iff chunk.tenant_id req.tenant_id in
    ground (arith, tenant, user, document, owner)

-- After a sync of the request's tenant whose snapshot emits a tuple or that may delete everything,
-- in which no user viewer's reference ends in "#member": the checker lets the request's user have a
-- chunk exactly if the request names a tenant and a user, the chunk is one of that tenant's, with a
-- document, and not deleted, and the snapshot lets that user view the document.
pub can_access_after_sync :
    {F : Type 0} (allow : Bool) (ps : PermissionSet) (m m' : MemoryFga) (r : SyncResult)
    (req : QueryRequest) (chunk : Chunk F)
    → sync_to_open_fga memory_sink allow (ok ps) m req.tenant_id ≡ (m', ok r)
    → (permission_set_to_tuples ps ≢ []) ⊎ (allow ≡ true)
    → NoGroupLikeViewers ps
    → (can_access m' req chunk ≡ true)
      ↔ (Answerable req chunk × CanView ps req.user_id chunk.document_id)
unfolding can_access
can_access_after_sync allow ps m m' r req chunk success effective plain =
    let decided =
      check_after_sync allow ps m m' req.tenant_id r req.user_id chunk.document_id success effective
        plain in
    elim (Bool-cases (unanswerable req chunk)) [
      | inl refused ↦ (
        λ h. absurd (cc (rw (refused, can_access) at h)),
        λ (plain', view). absurd (cc (refused, (unanswerable_iff req chunk).1 plain')),
      )
      | inr given ↦ (
        λ h. ((unanswerable_iff req chunk).0 given, decided.0 (rw (given, can_access) at h)),
        λ (plain', view). rw (given, can_access) (decided.1 view),
      )
    ]
