-- ===== src/Engine/Adapters.antt =====
-- engine/adapters.go: a vector searcher as the engine's retrieval client, and a writer of traces as
-- its auditor.
use groundwork.Base.{ℕ, [], Option, none, some, false}
use groundwork.Engine.Types.{QueryRequest, RuntimeTrace}
use groundwork.Engine.Errors.{GoError}
use groundwork.Engine.Query.{AuditEntry, Retrieval, retrieval_failed}
use groundwork.Engine.Audit.{Formats, compute_digest}

-- `VectorRetrievalClient.Retrieve`; `none` is a nil searcher.
unfoldable pub vector_retrieve :
    {F : Type 0} → Option (QueryRequest → ℕ → Retrieval F) → QueryRequest → ℕ → Retrieval F
vector_retrieve none req limit =
    retrieval_failed (record { chain = []; message = "retrieval_client_unavailable" })
vector_retrieve (some search) req limit = search req limit

-- The trace that `RuntimeTraceAuditWriter.Write` makes of an entry.
unfoldable pub trace_of_entry : Formats → AuditEntry → RuntimeTrace
trace_of_entry f entry = record {
  trace_id = entry.trace_id;
  tenant_id = entry.tenant_id;
  user_id = entry.user_id;
  region = entry.region;
  started_at = entry.timestamp_utc;
  latency_ms = entry.total_latency_ms;
  vector_candidates = entry.candidates_retrieved;
  keyword_candidates = 0;
  blocked_by_acl = entry.candidates_blocked;
  blocked_by_residency = 0;
  reranked_candidates = entry.candidates_allowed;
  decision_mode = "engine_audit_trace";
  shadow_mode = false;
  would_block_by_acl = 0;
  failure_stage = entry.fail_stage;
  error_code = entry.error_code;
  error_message = entry.error_message;
  access_decisions = [];
  immutable_digest = compute_digest f entry;
}

unfoldable pub write_trace_entry :
    Formats → Option (RuntimeTrace → Option GoError) → AuditEntry → Option GoError
write_trace_entry f none entry =
    some (record { chain = []; message = "runtime trace writer unavailable" })
write_trace_entry f (some write_trace) entry = write_trace (trace_of_entry f entry)
