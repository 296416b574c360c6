-- ===== src/Engine/Query.antt =====
-- engine/engine.go: `Execute` with all that it calls, as a function from the engine's state.
pub mod Citations
pub mod Authorized
pub mod Audited
use groundwork.Base.{
  ℕ, zero, suc, String, ◌<>◌, ◌+◌, Bool, true, false, ◌&&◌, ◌||◌, not, List, [], ◌∷◌, ◌++◌, Option,
  none, some, map, length, take, ltb, nat_beq, if◌then◌else◌, ◌==◌, string_eq, ℤ, has_prefix,
  trim_prefix,
}
use groundwork.Engine.CircuitBreaker.{
  CircuitBreaker, new_circuit_breaker, allow, report_failure, report_success,
}
use groundwork.Engine.Errors.{GoError, circuit_open, classify_engine_error}
use groundwork.Engine.Types.{
  QueryRequest, Chunk, Candidate, Citation, AccessDecision, RuntimeTrace, QueryResponse, Platform,
}
use groundwork.Engine.Filter.{AclChecker, Arrival, Outcome, filter_chunks}

-- engine/trace.go, `AuditEntry`. The latencies of the two backends are never set by the engine.
pub record AuditEntry : Type 0 where
  pub trace_id : String
  pub tenant_id : String
  pub user_id : String
  pub query_hash : String
  pub timestamp_utc : ℕ
  pub region : String
  pub candidates_retrieved : ℕ
  pub candidates_allowed : ℕ
  pub candidates_blocked : ℕ
  pub fail_closed : Bool
  pub fail_stage : String
  pub error_code : String
  pub error_message : String
  pub openfga_latency_ms : ℕ
  pub qdrant_latency_ms : ℕ
  pub total_latency_ms : ℕ
  pub circuit_breaker_state : String
  pub decision_mode : String
  pub acl_decision : String
  pub reason : String
  pub identity_resolution : String
  pub principal_id : String
  pub immutable_digest : String
  pub previous_hash : String
  pub agent_key_id : ℕ
  pub agent_key_name : String
  pub access_decisions : List AccessDecision

pub data Retrieval (F : Type 0) : Type 0 where
  retrieved : List (Candidate F) → Retrieval F
  retrieval_failed : GoError → Retrieval F

-- The breakers are nil until their first use. `written` lists the entries whose write the auditor
-- has confirmed; the program keeps no such list.
pub record Engine : Type 0 where
  pub shadow_mode : Bool
  pub retrieval_circuit : Option CircuitBreaker
  pub acl_circuit : Option CircuitBreaker
  pub audit_circuit : Option CircuitBreaker
  pub written : List AuditEntry

-- The parts that an engine is built from; `none` is a nil interface. An auditor answers a write
-- with an error or nil.
pub record Parts (F : Type 0) : Type 0 where
  pub backend : Option (QueryRequest → ℕ → Retrieval F)
  pub acl : Option (AclChecker F)
  pub auditor : Option (AuditEntry → Option GoError)

-- One call's readings of the clock and of the random source, and the arrivals of the ACL results.
pub record Run (F : Type 0) : Type 0 where
  pub started : ℕ
  pub retrieval_asked : ℕ
  pub retrieval_reported : ℕ
  pub acl_asked : ℕ
  pub acl_reported : ℕ
  pub audit_asked : ℕ
  pub audit_reported : ℕ
  pub trace_id : String
  pub failure_trace_id : String
  pub latency_ms : ℕ
  pub failure_latency_ms : ℕ
  pub arrivals : List (Arrival F)

-- The breaker, made on first use.
unfoldable pub breaker_or : Option CircuitBreaker → ℕ → ℕ → CircuitBreaker
breaker_or (some c) limit timeout = c
breaker_or none limit timeout = new_circuit_breaker (ℤ.pos limit) (ℤ.pos timeout)

unfoldable pub first_blocked_reason : List AccessDecision → String
first_blocked_reason [] = "no_results"
first_blocked_reason (d ∷ ds) =
    if d.allowed then first_blocked_reason ds else if d.reason == "" then "denied" else d.reason

-- `strings.TrimPrefix(UserID, "principal:")`, and whether it took anything off.
unfoldable pub principal_of : String → String × String
principal_of user =
    if has_prefix user "principal:" then ("resolved", trim_prefix user "principal:") else ("", "")

module _ (p : Platform) where
  open p use {
    F, times, greater, zero_score, forty_five, nought_99, sort_slice, hash_text, trace_digest,
  }

  unfoldable pub rerank : List (Candidate F) → ℕ → List (Candidate F)
  rerank candidates limit = take limit (
      sort_slice (Candidate F)
        (λ a b.
          greater (times a.score a.chunk.freshness_score) (times b.score b.chunk.freshness_score))
        candidates)

  unfoldable pub confidence : List (Candidate F) → F
  confidence [] = zero_score
  confidence (c ∷ cs) =
      let score = times c.score forty_five in if greater score nought_99 then nought_99 else score

  unfoldable pub citation : Candidate F → Citation F
  citation c = record {
    document_id = c.chunk.document_id;
    chunk_id = c.chunk.chunk_id;
    chunk_hash = c.chunk.chunk_hash;
    page = c.chunk.page;
    offset = c.chunk.offset;
    text = c.chunk.text;
    score = c.score;
    freshness_score = c.chunk.freshness_score;
  }

  unfoldable pub to_citations : List (Candidate F) → List (Citation F)
  to_citations cs = map citation cs

  -- `auditEntryFromTrace`
  unfoldable pub audit_entry_from_trace : RuntimeTrace → QueryRequest → AuditEntry
  unfolding principal_of first_blocked_reason
  audit_entry_from_trace t req =
      let blocked = t.blocked_by_acl + t.blocked_by_residency in
      let failed = not (t.failure_stage == "") in
      let resolved = principal_of t.user_id in
      record {
        trace_id = t.trace_id;
        tenant_id = t.tenant_id;
        user_id = t.user_id;
        query_hash = hash_text req.question;
        timestamp_utc = t.started_at;
        region = t.region;
        candidates_retrieved = t.vector_candidates + t.keyword_candidates;
        candidates_allowed = t.reranked_candidates;
        candidates_blocked = if failed && nat_beq blocked 0 then t.vector_candidates else blocked;
        fail_closed = failed;
        fail_stage = t.failure_stage;
        error_code = t.error_code;
        error_message = t.error_message;
        openfga_latency_ms = 0;
        qdrant_latency_ms = 0;
        total_latency_ms = t.latency_ms;
        circuit_breaker_state = "closed";
        decision_mode = t.decision_mode;
        acl_decision =
            if failed
            then "fail_closed"
            else if nat_beq t.reranked_candidates 0
            then "denied"
            else "allowed";
        reason =
            if failed
            then t.error_code
            else if nat_beq t.reranked_candidates 0
            then first_blocked_reason t.access_decisions
            else "allowed";
        identity_resolution = resolved.0;
        principal_id = resolved.1;
        immutable_digest = "";
        previous_hash = "";
        agent_key_id = req.agent_key_id;
        agent_key_name = req.agent_key_name;
        access_decisions = t.access_decisions;
      }

  module _ (parts : Parts F) (run : Run F) (req : QueryRequest) where
    -- `retrieve`
    unfoldable pub retrieve : Engine → (QueryRequest → ℕ → Retrieval F) → ℕ → Engine × Retrieval F
    retrieve e backend limit =
        let (c, admitted) =
          allow run.retrieval_asked (breaker_or e.retrieval_circuit 3 10_000_000_000) in
        if not admitted
        then (
          record e { retrieval_circuit = some c },
          retrieval_failed
              (record { chain = circuit_open ∷ []; message = "circuit_open_fail_closed" }),
        )
        else elim (backend req limit) [
          | retrieval_failed err ↦ (
            record e { retrieval_circuit = some (report_failure run.retrieval_reported c) },
            retrieval_failed err,
          )
          | retrieved cs ↦ (record e { retrieval_circuit = some (report_success c) }, retrieved cs)
        ]

    -- The rest of `writeAudit`, once the breaker has admitted the write.
    unfoldable pub write_entry :
        Engine → CircuitBreaker → AuditEntry → Option GoError → Engine × Option GoError
    write_entry e c entry (some err) =
        (record e { audit_circuit = some (report_failure run.audit_reported c) }, some err)
    write_entry e c entry none = (
      record e { audit_circuit = some (report_success c); written = e.written ++ (entry ∷ []) },
      none,
    )

    unfoldable pub write_audit : Engine → RuntimeTrace → Engine × Option GoError
    unfolding write_entry
    write_audit e trace = elim parts.auditor [
      | none ↦ (e, some (record { chain = []; message = "audit writer unavailable" }))
      | some write ↦
          let (c, admitted) = allow run.audit_asked (breaker_or e.audit_circuit 5 30_000_000_000) in
          let entry = audit_entry_from_trace trace req in
          if admitted then write_entry e c entry (write entry) else (
            record e { audit_circuit = some c },
            some (record { chain = circuit_open ∷ []; message = "circuit_open_fail_closed" }),
          )
    ]

    -- The digest is computed over the trace with an empty digest.
    unfoldable pub failure_trace : String → String → GoError → RuntimeTrace
    failure_trace stage error_code err =
        let t : RuntimeTrace = record {
          trace_id = run.failure_trace_id;
          tenant_id = req.tenant_id;
          user_id = req.user_id;
          region = req.region;
          started_at = run.started;
          latency_ms = run.failure_latency_ms;
          vector_candidates = 0;
          keyword_candidates = 0;
          blocked_by_acl = 0;
          blocked_by_residency = 0;
          reranked_candidates = 0;
          decision_mode = "engine_fail_closed";
          shadow_mode = false;
          would_block_by_acl = 0;
          failure_stage = stage;
          error_code = error_code;
          error_message = err.message;
          access_decisions =
              record {
                chunk_id = "";
                chunk_hash = "";
                document_id = "";
                allowed = false;
                reason = error_code;
                region = "";
                required_scope = "";
              }
              ∷ [];
          immutable_digest = "";
        } in
        record t { immutable_digest = trace_digest t }

    abbrev pub no_answer : String
    no_answer = "No grounded answer was found in the permitted source set."

    unfoldable pub fail_closed : Engine → String → String → GoError → Engine × QueryResponse F
    unfolding failure_trace
    fail_closed e stage error_code err =
        let t = failure_trace stage error_code err in
        (
          (if stage == "audit" then e else (write_audit e t).0),
          record { answer = no_answer; confidence = zero_score; citations = []; trace = t },
        )

    -- `resultSet`, and the trace that `Execute` builds.
    unfoldable pub result_set : Engine → Outcome F → List (Candidate F)
    result_set e o = if e.shadow_mode then o.permitted ++ o.blocked_valid else o.permitted

    unfoldable pub query_trace :
        Engine → List (Candidate F) → Outcome F → List (Candidate F) → RuntimeTrace
    query_trace e candidates o reranked =
        let t : RuntimeTrace = record {
          trace_id = run.trace_id;
          tenant_id = req.tenant_id;
          user_id = req.user_id;
          region = req.region;
          started_at = run.started;
          latency_ms = run.latency_ms;
          vector_candidates = length candidates;
          keyword_candidates = 0;
          blocked_by_acl = if e.shadow_mode then 0 else o.blocked_acl;
          blocked_by_residency = o.blocked_region;
          reranked_candidates = length reranked;
          decision_mode =
              if e.shadow_mode then "engine_shadow_observe" else "engine_live_acl_fail_closed";
          shadow_mode = e.shadow_mode;
          would_block_by_acl = if e.shadow_mode then o.blocked_acl else 0;
          failure_stage = "";
          error_code = "";
          error_message = "";
          access_decisions = o.decisions;
          immutable_digest = "";
        } in
        record t { immutable_digest = trace_digest t }

    -- The answer after a confirmed audit write.
    unfoldable pub answer_with : RuntimeTrace → List (Candidate F) → QueryResponse F
    unfolding to_citations
    answer_with t [] = record {
      answer = no_answer;
      confidence = zero_score;
      citations = [];
      trace = t;
    }
    answer_with t (c ∷ cs) = record {
      answer = "Grounded answer assembled from permitted, region-valid chunks.";
      confidence = confidence (c ∷ cs);
      citations = to_citations (c ∷ cs);
      trace = t;
    }

    unfoldable pub after_audit :
        Engine → RuntimeTrace → List (Candidate F) → Option GoError → Engine × QueryResponse F
    after_audit e t reranked (some err) = fail_closed e "audit" "audit_write_failed" err
    after_audit e t reranked none = (e, answer_with t reranked)

    -- From the candidates on.
    unfoldable pub finish : Engine → AclChecker F → List (Candidate F) → Engine × QueryResponse F
    finish e acl candidates =
        let (o, c) =
          filter_chunks acl req run.acl_asked run.acl_reported
            (breaker_or e.acl_circuit 3 10_000_000_000) candidates run.arrivals in
        let e1 = record e { acl_circuit = some c } in
        let reranked = rerank (result_set e o) 7 in
        let t = query_trace e candidates o reranked in
        let (e2, audit_error) = write_audit e1 t in after_audit e2 t reranked audit_error

    unfoldable pub after_retrieval : Engine → AclChecker F → Retrieval F → Engine × QueryResponse F
    after_retrieval e acl (retrieval_failed err) =
        fail_closed e "qdrant" (classify_engine_error "qdrant" err) err
    after_retrieval e acl (retrieved candidates) = finish e acl candidates

    -- From the tests of the two interfaces on.
    unfoldable pub execute_with :
        Engine
        → Option (QueryRequest → ℕ → Retrieval F)
        → Option (AclChecker F)
        → Engine × QueryResponse F
    execute_with e none acl =
        fail_closed e "retrieval" "retrieval_backend_unavailable"
          (record { chain = []; message = "retrieval backend unavailable" })
    execute_with e (some backend) none =
        fail_closed e "acl" "acl_backend_unavailable"
          (record { chain = []; message = "acl backend unavailable" })
    execute_with e (some backend) (some acl) =
        let (e1, found) = retrieve e backend 50 in after_retrieval e1 acl found

    unfoldable pub execute : Engine → Engine × QueryResponse F
    execute e =
        if req.tenant_id == "" || req.user_id == "" || req.region == ""
        then fail_closed e "validation" "missing_verified_tenant_context" (record {
          chain = [];
          message = "tenant, region, and user must be verified before engine execution";
        })
        else execute_with e parts.backend parts.acl
