-- ===== src/Examples/Engine.antt =====
-- A query of the engine on three candidates, of which one is of another tenant and one is denied.
use mathlib.Core.List.{Memᴰ}
use mathlib.Core.List.Memᴰ
use groundwork.Base.{
  ℕ, String, ◌≡◌, ◌≢◌, refl, ◌≤◌, true, false, List, [], ◌∷◌, ◌++◌, none, some, map, length, arith,
  ℤ, nat_eq, string_eq, ltb, ◌==◌, All, has_prefix, trim_prefix, positive_or,
}
use groundwork.Engine.Types.{QueryRequest, Candidate, QueryResponse, Platform, SortLaws}
use groundwork.Engine.CircuitBreaker.{
  CircuitBreaker, closed, opened, new_circuit_breaker, allow, report_success, report_failure, ask,
  failed, succeeded, run,
}
use groundwork.Engine.CircuitBreaker.Laws.{IsValid, run-IsValid, outage_probe}
use groundwork.Engine.Config.{TimeoutConfig, default_timeout_config, with_defaults, or_default}
use groundwork.Engine.Filter.{
  AclChecker, checked, Arrival, in_bounds, item_of_check, collect_item, worker, collect,
  nothing_yet, report, filter_chunks, decision_from_candidate,
}
use groundwork.Engine.Filter.Counts.{Balanced, filter_chunks-Balanced, decisions-timed_out}
use groundwork.Engine.Query.{
  AuditEntry, Retrieval, retrieved, Engine, Parts, Run, breaker_or, first_blocked_reason,
  principal_of, rerank, confidence, citation, to_citations, audit_entry_from_trace, retrieve,
  write_entry, write_audit, failure_trace, fail_closed, result_set, query_trace, answer_with,
  after_audit, finish, after_retrieval, execute_with, execute,
}
use groundwork.Engine.Query.Authorized.{execute-in_bounds, execute-authorized}
use groundwork.Engine.Query.Audited.{
  Records, Confirms, no_acl, execute-Records, execute_fails_closed,
}

-- Scores are natural numbers here, and the order of the candidates stays.
abbrev whole : Platform
whole = record {
  F = ℕ;
  times = λ a b. a;
  greater = λ a b. ltb b a;
  zero_score = 0;
  forty_five = 45;
  nought_99 = 99;
  sort_slice = λ A less xs. xs;
  hash_text = λ s. s;
  trace_digest = λ t. t.trace_id;
}

abbrev whole_laws : SortLaws whole
whole_laws = record { sort_mem = λ A less xs x m. m; sort_length = λ A less xs. refl }

abbrev chunk : String → String → Candidate ℕ
chunk tenant id = record {
  chunk = record {
    tenant_id = tenant;
    region = "eu";
    document_id = "plan";
    chunk_id = id;
    chunk_hash = "h";
    page = 1;
    offset = 0;
    text = "text";
    required_scope = "";
    owner_acl_tags = [];
    freshness_score = 1;
    soft_deleted = false;
  };
  rank = 1;
  score = 50;
}

abbrev retrieved_chunks : List (Candidate ℕ)
retrieved_chunks = chunk "acme" "a" ∷ chunk "other" "b" ∷ chunk "acme" "c" ∷ []

abbrev only_a : AclChecker ℕ
only_a req c = checked (c.chunk_id == "a")

abbrev backend : QueryRequest → ℕ → Retrieval ℕ
backend req limit = retrieved retrieved_chunks

abbrev parts : Parts ℕ
parts = record { backend = some backend; acl = some only_a; auditor = some (λ entry. none) }

abbrev arriving : List (Arrival ℕ)
arriving =
    record { candidate = chunk "acme" "c"; got_slot = true }
    ∷ record { candidate = chunk "acme" "a"; got_slot = true }
    ∷ record { candidate = chunk "other" "b"; got_slot = true }
    ∷ []

abbrev run_1 : Run ℕ
run_1 = record {
  started = 1;
  retrieval_asked = 2;
  retrieval_reported = 3;
  acl_asked = 4;
  acl_reported = 5;
  audit_asked = 6;
  audit_reported = 7;
  trace_id = "trace";
  failure_trace_id = "failure";
  latency_ms = 3;
  failure_latency_ms = 3;
  arrivals = arriving;
}

abbrev bob : QueryRequest
bob = record {
  tenant_id = "acme";
  user_id = "bob";
  region = "eu";
  question = "why";
  agent_key_id = 1;
  agent_key_name = "k";
}

abbrev fresh : Engine
fresh = record {
  shadow_mode = false;
  retrieval_circuit = none;
  acl_circuit = none;
  audit_circuit = none;
  written = [];
}

ap_candidate : {a b : Arrival ℕ} → a ≡ b → a.candidate ≡ b.candidate
ap_candidate e = cc

arrivals_retrieved : (a : Arrival ℕ) → Memᴰ a arriving → Memᴰ a.candidate retrieved_chunks
arrivals_retrieved a (Memᴰ.head e) = Memᴰ.tail (Memᴰ.tail (Memᴰ.head (ap_candidate e)))
arrivals_retrieved a (Memᴰ.tail (Memᴰ.head e)) = Memᴰ.head (ap_candidate e)
arrivals_retrieved a (Memᴰ.tail (Memᴰ.tail (Memᴰ.head e))) = Memᴰ.tail (Memᴰ.head (ap_candidate e))
arrivals_retrieved a (Memᴰ.tail (Memᴰ.tail (Memᴰ.tail m))) = absurd (Memᴰ.not-nil m)

abbrev answer : QueryResponse ℕ
answer = (execute whole parts run_1 bob fresh).1

cites_a : answer.citations ≡ citation whole (chunk "acme" "a") ∷ []
unfolding execute execute_with retrieve breaker_or new_circuit_breaker positive_or allow
    after_retrieval report_success report_failure finish filter_chunks collect collect_item worker
    in_bounds item_of_check report result_set rerank query_trace write_audit audit_entry_from_trace
    write_entry after_audit answer_with to_citations citation confidence principal_of
    first_blocked_reason decision_from_candidate fail_closed failure_trace has_prefix trim_prefix
cites_a = refl

execute-authorized_example :
    All
      (λ cited.
        (c : Candidate ℕ) × (cited ≡ citation whole c)
        × Memᴰ c retrieved_chunks
        × (in_bounds bob c ≡ true)
        × (only_a bob c.chunk ≡ checked true))
      (execute whole parts run_1 bob fresh).1.citations
execute-authorized_example =
    execute-authorized whole whole_laws parts run_1 bob backend only_a retrieved_chunks refl refl
      refl arrivals_retrieved fresh refl

abbrev shadowed : Engine
shadowed = record fresh { shadow_mode = true }

execute-in_bounds_example :
    All
      (λ cited.
        (c : Candidate ℕ) × (cited ≡ citation whole c)
        × Memᴰ c retrieved_chunks
        × (in_bounds bob c ≡ true))
      (execute whole parts run_1 bob shadowed).1.citations
    × (length (execute whole parts run_1 bob shadowed).1.citations ≤ 7)
execute-in_bounds_example =
    execute-in_bounds whole whole_laws parts run_1 bob backend only_a retrieved_chunks refl refl
      refl arrivals_retrieved shadowed

answered : (execute whole parts run_1 bob fresh).1.citations ≢ []
answered h = cc (cites_a, h)

execute-Records_example :
    (e : AuditEntry) × ((execute whole parts run_1 bob fresh).0.written ≡ [] ++ (e ∷ []))
    × Records whole bob (execute whole parts run_1 bob fresh).1 e
    × Confirms parts e
execute-Records_example = execute-Records whole parts run_1 bob fresh answered

abbrev no_checker : Parts ℕ
no_checker = record parts { acl = none }

execute_fails_closed_example : (execute whole no_checker run_1 bob fresh).1.citations ≡ []
execute_fails_closed_example = execute_fails_closed whole no_checker run_1 bob fresh (no_acl refl)

abbrev breaker : CircuitBreaker
breaker = record {
  failure_limit = 2;
  open_timeout = 10;
  state = closed;
  consecutive_fails = 0;
  opened_at = 0;
}

abbrev failing : CircuitBreaker
failing = record breaker { consecutive_fails = 1 }

failing-IsValid : IsValid failing
failing-IsValid = ground arith

filter_chunks-Balanced_example :
    Balanced 3 (filter_chunks only_a bob 4 5 breaker retrieved_chunks arriving).0
filter_chunks-Balanced_example =
    filter_chunks-Balanced only_a bob 4 5 breaker retrieved_chunks arriving

abbrev first_arrival : List (Arrival ℕ)
first_arrival = record { candidate = chunk "acme" "c"; got_slot = true } ∷ []

decisions-timed_out_example :
    map
      (λ d. d.chunk_id)
      (collect only_a bob retrieved_chunks 3 first_arrival nothing_yet).0.decisions
    ≡ "c" ∷ "b" ∷ "c" ∷ []
decisions-timed_out_example =
    decisions-timed_out only_a bob retrieved_chunks first_arrival (ground arith)

run-IsValid_example : IsValid (
    run (new_circuit_breaker (ℤ.pos 2) (ℤ.negsuc 0)) (failed 1 ∷ succeeded ∷ failed 2 ∷ ask 3 ∷ []))
run-IsValid_example =
    run-IsValid (ℤ.pos 2) (ℤ.negsuc 0) (failed 1 ∷ succeeded ∷ failed 2 ∷ ask 3 ∷ [])

opens : (report_failure 5 failing).state ≡ opened
unfolding report_failure
opens = refl

outage_probe_example :
    let probed = allow 15 (report_failure 5 failing) in
    (probed.1 ≡ true)
    × ((report_failure 16 probed.0).state ≡ opened)
    × ((report_failure 16 probed.0).opened_at ≡ 16)
    × ((report_success probed.0).state ≡ closed)
    × ((report_success probed.0).consecutive_fails ≡ 0)
outage_probe_example = outage_probe failing 5 15 16 failing-IsValid opens (ground arith)

abbrev unset : TimeoutConfig
unset = record {
  total = ℤ.negsuc 0;
  embedding = ℤ.pos 0;
  qdrant_search = ℤ.pos 5;
  openfga_check = ℤ.negsuc 7;
  audit_write = ℤ.pos 0;
}

-- The defaults leave nothing to default.
with_defaults_twice : with_defaults (with_defaults unset) ≡ with_defaults unset
unfolding with_defaults or_default default_timeout_config
with_defaults_twice = refl
