-- ===== src/Engine/Filter.antt =====
-- engine/engine.go, `filterChunksConcurrently`: one goroutine for each candidate, whose results
-- arrive in any order, until all have or the deadline of the ACL checks passes.
pub mod Permitted
pub mod Counts
use groundwork.Base.{
  ℕ, suc, String, ◌+◌, ◌-◌, Bool, true, false, ◌&&◌, ◌||◌, not, List, [], ◌∷◌, ◌++◌, Option, none,
  some, map, length, drop, ltb, if◌then◌else◌, ◌==◌, string_eq,
}
use groundwork.Engine.CircuitBreaker.{CircuitBreaker, allow, report_failure, report_success}
use groundwork.Engine.Errors.{GoError, classify_acl_error}
use groundwork.Engine.Types.{QueryRequest, Chunk, Candidate, AccessDecision}

pub data CheckResult : Type 0 where
  checked : Bool → CheckResult
  check_failed : GoError → CheckResult

-- `ACLChecker.CanAccess`. Within one query an answer depends on the request and the chunk alone.
abbrev pub AclChecker : Type 0 → Type 0
AclChecker F = QueryRequest → Chunk F → CheckResult

unfoldable pub decision_from_candidate : {F : Type 0} → Candidate F → Bool → String → AccessDecision
decision_from_candidate candidate allowed reason = record {
  chunk_id = candidate.chunk.chunk_id;
  chunk_hash = candidate.chunk.chunk_hash;
  document_id = candidate.chunk.document_id;
  allowed = allowed;
  reason = reason;
  region = candidate.chunk.region;
  required_scope = candidate.chunk.required_scope;
}

-- The local type `result`; `failed` says that its `err` is not nil.
pub record Item (F : Type 0) : Type 0 where
  pub candidate : Candidate F
  pub allowed : Bool
  pub region_ok : Bool
  pub reason : String
  pub failed : Bool

-- What `filterChunksConcurrently` returns, and its count of ACL errors.
pub record Outcome (F : Type 0) : Type 0 where
  pub permitted : List (Candidate F)
  pub blocked_acl : ℕ
  pub blocked_region : ℕ
  pub decisions : List AccessDecision
  pub blocked_valid : List (Candidate F)
  pub acl_errors : ℕ

-- A result that was received: the candidate, and whether its goroutine got a slot of the
-- semaphore before the deadline.
pub record Arrival (F : Type 0) : Type 0 where
  pub candidate : Candidate F
  pub got_slot : Bool

unfoldable pub in_bounds : {F : Type 0} → QueryRequest → Candidate F → Bool
in_bounds req item = item.chunk.region == req.region && item.chunk.tenant_id == req.tenant_id

module _ {F : Type 0} where
  -- The result of a check, as the goroutine sends it.
  unfoldable pub item_of_check : Candidate F → CheckResult → Item F
  item_of_check c (check_failed e) = record {
    candidate = c;
    allowed = false;
    region_ok = true;
    reason = classify_acl_error e;
    failed = true;
  }
  item_of_check c (checked false) = record {
    candidate = c;
    allowed = false;
    region_ok = true;
    reason = "acl_denied";
    failed = false;
  }
  item_of_check c (checked true) = record {
    candidate = c;
    allowed = true;
    region_ok = true;
    reason = "allowed";
    failed = false;
  }

  -- The case of the collecting loop for a received result.
  unfoldable pub collect_item : Item F → Outcome F → Outcome F
  collect_item item o =
      let decided =
        o.decisions
        ++ (decision_from_candidate item.candidate (item.allowed && item.region_ok) item.reason
            ∷ []) in
      if not item.region_ok
      then record o { decisions = decided; blocked_region = o.blocked_region + 1 }
      else let errors = if item.failed then o.acl_errors + 1 else o.acl_errors in
        if not item.allowed
        then record o {
          decisions = decided;
          acl_errors = errors;
          blocked_acl = o.blocked_acl + 1;
          blocked_valid = o.blocked_valid ++ (item.candidate ∷ []);
        }
        else record o {
          decisions = decided;
          acl_errors = errors;
          permitted = o.permitted ++ (item.candidate ∷ []);
        }

  -- The case of the collecting loop for the deadline: the undecided rest is taken to be the
  -- candidates from the number of decisions on.
  unfoldable pub timed_out : List (Candidate F) → Outcome F → Outcome F
  timed_out candidates o = record o {
    blocked_acl = o.blocked_acl + (length candidates - length o.decisions);
    decisions =
        o.decisions
        ++ map (λ c. decision_from_candidate c false "acl_timeout_fail_closed")
            (drop (length o.decisions) candidates);
    acl_errors = o.acl_errors + 1;
  }

  abbrev pub nothing_yet : Outcome F
  nothing_yet = record {
    permitted = [];
    blocked_acl = 0;
    blocked_region = 0;
    decisions = [];
    blocked_valid = [];
    acl_errors = 0;
  }

  -- With an open breaker nothing is checked, and every candidate counts as blocked.
  unfoldable pub all_blocked : List (Candidate F) → Outcome F
  all_blocked candidates = record {
    permitted = [];
    blocked_acl = length candidates;
    blocked_region = 0;
    decisions =
        map (λ c. decision_from_candidate c false "acl_circuit_open_fail_closed") candidates;
    blocked_valid = [];
    acl_errors = 0;
  }

  -- The report to the breaker: a failure on the deadline or on any ACL error, else a success.
  unfoldable pub report : ℕ → CircuitBreaker → Outcome F × Bool → CircuitBreaker
  report now breaker (o, late) =
      if late || ltb 0 o.acl_errors then report_failure now breaker else report_success breaker

module _ {F : Type 0} (acl : AclChecker F) (req : QueryRequest) where
  -- The body of the goroutine.
  unfoldable pub worker : Arrival F → Item F
  unfolding item_of_check
  worker a =
      if not (in_bounds req a.candidate)
      then record {
        candidate = a.candidate;
        allowed = false;
        region_ok = false;
        reason = "wrong_tenant";
        failed = false;
      }
      else if a.got_slot
      then item_of_check a.candidate (acl req a.candidate.chunk)
      else record {
        candidate = a.candidate;
        allowed = false;
        region_ok = true;
        reason = "acl_timeout_fail_closed";
        failed = true;
      }

  -- The loop, for the rounds left. Where no arrival is left, the deadline is what is received.
  unfoldable pub collect : List (Candidate F) → ℕ → List (Arrival F) → Outcome F → Outcome F × Bool
  collect candidates ℕ.zero arrivals o = (o, false)
  collect candidates (suc rounds) [] o = (timed_out candidates o, true)
  collect candidates (suc rounds) (a ∷ arrivals) o =
      collect candidates rounds arrivals (collect_item (worker a) o)

  -- `asked` and `reported` are the clock's readings at the two uses of the breaker.
  unfoldable pub filter_chunks :
      ℕ → ℕ → CircuitBreaker → List (Candidate F) → List (Arrival F) → Outcome F × CircuitBreaker
  filter_chunks asked reported breaker candidates arrivals =
      let (breaker', admitted) = allow asked breaker in
      if admitted
      then (let done = collect candidates (length candidates) arrivals nothing_yet in
          (done.0, report reported breaker' done))
      else (all_blocked candidates, breaker')
