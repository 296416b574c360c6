-- ===== src/Engine/Audit.antt =====
-- engine/trace.go: the audit ledger in its two tables, with the writer, the loader and the verifier
-- of a tenant's chain.
pub mod Chain
use groundwork.Base.{
  ℕ, zero, suc, String, ◌<>◌, ◌+◌, ◌-◌, ◌%◌, Bool, true, false, ◌&&◌, ◌||◌, not, List, [], ◌∷◌,
  ◌++◌, Option, none, some, map, ltb, nat_beq, if◌then◌else◌, ◌==◌, string_eq, nat_eq, Result, ok,
  err,
}
use groundwork.Engine.Types.{AccessDecision}
use groundwork.Engine.Query.{AuditEntry}

-- SHA-256 in hex, and the texts of a time and of a number.
pub record Formats : Type 0 where
  pub sha256_hex : String → String
  pub rfc3339_nano : ℕ → String
  pub decimal : ℕ → String

-- `strings.Join`
unfoldable pub join : List String → String → String
join [] sep = ""
join (s ∷ []) sep = s
join (s ∷ t ∷ rest) sep = s <> sep <> join (t ∷ rest) sep

unfoldable pub compute_digest : Formats → AuditEntry → String
unfolding join
compute_digest f e = f.sha256_hex (
    join
      (e.trace_id
        ∷ e.tenant_id
        ∷ e.user_id
        ∷ e.query_hash
        ∷ f.rfc3339_nano e.timestamp_utc
        ∷ e.region
        ∷ f.decimal e.candidates_retrieved
        ∷ f.decimal e.candidates_allowed
        ∷ f.decimal e.candidates_blocked
        ∷ (if e.fail_closed then "true" else "false")
        ∷ e.fail_stage
        ∷ e.error_code
        ∷ e.error_message
        ∷ f.decimal e.openfga_latency_ms
        ∷ f.decimal e.qdrant_latency_ms
        ∷ f.decimal e.total_latency_ms
        ∷ e.circuit_breaker_state
        ∷ e.decision_mode
        ∷ e.acl_decision
        ∷ e.reason
        ∷ e.identity_resolution
        ∷ e.principal_id
        ∷ e.previous_hash
        ∷ [])
      "\u{1f}")

-- `nullString`, `nullInt64`, and what a scan makes of a NULL.
unfoldable pub null_string : String → Option String
null_string value = if value == "" then none else some value

unfoldable pub null_int64 : ℕ → Option ℕ
null_int64 value = if nat_beq value 0 then none else some value

unfoldable pub scan_string : Option String → String
scan_string none = ""
scan_string (some value) = value

-- A row of `audit_log`: the NOT NULL columns stand in `stored`, the others beside it. The `id` is a
-- random UUID, here its place in the order of the UUIDs.
pub record Row : Type 0 where
  pub id : ℕ
  pub stored : AuditEntry
  pub fail_stage : Option String
  pub error_code : Option String
  pub error_message : Option String
  pub previous_hash : Option String
  pub agent_key_id : Option ℕ
  pub agent_key_name : Option String

-- A row of `audit_log_decisions`.
pub record DecisionRow : Type 0 where
  pub trace_id : String
  pub tenant_id : String
  pub ordinal : ℕ
  pub chunk_id : String
  pub document_id : Option String
  pub allowed : Bool
  pub reason : Option String
  pub required_scope : Option String
  pub region : Option String

pub record Database : Type 0 where
  pub audit_log : List Row
  pub audit_log_decisions : List DecisionRow

-- The arguments of the INSERT.
unfoldable pub row_of : ℕ → AuditEntry → Row
unfolding null_string null_int64
row_of id entry = record {
  id = id;
  stored = entry;
  fail_stage = null_string entry.fail_stage;
  error_code = null_string entry.error_code;
  error_message = null_string entry.error_message;
  previous_hash = null_string entry.previous_hash;
  agent_key_id = null_int64 entry.agent_key_id;
  agent_key_name = null_string entry.agent_key_name;
}

-- The scan of `LoadAuditChain`, which does not select the agent's key and the decisions.
unfoldable pub entry_of : Row → AuditEntry
unfolding scan_string
entry_of row = record row.stored {
  fail_stage = scan_string row.fail_stage;
  error_code = scan_string row.error_code;
  error_message = scan_string row.error_message;
  previous_hash = scan_string row.previous_hash;
  agent_key_id = 0;
  agent_key_name = "";
  access_decisions = [];
}

-- `ORDER BY timestamp_utc ASC, id ASC`
unfoldable pub before : Row → Row → Bool
before a b =
    ltb a.stored.timestamp_utc b.stored.timestamp_utc
    || (nat_beq a.stored.timestamp_utc b.stored.timestamp_utc && ltb a.id b.id)

unfoldable pub insert_row : Row → List Row → List Row
insert_row r [] = r ∷ []
insert_row r (x ∷ xs) = let rest = insert_row r xs in if before r x then r ∷ x ∷ xs else x ∷ rest

-- `WHERE tenant_id = $1`, in that order.
unfoldable pub tenant_rows : String → List Row → List Row
tenant_rows tenant [] = []
tenant_rows tenant (r ∷ rows) =
    let rest = tenant_rows tenant rows in
    if r.stored.tenant_id == tenant then insert_row r rest else rest

unfoldable pub load_audit_chain : Database → String → List AuditEntry
load_audit_chain db tenant = map entry_of (tenant_rows tenant db.audit_log)

unfoldable pub last_digest : List AuditEntry → Option String
last_digest [] = none
last_digest (e ∷ []) = some e.immutable_digest
last_digest (e ∷ f ∷ es) = last_digest (f ∷ es)

-- `ORDER BY timestamp_utc DESC, id DESC LIMIT 1`
unfoldable pub latest_digest : Database → String → Option String
latest_digest db tenant = last_digest (map (λ r. r.stored) (tenant_rows tenant db.audit_log))

unfoldable pub has_trace : String → List Row → Bool
has_trace trace [] = false
has_trace trace (r ∷ rows) = r.stored.trace_id == trace || has_trace trace rows

-- The rows of the second INSERT, from an ordinal on.
unfoldable pub decision_rows : AuditEntry → ℕ → List AccessDecision → List DecisionRow
decision_rows entry i [] = []
decision_rows entry i (d ∷ ds) =
    record {
      trace_id = entry.trace_id;
      tenant_id = entry.tenant_id;
      ordinal = i;
      chunk_id = d.chunk_id;
      document_id = null_string d.document_id;
      allowed = d.allowed;
      reason = null_string d.reason;
      required_scope = null_string d.required_scope;
      region = null_string d.region;
    }
    ∷ decision_rows entry (suc i) ds

-- The time that is stored, cut to microseconds. Times are in nanoseconds, and 0 is the zero time.
unfoldable pub stamp : ℕ → ℕ → ℕ
stamp now time = let t = if nat_beq time 0 then now else time in t - t % 1000

unfoldable pub linked : Option String → AuditEntry → AuditEntry
linked none entry = entry
linked (some digest) entry = record entry { previous_hash = digest }

-- The entry as it is inserted: with its time and its two hashes.
unfoldable pub sealed : Formats → ℕ → Database → AuditEntry → AuditEntry
unfolding linked
sealed f now db entry =
    let e =
      linked (latest_digest db entry.tenant_id)
        (record entry { timestamp_utc = stamp now entry.timestamp_utc }) in
    record e { immutable_digest = compute_digest f e }

-- `Write`. A nil database and an error of any statement leave the tables as they are; so does a
-- trace that is already there, since `trace_id` is unique. `id` is the one that the database makes.
unfoldable pub write :
    Formats → Option String → ℕ → ℕ → Option Database → AuditEntry → Result Database
write f fault now id none entry = err "postgres audit writer unavailable"
write f (some e) now id (some db) entry = err e
write f none now id (some db) entry =
    let e = sealed f now db entry in
    if has_trace e.trace_id db.audit_log
    then err "duplicate key value violates unique constraint"
    else ok (record {
      audit_log = row_of id e ∷ db.audit_log;
      audit_log_decisions = decision_rows e 0 e.access_decisions ++ db.audit_log_decisions;
    })

pub data ProblemKind : Type 0 where
  digest_mismatch : ProblemKind
  broken_link : ProblemKind

-- `ChainProblem`, without the text of its detail.
pub record ChainProblem : Type 0 where
  pub index : ℕ
  pub trace_id : String
  pub kind : ProblemKind

-- The two tests in the loop of `VerifyChain`, of one entry, after the digest before it.
unfoldable pub digest_problem : Formats → ℕ → AuditEntry → List ChainProblem
digest_problem f i e =
    if compute_digest f e == e.immutable_digest
    then []
    else record { index = i; trace_id = e.trace_id; kind = digest_mismatch } ∷ []

unfoldable pub link_problem : ℕ → String → AuditEntry → List ChainProblem
link_problem i prev_digest e =
    if ltb 0 i && not (e.previous_hash == prev_digest)
    then record { index = i; trace_id = e.trace_id; kind = broken_link } ∷ []
    else []

unfoldable pub entry_problems : Formats → ℕ → String → AuditEntry → List ChainProblem
entry_problems f i prev_digest e = digest_problem f i e ++ link_problem i prev_digest e

unfoldable pub verify_from : Formats → ℕ → String → List AuditEntry → List ChainProblem
verify_from f i prev_digest [] = []
verify_from f i prev_digest (e ∷ es) =
    entry_problems f i prev_digest e ++ verify_from f (suc i) e.immutable_digest es

unfoldable pub verify_chain : Formats → List AuditEntry → List ChainProblem
verify_chain f entries = verify_from f 0 "" entries
