-- ===== src/Examples/Audit.antt =====
-- The audit chain on a ledger of two tenants.
use groundwork.Base.{
  ℕ, String, ◌≡◌, ◌≢◌, refl, false, [], ◌∷◌, ◌++◌, none, some, arith, string_eq, ok,
}
use groundwork.Engine.Query.{AuditEntry}
use groundwork.Engine.Audit.{broken_link}
use groundwork.Engine.Audit.{
  Formats, join, compute_digest, null_string, null_int64, scan_string, Database, row_of, entry_of,
  before, insert_row, tenant_rows, load_audit_chain, last_digest, latest_digest, has_trace,
  decision_rows, stamp, linked, sealed, write, digest_problem, link_problem, entry_problems,
  verify_from, verify_chain,
}
use groundwork.Engine.Audit.Chain.{write-verify_chain, verify_chain_gap, verify_chain_truncated}

-- A digest that keeps the text whole.
abbrev plain : Formats
plain = record { sha256_hex = λ s. s; rfc3339_nano = λ t. "t"; decimal = λ n. "n" }

abbrev entry : String → ℕ → AuditEntry
entry trace time = record {
  trace_id = trace;
  tenant_id = "acme";
  user_id = "bob";
  query_hash = "q";
  timestamp_utc = time;
  region = "eu";
  candidates_retrieved = 1;
  candidates_allowed = 1;
  candidates_blocked = 0;
  fail_closed = false;
  fail_stage = "";
  error_code = "";
  error_message = "";
  openfga_latency_ms = 0;
  qdrant_latency_ms = 0;
  total_latency_ms = 5;
  circuit_breaker_state = "closed";
  decision_mode = "m";
  acl_decision = "allowed";
  reason = "allowed";
  identity_resolution = "";
  principal_id = "";
  immutable_digest = "";
  previous_hash = "";
  agent_key_id = 1;
  agent_key_name = "k";
  access_decisions = [];
}

abbrev empty : Database
empty = record { audit_log = []; audit_log_decisions = [] }

abbrev after : Database → ℕ → AuditEntry → Database
after db id e = record db { audit_log = row_of id (sealed plain 1 db e) ∷ db.audit_log }

abbrev one : Database
one = after empty 4 (entry "first" 1000)

abbrev two : Database
two = after one 9 (entry "second" 7500)

abbrev three : Database
three = after two 2 (entry "third" 9000)

first_write : write plain none 1 4 (some empty) (entry "first" 1000) ≡ ok one
unfolding write sealed stamp linked latest_digest last_digest tenant_rows has_trace decision_rows
first_write = refl

second_write : write plain none 1 9 (some one) (entry "second" 7500) ≡ ok two
unfolding write sealed has_trace decision_rows row_of linked latest_digest last_digest tenant_rows
    insert_row
second_write = refl

chain_of_one : verify_chain plain (load_audit_chain one "acme") ≡ []
unfolding verify_chain verify_from entry_problems digest_problem link_problem load_audit_chain
    tenant_rows insert_row before entry_of scan_string row_of null_string null_int64 sealed stamp
    linked latest_digest last_digest compute_digest join
chain_of_one = refl

chain_of_three : verify_chain plain (load_audit_chain three "acme") ≡ []
unfolding verify_chain verify_from entry_problems digest_problem link_problem load_audit_chain
    tenant_rows insert_row before entry_of scan_string row_of null_string null_int64 sealed stamp
    linked latest_digest last_digest compute_digest join
chain_of_three = refl

write-verify_chain_example :
    (verify_chain plain (load_audit_chain two "acme") ≡ [])
    × (load_audit_chain two "acme"
        ≡ load_audit_chain one "acme"
          ++ (entry_of (row_of 9 (sealed plain 1 one (entry "second" 7500))) ∷ []))
unfolding tenant_rows insert_row row_of sealed stamp linked latest_digest last_digest
write-verify_chain_example =
    write-verify_chain plain 1 9 one two (entry "second" 7500) chain_of_one (ground arith, tt)
      second_write

abbrev read_first : AuditEntry
read_first = entry_of (row_of 4 (sealed plain 1 empty (entry "first" 1000)))

abbrev read_second : AuditEntry
read_second = entry_of (row_of 9 (sealed plain 1 one (entry "second" 7500)))

abbrev read_third : AuditEntry
read_third = entry_of (row_of 2 (sealed plain 1 two (entry "third" 9000)))

whole_chain : verify_chain plain ([] ++ (read_first ∷ read_second ∷ read_third ∷ [])) ≡ []
unfolding verify_chain verify_from entry_problems digest_problem link_problem load_audit_chain
    tenant_rows insert_row before entry_of scan_string row_of null_string null_int64 sealed stamp
    linked latest_digest last_digest compute_digest join
whole_chain = refl

other_digest : read_first.immutable_digest ≢ read_second.immutable_digest
unfolding entry_of row_of sealed stamp linked latest_digest last_digest tenant_rows insert_row
    compute_digest join
other_digest h =
    absurd
      (cc ((string_eq.equals_iff read_first.immutable_digest read_second.immutable_digest).1 h))

verify_chain_gap_example : verify_chain plain (read_first ∷ read_third ∷ []) ≢ []
verify_chain_gap_example =
    verify_chain_gap plain [] [] read_first read_second read_third whole_chain other_digest

verify_chain_truncated_example :
    (verify_chain plain (read_first ∷ []) ≡ [])
    × (verify_chain plain (read_second ∷ read_third ∷ []) ≡ [])
verify_chain_truncated_example =
    verify_chain_truncated plain (read_first ∷ []) (read_second ∷ read_third ∷ []) whole_chain

-- Two queries that overlap: the one that began first is written last. Nothing was tampered with.
abbrev overlapping : Database
overlapping = after (after empty 4 (entry "late" 9000)) 9 (entry "early" 1000)

overlapping_chain :
    verify_chain plain (load_audit_chain overlapping "acme")
    ≡ record { index = 1; trace_id = "late"; kind = broken_link } ∷ []
unfolding verify_chain verify_from entry_problems digest_problem link_problem load_audit_chain
    tenant_rows insert_row before entry_of scan_string row_of null_string null_int64 sealed stamp
    linked latest_digest last_digest compute_digest join
overlapping_chain = refl
