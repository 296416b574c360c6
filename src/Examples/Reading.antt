-- ===== src/Examples/Reading.antt =====
-- Reading a small ledger page by page, with a codec of unary numbers and marked characters.
use Prim.Native.Char.{code}
use Prim.Native.String.{String}
use groundwork.Base.{
  ℕ, zero, suc, ◌-◌, ◌<◌, ◌≡◌, ◌≢◌, refl, ap, false, [], ◌∷◌, none, some, map, length,
  if◌then◌else◌, nat_beq, Result, ok, err, ℤ, arith, string_eq,
}
use groundwork.Engine.Query.{AuditEntry}
use groundwork.Engine.Audit.{Database, row_of, before}
use groundwork.Engine.AuditQuery.{
  Codec, AuditFilter, scan_read_row, newest_first, insert_newest, keep_rows, selects,
}
use groundwork.Engine.AuditQuery.Pages.{CodecLaws, Descending}
use groundwork.Engine.AuditQuery.Reading.{matching, read_pages, read_pages-matching}

unary : ℕ → String
unary zero = ""
unary (suc n) = String.◌∷◌ "1" (unary n)

size : String → ℕ
size String.[] = 0
size (String.◌∷◌ c s) = suc (size s)

size-unary : (n : ℕ) → size (unary n) ≡ n
unfolding size unary
size-unary zero = refl
size-unary (suc n) = ap suc (size-unary n)

-- Each character of the first text behind an x, then a y and the second text.
pack : String → String → String
pack String.[] t = String.◌∷◌ "y" t
pack (String.◌∷◌ c s) t = String.◌∷◌ "x" (String.◌∷◌ c (pack s t))

unpack : String → Result (String × String)
unpack String.[] = err "no end"
unpack (String.◌∷◌ d String.[]) = ok ("", "")
unpack (String.◌∷◌ d (String.◌∷◌ c s)) =
    let rest = unpack s in
    if nat_beq (code d) 121
    then ok ("", String.◌∷◌ c s)
    else elim rest [ err e ↦ err e | ok (a, t) ↦ ok (String.◌∷◌ c a, t) ]

unpack-pack : (s t : String) → unpack (pack s t) ≡ ok (s, t)
unfolding unpack pack
unpack-pack String.[] String.[] = refl
unpack-pack String.[] (String.◌∷◌ c t) = refl
unpack-pack (String.◌∷◌ c s) t = rw (unpack-pack s t)

pack_filled : (s t : String) → pack s t ≢ ""
unfolding pack
pack_filled String.[] t e = cc e
pack_filled (String.◌∷◌ c s) t e = cc e

marked_filled : (n : ℕ) → String.◌∷◌ "u" (unary n) ≢ ""
marked_filled n e = cc e

abbrev simple : Codec
simple = record {
  base64_encode = λ s. s;
  base64_decode = λ s. ok s;
  marshal = λ p. pack p.0 p.1;
  unmarshal = unpack;
  format_time = unary;
  parse_time = λ s. ok (size s);
  uuid_text = λ n. String.◌∷◌ "u" (unary n);
  uuid_of = λ s. size s - 1;
}

time_law : (n : ℕ) → ok (size (unary n)) ≡ ok n
time_law n = ap (λ m. ok m) (size-unary n)

uuid_law : (n : ℕ) → size (String.◌∷◌ "u" (unary n)) - 1 ≡ n
unfolding size
uuid_law n = rw (size-unary n) (omega arith)

simple_laws : CodecLaws simple
simple_laws = record {
  base64 = λ s. refl;
  json = λ p. unpack-pack p.0 p.1;
  time = time_law;
  uuid = uuid_law;
  uuid_filled = marked_filled;
  filled = λ p. pack_filled p.0 p.1;
}

abbrev entry : String → ℕ → AuditEntry
entry tenant time = record {
  trace_id = "t";
  tenant_id = tenant;
  user_id = "bob";
  query_hash = "q";
  timestamp_utc = time;
  region = "eu";
  candidates_retrieved = 1;
  candidates_allowed = 1;
  candidates_blocked = 0;
  fail_closed = false;
  fail_stage = "";
  error_code = "";
  error_message = "";
  openfga_latency_ms = 0;
  qdrant_latency_ms = 0;
  total_latency_ms = 5;
  circuit_breaker_state = "closed";
  decision_mode = "m";
  acl_decision = "allowed";
  reason = "allowed";
  identity_resolution = "";
  principal_id = "";
  immutable_digest = "d";
  previous_hash = "";
  agent_key_id = 1;
  agent_key_name = "k";
  access_decisions = [];
}

abbrev ledger : Database
ledger = record {
  audit_log =
      row_of 4 (entry "acme" 7)
      ∷ row_of 2 (entry "acme" 9)
      ∷ row_of 3 (entry "other" 8)
      ∷ row_of 1 (entry "acme" 7)
      ∷ [];
  audit_log_decisions = [];
}

abbrev any_row : AuditFilter
any_row = record {
  agent_key_id = none;
  decision_mode = "";
  acl_decision = "";
  region = "";
  fail_closed = none;
  user_id = "";
  from_time = none;
  to_time = none;
}

in_order : Descending (newest_first ledger.audit_log)
unfolding Descending newest_first insert_newest before row_of
in_order = ((refl, (refl, (refl, tt))), ((refl, (refl, tt)), ((refl, tt), (tt, tt))))

few : length (matching ledger "acme" any_row) < 9
unfolding matching keep_rows selects newest_first insert_newest before row_of
few = omega arith

read_pages-matching_example :
    read_pages simple simple_laws ledger "acme" any_row (ℤ.pos 1) 9 ""
    ≡ some (map scan_read_row (matching ledger "acme" any_row))
read_pages-matching_example =
    read_pages-matching simple simple_laws ledger "acme" any_row (ℤ.pos 1) 9 (λ e. cc e) in_order
      few
