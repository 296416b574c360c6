-- ===== src/Engine/AuditQuery.antt =====
-- engine/audit_query.go: reading the audit ledger, a page at a time.
pub mod Pages
pub mod Reading
use groundwork.Base.{
  ℕ, zero, suc, String, ◌<>◌, ◌+◌, ◌-◌, Bool, true, false, ◌&&◌, ◌||◌, not, List, [], ◌∷◌, Option,
  none, some, map, ltb, leb, nat_beq, length, take, if◌then◌else◌, ◌==◌, string_eq, nat_eq, Result,
  ok, err, ℤ, positive_or,
}
use groundwork.Engine.Query.{AuditEntry}
use groundwork.Engine.Audit.{
  Formats, Row, Database, before, scan_string, load_audit_chain, ChainProblem, verify_chain,
}

-- What the cursor is made with: base64, JSON, the texts of times and of the ids.
pub record Codec : Type 0 where
  pub base64_encode : String → String
  pub base64_decode : String → Result String
  pub marshal : String × String → String
  pub unmarshal : String → Result (String × String)
  pub format_time : ℕ → String
  pub parse_time : String → Result ℕ
  pub uuid_text : ℕ → String
  pub uuid_of : String → ℕ

-- `AuditFilter`; a time that is zero, and a key id that is not positive, are none.
pub record AuditFilter : Type 0 where
  pub agent_key_id : Option ℕ
  pub decision_mode : String
  pub acl_decision : String
  pub region : String
  pub fail_closed : Option Bool
  pub user_id : String
  pub from_time : Option ℕ
  pub to_time : Option ℕ

pub record AuditPage : Type 0 where
  pub entries : List AuditEntry
  pub next_cursor : String

unfoldable pub encode_audit_cursor : Codec → ℕ → String → String
encode_audit_cursor c ts id = c.base64_encode (c.marshal (c.format_time ts, id))

unfoldable pub parsed_cursor : Codec → Result (String × String) → Result (ℕ × String)
parsed_cursor c (err e) = err ("json: " <> e)
parsed_cursor c (ok (ts, id)) = elim (c.parse_time ts) [
  | err e ↦ err ("ts: " <> e)
  | ok t ↦ if id == "" then err "empty id" else ok (t, id)
]

unfoldable pub decode_audit_cursor : Codec → String → Result (ℕ × String)
unfolding parsed_cursor
decode_audit_cursor c s = elim (c.base64_decode s) [
  | err e ↦ err ("base64: " <> e)
  | ok raw ↦ parsed_cursor c (c.unmarshal raw)
]

abbrev bool_beq : Bool → Bool → Bool
bool_beq true b = b
bool_beq false b = not b

-- A condition that is asked for, on a value and on a column that may be NULL.
abbrev pub text_is : String → String → Bool
text_is asked value = asked == "" || asked == value

abbrev pub key_is : Option ℕ → Option ℕ → Bool
key_is none value = true
key_is (some asked) none = false
key_is (some asked) (some value) = asked == value

abbrev pub flag_is : Option Bool → Bool → Bool
flag_is none value = true
flag_is (some asked) value = bool_beq asked value

abbrev pub from_is : Option ℕ → ℕ → Bool
from_is none t = true
from_is (some start) t = leb start t

abbrev pub to_is : Option ℕ → ℕ → Bool
to_is none t = true
to_is (some end) t = ltb t end

-- The WHERE clause without the cursor's condition.
unfoldable pub selects : String → AuditFilter → Row → Bool
selects tenant f r =
    r.stored.tenant_id == tenant
    && key_is f.agent_key_id r.agent_key_id
    && text_is f.decision_mode r.stored.decision_mode
    && text_is f.acl_decision r.stored.acl_decision
    && text_is f.region r.stored.region
    && flag_is f.fail_closed r.stored.fail_closed
    && text_is f.user_id r.stored.user_id
    && from_is f.from_time r.stored.timestamp_utc
    && to_is f.to_time r.stored.timestamp_utc

-- `(timestamp_utc, id) < ($2, $3)`, with a cursor.
unfoldable pub older : Option (ℕ × ℕ) → Row → Bool
older none r = true
older (some (ts, id)) r =
    ltb r.stored.timestamp_utc ts || (nat_beq r.stored.timestamp_utc ts && ltb r.id id)

-- `ORDER BY timestamp_utc DESC, id DESC`
unfoldable pub insert_newest : Row → List Row → List Row
unfolding before
insert_newest r [] = r ∷ []
insert_newest r (x ∷ xs) =
    let rest = insert_newest r xs in if before x r then r ∷ x ∷ xs else x ∷ rest

unfoldable pub newest_first : List Row → List Row
unfolding insert_newest
newest_first [] = []
newest_first (r ∷ rows) = insert_newest r (newest_first rows)

unfoldable pub keep_rows : (Row → Bool) → List Row → List Row
keep_rows p [] = []
keep_rows p (r ∷ rows) = let rest = keep_rows p rows in if p r then r ∷ rest else rest

-- The query, with its LIMIT.
unfoldable pub query_rows : Database → String → AuditFilter → Option (ℕ × ℕ) → ℕ → List Row
unfolding selects older newest_first keep_rows
query_rows db tenant f cursor limit =
    take limit (keep_rows (λ r. selects tenant f r && older cursor r) (newest_first db.audit_log))

-- `scanReadRow`: the list view has no digests and no decisions.
unfoldable pub scan_read_row : Row → AuditEntry
scan_read_row r = record r.stored {
  fail_stage = scan_string r.fail_stage;
  error_code = scan_string r.error_code;
  error_message = scan_string r.error_message;
  immutable_digest = "";
  previous_hash = "";
  agent_key_id = elim r.agent_key_id [ none ↦ 0 | some id ↦ id ];
  agent_key_name = scan_string r.agent_key_name;
  access_decisions = [];
}

-- The cursor that the last of the rows gives.
unfoldable pub cursor_after : Codec → List Row → String
cursor_after c [] = ""
cursor_after c (r ∷ []) = encode_audit_cursor c r.stored.timestamp_utc (c.uuid_text r.id)
cursor_after c (r ∷ s ∷ rows) = cursor_after c (s ∷ rows)

unfoldable pub page_of : Codec → ℕ → List Row → AuditPage
unfolding cursor_after scan_read_row
page_of c limit rows =
    if ltb limit (length rows)
    then record {
      entries = map scan_read_row (take limit rows);
      next_cursor = cursor_after c (take limit rows);
    }
    else record { entries = map scan_read_row rows; next_cursor = "" }

-- `if limit <= 0 { limit = 50 }; if limit > 200 { limit = 200 }`
unfoldable pub page_limit : ℤ → ℕ
unfolding positive_or
page_limit limit = let n = positive_or limit 50 in if ltb 200 n then 200 else n

unfoldable pub cursor_of : Codec → String → Result (Option (ℕ × ℕ))
unfolding decode_audit_cursor
cursor_of c cursor = if cursor == "" then ok none else elim (decode_audit_cursor c cursor) [
  | err e ↦ err ("invalid cursor: " <> e)
  | ok (ts, id) ↦ ok (some (ts, c.uuid_of id))
]

-- `ListAuditEntries`, where the database answers.
unfoldable pub list_audit_entries :
    Codec → Option Database → String → AuditFilter → ℤ → String → Result AuditPage
unfolding cursor_of page_of page_limit query_rows
list_audit_entries c none tenant f limit cursor = err "audit db unavailable"
list_audit_entries c (some db) tenant f limit cursor =
    if tenant == "" then err "tenant_id is required" else elim (cursor_of c cursor) [
      | err e ↦ err e
      | ok after ↦
          ok (page_of c (page_limit limit) (query_rows db tenant f after (page_limit limit + 1)))
    ]

pub record AuditVerifyResult : Type 0 where
  pub verified : Bool
  pub entries_checked : ℕ
  pub problems : List ChainProblem

-- `VerifyTenantChain` has an error of its own for a chain that is too long.
pub data Verification : Type 0 where
  verification : AuditVerifyResult → Verification
  chain_too_large : ℕ → Verification
  refused : String → Verification

unfoldable pub verify_tenant_chain : Formats → Option Database → String → Verification
unfolding load_audit_chain verify_chain
verify_tenant_chain fm none tenant = refused "audit db unavailable"
verify_tenant_chain fm (some db) tenant =
    let entries = load_audit_chain db tenant in
    let problems = verify_chain fm entries in
    if tenant == ""
    then refused "tenant_id is required"
    else if ltb 100_000 (length entries)
    then chain_too_large (length entries)
    else verification (record {
      verified = nat_beq (length problems) 0;
      entries_checked = length entries;
      problems = problems;
    })
