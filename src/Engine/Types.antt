-- ===== src/Engine/Types.antt =====
-- The records of runtime/types.go that a query passes through, and the parts of Go and its
-- libraries that the engine calls.
use groundwork.Base.{ℕ, String, ◌≡◌, Bool, List}
use groundwork.Base
use mathlib.Core.List.{Memᴰ}

-- `SourceScopes` and `IDKThreshold` are not read by the engine and left out.
pub record QueryRequest : Type 0 where
  pub tenant_id : String
  pub user_id : String
  pub region : String
  pub question : String
  pub agent_key_id : ℕ
  pub agent_key_name : String

-- `F` stands for float64.
pub record Chunk (F : Type 0) : Type 0 where
  pub tenant_id : String
  pub region : String
  pub document_id : String
  pub chunk_id : String
  pub chunk_hash : String
  pub page : ℕ
  pub offset : ℕ
  pub text : String
  pub required_scope : String
  pub owner_acl_tags : List String
  pub freshness_score : F
  pub soft_deleted : Bool

pub record Candidate (F : Type 0) : Type 0 where
  pub chunk : Chunk F
  pub rank : ℕ
  pub score : F

pub record Citation (F : Type 0) : Type 0 where
  pub document_id : String
  pub chunk_id : String
  pub chunk_hash : String
  pub page : ℕ
  pub offset : ℕ
  pub text : String
  pub score : F
  pub freshness_score : F

pub record AccessDecision : Type 0 where
  pub chunk_id : String
  pub chunk_hash : String
  pub document_id : String
  pub allowed : Bool
  pub reason : String
  pub region : String
  pub required_scope : String

pub record RuntimeTrace : Type 0 where
  pub trace_id : String
  pub tenant_id : String
  pub user_id : String
  pub region : String
  pub started_at : ℕ
  pub latency_ms : ℕ
  pub vector_candidates : ℕ
  pub keyword_candidates : ℕ
  pub blocked_by_acl : ℕ
  pub blocked_by_residency : ℕ
  pub reranked_candidates : ℕ
  pub decision_mode : String
  pub shadow_mode : Bool
  pub would_block_by_acl : ℕ
  pub failure_stage : String
  pub error_code : String
  pub error_message : String
  pub access_decisions : List AccessDecision
  pub immutable_digest : String

pub record QueryResponse (F : Type 0) : Type 0 where
  pub answer : String
  pub confidence : F
  pub citations : List (Citation F)
  pub trace : RuntimeTrace

-- float64 with the operations and constants used, `sort.Slice` with its `less` on elements, and
-- the digest functions: SHA-256 in hex of a text, and of a trace's JSON.
pub record Platform : Type 1 where
  pub F : Type 0
  pub times : F → F → F
  pub greater : F → F → Bool
  pub zero_score : F
  pub forty_five : F
  pub nought_99 : F
  pub sort_slice : (A : Type 0) → (A → A → Bool) → List A → List A
  pub hash_text : String → String
  pub trace_digest : RuntimeTrace → String

-- `sort.Slice` permutes its slice: nothing is added, and the length stays.
pub record SortLaws (p : Platform) : Type 1 where
  pub sort_mem :
      (A : Type 0) (less : A → A → Bool) (xs : List A) (x : A)
      → Memᴰ x (p.sort_slice A less xs)
      → Memᴰ x xs
  pub sort_length :
      (A : Type 0) (less : A → A → Bool) (xs : List A)
      → Base.length (p.sort_slice A less xs) ≡ Base.length xs
