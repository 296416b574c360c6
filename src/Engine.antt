-- ===== src/Engine.antt =====
-- services/query-runtime/internal/engine: the query engine, its circuit breaker and its audit ledger.
pub mod CircuitBreaker
pub mod Types
pub mod Errors
pub mod Filter
pub mod Query
pub mod Audit
pub mod AuditQuery
pub mod Config
pub mod Adapters
