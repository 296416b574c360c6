-- ===== src/Runtime.antt =====
-- services/query-runtime/internal/runtime: what stands around the engine.
pub mod CircuitBreaker
pub mod RateLimiter
pub mod Identity
pub mod Principal
pub mod ApiKeys
pub mod Backoff
pub mod OpenFga
