-- ===== src/Lib.antt =====
-- A model of the access-control core of the Groundwork query runtime, the Go code under
-- services/query-runtime/internal, with the theorems that make it correct.
--
-- The program answers a question of a user with chunks of documents that the user may see. A
-- connector gives a snapshot of the permissions in a source; the sync writes it to a store of
-- tuples; the engine retrieves candidates, asks the store about each, and answers with citations of
-- those that are permitted, after an audit entry has been written to a chained ledger. Circuit
-- breakers stand before the backends and the auditor. A service repeats the sync and applies the
-- source's events in between. Who asks is settled before the engine: an API key names the tenant, a
-- signed token the user, and aliases the principal that permissions are about.
--
--   AclSync.Model, AclSync.Tuples  aclsync/connector.go and tuples.go: the snapshot and the tuples
--       that PermissionSetToTuples makes of it. AclSync.Tuples.Grants says which ones.
--   AclSync.Fga  aclsync/fga.go: MemoryFGA with Check. The search of memberOf carries its seen map
--       and runs on fuel, one more than the tuples there are, since each group after the first is
--       found in a tuple and is searched once.
--   AclSync.Access  who may view a document, stated on the snapshot alone (InGroup, CanView).
--   AclSync.Sync, AclSync.Memory  aclsync/sync.go: SyncToOpenFGA and DetectDrift over any TupleSink;
--       the laws that the theorems ask of a sink are the record SetSink.
--   AclSync.MockConnector, AclSync.Change, AclSync.Service  aclsync/mock.go, service.go and
--       runonce.go: a source that sends events, and the loop of Run as a function of the events that
--       it receives. withRetry follows as many tries as it is given fuel; that enough fuel ends it is
--       a theorem, where some try succeeds or the context ends. Service.World has the steps of
--       the source and the service together: a method of the source unlocks before it sends, and a
--       full sync reads before it writes, so each is two steps or more.
--   AclSync.MsGraph  aclsync/msgraph/mapping.go: Graph's users, groups and permissions as a snapshot,
--       and the event of a permission that is removed.
--   AclSync.MsGraph.Canonical, AclSync.MsGraph.Kept  msgraph/canonical.go: the canonicalizer, with the
--       random ids and the resolver as arguments.
--   Engine.CircuitBreaker  engine/circuit_breaker.go, each method one step at a reading of the clock.
--   Engine.Types, Engine.Errors  runtime/types.go and the classes of errors of engine/engine.go.
--   Engine.Filter  filterChunksConcurrently of engine/engine.go: the goroutines' results are a list
--       of arrivals in any order; if it is shorter than the candidates, the deadline has passed.
--   Engine.Query  Execute of engine/engine.go as a function of the engine's state, with retrieval,
--       ranking, shadow mode, the audit write and the answers of a failure.
--   Engine.Audit  engine/trace.go: PostgresAuditWriter.Write, LoadAuditChain and VerifyChain over the
--       two tables. A write is one step, as it holds the tenant's advisory lock.
--   Engine.AuditQuery  engine/audit_query.go: ListAuditEntries and VerifyTenantChain over the same
--       tables. base64, JSON and the texts of times and ids are the record Codec.
--   Engine.Config, Engine.Adapters  engine/config.go and engine/adapters.go.
--   AclSync.Checker  CanAccess of aclsync/fga.go, the engine's ACL checker over the synced store.
--   Runtime.CircuitBreaker, Runtime.RateLimiter  runtime/circuit_breaker.go and runtime/ratelimit.go.
--   Runtime.Backoff, Runtime.OpenFga  runtime/retry.go and openfga.go: CanAccess with the lazy
--       provisioning of the store, the retries and the breaker. OpenFGA's answers are the record Api,
--       any server with a state of its own.
--   Runtime.Identity, Runtime.Principal, Runtime.ApiKeys  runtime/identity.go, principal.go and
--       auth.go: the JWT parser, the inner resolver behind the cache, the key's hash and the random
--       texts are arguments.
--   LeakReport  leakreport/leakreport.go: Analyze, and the exposures stated on the snapshot alone.
--   Base  the shared lists, texts, tests and results. Examples  tests and applied theorems.
--
-- Numbers are natural numbers; times are nanoseconds from the zero time. Go's int, int64 and
-- time.Duration are taken without overflow, except for the product in envDuration. A Go map is a list without a meaning of its order, and
-- no theorem depends on it. float64, sort.Slice and the digest functions are the record Platform
-- (Engine.Types), whose only law is that sorting permutes; SHA-256 and the texts of times and
-- numbers in the ledger's digest are the record Formats (Engine.Audit). The retrieval client, the
-- ACL checker and the auditor are arguments of the engine; within one query an ACL answer depends
-- on the request and the chunk alone.
--
-- Not modelled: HTTP and SQL clients (OpenFGASink, Qdrant, Elasticsearch, the detail view and the statistics of the audit read API), the
-- HTTP server and its headers, the Postgres resolver of API keys, metrics and logs, the connectors' clients,
-- the Graph connector's Snapshot as a whole and its catalogs, the mapping of GitHub, the commands, the
-- ingestion service, the console and the SDKs.
pub mod Base
pub mod AclSync
pub mod Engine
pub mod Runtime
pub mod LeakReport
pub mod Examples
