-- ===== src/AclSync.antt =====
-- services/query-runtime/internal/aclsync: source permissions, tuples, the tuple store, the syncer.
pub mod Model
pub mod Tuples
pub mod Fga
pub mod Access
pub mod Sync
pub mod Change
pub mod MockConnector
pub mod Service
pub mod Memory
pub mod Checker
pub mod MsGraph
