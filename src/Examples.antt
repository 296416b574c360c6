-- ===== src/Examples.antt =====
-- Tests of the model on concrete inputs, and the theorems applied to them.
mod AclSync
mod Engine
mod Audit
mod Runtime
mod Identity
mod Service
mod Exposures
mod Reading
mod OpenFga
mod MsGraph
mod Canonical
