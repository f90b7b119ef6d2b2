-- ===== src/Exec.antt =====
-- internal/exec: one level of a run against its source. The interface that the orchestrator calls
-- stands in Step; the other modules are the parts of the local executor.
pub mod Step
pub mod Verdict
pub mod Repository
pub mod Evidence
pub mod Load
pub mod Stage
pub mod World
pub mod Third
pub mod Second
pub mod DumpLevels
pub mod Gone
pub mod Secrets
pub mod Startup
pub mod Sample
pub mod Selection
