-- ===== src/Orchestrate.antt =====
-- internal/orchestrate/orchestrate.go: one run of a drill, level by level, and all that it writes.
-- The data and the pure parts stand in Model, a level in Level, the whole run in Run.
pub mod Model
pub mod Level
pub mod Run
pub mod Rules
pub mod Verdict
pub mod Stages
pub mod DbRules
pub mod Rows
pub mod Finished
pub mod Report
pub mod Proofs
pub mod ShortCircuit
pub mod Pin
