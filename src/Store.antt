-- ===== src/Store.antt =====
-- internal/store: the database of runs, steps, evidence, artifacts, proofs and counters.
-- The rows and the database stand in Model, the statements' failures in Action; Runs, Trail,
-- Proofs and Retention are the files of the package; the other modules prove what they promise.
pub mod Model
pub mod Action
pub mod Runs
pub mod Trail
pub mod Proofs
pub mod Retention
pub mod Verdict
pub mod Invariant
pub mod Calls
pub mod RoundTrip
pub mod Keeping
pub mod Monotone
pub mod Frame
