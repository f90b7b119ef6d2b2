-- ===== src/Alerts.antt =====
-- internal/notify/notify.go and cmd/redrill/notify.go: which alerts finished runs and aging proofs
-- send.
pub mod Model
pub mod Watch
pub mod Runs
pub mod Episodes
pub mod Sweeps
