-- ===== src/Checks.antt =====
-- internal/checks/checks.go: the status of a check and the evidence that it leaves.
pub mod Snapshot
pub mod Glob
pub mod Expect
pub mod Sandboxed
pub mod Tree
pub mod Entropy
pub mod Dump
use redrill.Prelude.{String, Bool, true, false}

-- Status: `Pass`, `Fail` and `Error`
pub data Status : Type 0 where
  pass fail error : Status

-- Evidence
pub record Evidence : Type 0 where
  pub kind : String
  pub target : String
  pub expected : String
  pub actual : String
  pub status : Status
  pub weak : Bool

-- A value, or an error by its text.
pub data Answer {ℓ} (A : Type ℓ) : Type ℓ where
  got : A → Answer A
  broke : String → Answer A

abbrev pub is_fail : Status → Bool
is_fail Status.fail = true
is_fail _ = false

abbrev pub is_error : Status → Bool
is_error Status.error = true
is_error _ = false

abbrev pub is_pass : Status → Bool
is_pass Status.pass = true
is_pass _ = false
