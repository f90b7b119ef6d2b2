-- ===== src/Exec/Step.antt =====
-- internal/exec/exec.go: what a step is asked to do and what it answers.
use redrill.Prelude.{ℕ, String, Bool, Option, List}
use redrill.Prelude.Int.{ℤ}
use redrill.Clock.{Time}
use redrill.Config.{L1, L2, L3, Source}
use redrill.Checks.{Status, Evidence}

-- config.Scratch
pub record Scratch : Type 0 where
  pub dir : String
  pub max_bytes : ℤ

-- StepSpec
pub record StepSpec : Type 0 where
  pub run_id : ℕ
  pub drill : String
  pub level : String
  pub source : Source
  pub l1 : Option L1
  pub l2 : Option L2
  pub l3 : Option L3
  pub now : Time
  pub scratch : Scratch
  pub prev_file_count : ℤ
  pub snapshot : String
  pub snapshot_time : Time
  pub keep : Bool

-- StepResult
pub record StepResult : Type 0 where
  pub level : String
  pub status : Status
  pub evidence : List Evidence
  pub summary : String
  pub files : ℤ
  pub bytes : ℤ
  pub snapshot : String
  pub snapshot_time : Time
  pub kept_sandbox : String

-- What RunStep returns: a result, or an error, told apart as the caller does by `errors.Is`
-- (ErrUnsupported, ErrNoSandboxRuntime, any other with its text); or it panics.
pub data StepReply : Type 0 where
  done : StepResult → StepReply
  unsupported no_sandbox_runtime : StepReply
  failed panicked : String → StepReply
