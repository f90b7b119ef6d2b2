-- ===== src/Sandbox.antt =====
-- internal/sandbox/sandbox.go: the container that a third level loads a dump into. What a step does
-- outside its process is a list of effects, newest first, and what a container answers may depend on
-- all that was done before.
use redrill.Prelude.{ℕ, ◌≡◌, String, Bool, true, false, Option, none, some, List, [], ◌∷◌}
use redrill.Prelude.Int.{ℤ}
use redrill.Checks.{Answer}

-- ExecResult; an exit code is a natural number.
pub record ExecResult : Type 0 where
  pub stdout : String
  pub stderr : String
  pub exit_code : ℕ

-- FileInject
pub record FileInject : Type 0 where
  pub host_path : String
  pub container_path : String

-- SandboxSpec; a map is a list of its entries.
pub record SandboxSpec : Type 0 where
  pub image : String
  pub env : List (String × String)
  pub network : String
  pub memory : ℤ
  pub labels : List (String × String)
  pub ready_cmd : List String
  pub files : List FileInject

-- Effects on the scratch directory (with the paths restored into it), mounts, and calls of the
-- container. A removal, a closing and an unmounting have the error that the call returned, if any.
pub data Effect : Type 0 where
  scratch_made mounted : Effect
  scratch_removed unmounted closed : Option String → Effect
  restored : List String → Effect
  started : SandboxSpec → Effect
  ran : List String → Effect

-- What Start returns: a container, with the name that its optional ID method gives, or an error.
pub data Started : Type 0 where
  running : Option String → Started
  no_runtime : Started
  start_error : String → Started

-- SandboxRuntime and Sandbox
pub record Runtime : Type 0 where
  pub start : List Effect → SandboxSpec → Started
  pub exec : List Effect → List String → Answer ExecResult
  pub close : List Effect → Option String

-- Exec
abbrev pub call : Runtime → List String → List Effect → Answer ExecResult × List Effect
call rt cmd log = (rt.exec log cmd, ran cmd ∷ log)

-- Whether a container is left running, and whether a scratch directory is left: one whose closing or
-- removal returned an error may be.
abbrev pub is_running : List Effect → Bool
is_running [] = false
is_running (started _ ∷ log) = true
is_running (closed none ∷ log) = false
is_running (_ ∷ log) = is_running log

abbrev pub has_scratch : List Effect → Bool
has_scratch [] = false
has_scratch (scratch_made ∷ log) = true
has_scratch (scratch_removed none ∷ log) = false
has_scratch (_ ∷ log) = has_scratch log

-- Whether a call of Close, or of os.RemoveAll, returned an error.
abbrev pub close_failed : List Effect → Bool
close_failed [] = false
close_failed (closed (some _) ∷ log) = true
close_failed (_ ∷ log) = close_failed log

abbrev pub removal_failed : List Effect → Bool
removal_failed [] = false
removal_failed (scratch_removed (some _) ∷ log) = true
removal_failed (_ ∷ log) = removal_failed log

-- What neither starts nor stops a container, nor makes nor removes a scratch directory.
abbrev pub Untouched : List Effect → List Effect → Type 0
Untouched before after =
    (is_running after ≡ is_running before)
    × (has_scratch after ≡ has_scratch before)
    × (close_failed after ≡ close_failed before)
    × (removal_failed after ≡ removal_failed before)
