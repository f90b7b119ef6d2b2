-- ===== src/Exec/Verdict.antt =====
-- internal/exec/exec.go: the verdict of a step's evidence, its summary, and a step that errors.
use Prim.Native.String.{◌++◌ as str_append}
use redrill.Prelude.{ℕ, String, Bool, false, ◌||◌, List, [], ◌∷◌, if◌then◌else◌, select, length}
use redrill.Prelude.Int.{pos}
use redrill.Clock.{zero_time}
use redrill.Checks.{Status, Evidence, is_pass, is_fail, is_error}
use redrill.Checks.Snapshot.{Texts}
use redrill.Exec.Step.{StepSpec, StepResult}

-- aggregate: fail dominates error, error dominates pass
abbrev pub has_evidence : (Status → Bool) → List Evidence → Bool
has_evidence test [] = false
has_evidence test (ev ∷ evs) = test ev.status || has_evidence test evs

unfoldable pub aggregate : List Evidence → Status
aggregate evs =
    if has_evidence is_fail evs
    then Status.fail
    else if has_evidence is_error evs
    then Status.error
    else Status.pass

abbrev pub status_word : Status → String
status_word Status.pass = "pass"
status_word Status.fail = "fail"
status_word Status.error = "error"

abbrev pub count_of : (Status → Bool) → List Evidence → ℕ
count_of test evs = length (select (λ ev. test ev.status) evs)

-- summarize
unfoldable pub summarize : Texts → Status → List Evidence → String
summarize texts st evs =
    let num = λ (n : ℕ). texts.of_int (pos n) in
    str_append (status_word st) (
      str_append ": " (
        str_append (num (length evs)) (
          str_append " checks (" (
            str_append (num (count_of is_pass evs)) (
              str_append " pass, " (
                str_append (num (count_of is_fail evs))
                  (str_append " fail, " (str_append (num (count_of is_error evs)) " error)"))))))))

-- The result that a step begins with, and errorStep.
abbrev pub new_result : StepSpec → StepResult
new_result step = record {
  level = step.level;
  status = Status.pass;
  evidence = [];
  summary = "";
  files = pos 0;
  bytes = pos 0;
  snapshot = "";
  snapshot_time = zero_time;
  kept_sandbox = "";
}

abbrev pub error_step : StepResult → String → StepResult
error_step res why = record res { status = Status.error; summary = why }
