-- ===== src/Orchestrate/Model.antt =====
-- internal/orchestrate/orchestrate.go: the types, the choice of levels, the step that a level asks
-- for, and the verdict of a run.
use redrill.Prelude.{
  ℕ, String, Bool, true, false, not, ◌&&◌, ◌||◌, Option, none, some, List, [], ◌∷◌, str_eq, select,
  if◌then◌else◌,
}
use redrill.Prelude.Int.{ℤ, pos}
use redrill.Clock.{Time, zero_time}
use redrill.Config.{Drill, Source, is_set}
use redrill.Checks.{Status, Evidence}
use redrill.Exec.Step.{Scratch, StepSpec}
use redrill.Store.Model.{Trigger, Result}

-- A level's status: the check statuses, and `skipped`.
pub data LevelStatus : Type 0 where
  pass fail error skipped : LevelStatus

abbrev pub of_status : Status → LevelStatus
of_status Status.pass = LevelStatus.pass
of_status Status.fail = LevelStatus.fail
of_status Status.error = LevelStatus.error

-- The texts that the store holds.
abbrev pub status_text : LevelStatus → String
status_text LevelStatus.pass = "pass"
status_text LevelStatus.fail = "fail"
status_text LevelStatus.error = "error"
status_text LevelStatus.skipped = "skipped"

-- RunOptions, less the callback that prints each level
pub record RunOptions : Type 0 where
  pub trigger : Trigger
  pub level : String
  pub scratch : Scratch
  pub keep : Bool

-- LevelOutcome
pub record LevelOutcome : Type 0 where
  pub level : String
  pub status : LevelStatus
  pub summary : String
  pub evidence : List Evidence

-- RunResult
pub record RunResult : Type 0 where
  pub run_id : ℕ
  pub status : Result
  pub level_reached : String
  pub levels : List LevelOutcome
  pub kept_sandbox : String

-- levelState
pub record LevelState : Type 0 where
  pub pin : String
  pub pin_at : Time
  pub kept : String
  pub bytes : ℤ
  pub files : ℤ

abbrev pub no_level_state : LevelState
no_level_state = record { pin = ""; pin_at = zero_time; kept = ""; bytes = pos 0; files = pos 0 }

-- leveled
pub record Leveled : Type 0 where
  pub name : String
  pub on : Bool

-- selectLevels; `none` is the usage error
abbrev pub all_levels : Drill → List Leveled
all_levels drill =
    record { name = "l1"; on = is_set drill.levels.l1 }
    ∷ record { name = "l2"; on = is_set drill.levels.l2 }
    ∷ record { name = "l3"; on = is_set drill.levels.l3 }
    ∷ []

abbrev pub is_selected : String → Leveled → Bool
is_selected only lv = lv.on && (str_eq only "" || str_eq only lv.name)

abbrev pub is_empty {ℓ} : {A : Type ℓ} → List A → Bool
is_empty [] = true
is_empty (_ ∷ _) = false

unfoldable pub select_levels : Drill → String → Option (List Leveled)
select_levels drill only =
    let out = select (is_selected only) (all_levels drill) in
    if not (str_eq only "") && is_empty out then none else some out

-- buildStep
unfoldable pub build_step :
    ℕ → Drill → Source → Leveled → Time → RunOptions → ℤ → LevelState → StepSpec
build_step run_id drill src lv now opts prev_file_count st = record {
  run_id = run_id;
  drill = drill.name;
  level = lv.name;
  source = src;
  l1 = if str_eq lv.name "l1" then drill.levels.l1 else none;
  l2 = if str_eq lv.name "l2" then drill.levels.l2 else none;
  l3 = if str_eq lv.name "l3" then drill.levels.l3 else none;
  now = now;
  scratch = opts.scratch;
  prev_file_count = prev_file_count;
  snapshot = st.pin;
  snapshot_time = st.pin_at;
  keep = opts.keep;
}

-- The three flags of aggregateRun.
pub record Tally : Type 0 where
  pub ran : Bool
  pub failed : Bool
  pub errored : Bool

abbrev pub no_tally : Tally
no_tally = record { ran = false; failed = false; errored = false }

abbrev pub count_status : LevelStatus → Tally → Tally
count_status LevelStatus.pass t = record t { ran = true }
count_status LevelStatus.fail t = record t { ran = true; failed = true }
count_status LevelStatus.error t = record t { ran = true; errored = true }
count_status LevelStatus.skipped t = t

unfoldable pub tally : Tally → List LevelOutcome → Tally
tally t [] = t
tally t (lv ∷ levels) = tally (count_status lv.status t) levels

-- aggregateRun
unfoldable pub aggregate_run : List LevelOutcome → Result
unfolding tally
aggregate_run levels =
    let t = tally no_tally levels in
    if not t.ran
    then Result.error
    else if t.failed
    then Result.fail
    else if t.errored
    then Result.error
    else Result.pass
