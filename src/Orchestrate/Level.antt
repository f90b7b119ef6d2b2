-- ===== src/Orchestrate/Level.antt =====
-- internal/orchestrate/orchestrate.go: runLevel and recordStep.
use Prim.Native.String.{◌++◌ as str_append}
use redrill.Prelude.{
  ℕ, suc, String, Bool, true, false, not, ◌&&◌, List, [], ◌∷◌, str_eq, if◌then◌else◌,
}
use redrill.Prelude.Int.{ℤ, ◌+ℤ◌}
use redrill.Clock.{Time}
use redrill.Config.{Drill, Source}
use redrill.Checks.{Evidence}
use redrill.Exec.Step.{
  StepSpec, StepResult, StepReply, done, unsupported, no_sandbox_runtime, failed, panicked,
}
use redrill.Store.Model.{Db, EvidenceRow}
use redrill.Store.Action.{Action, Faults, ok, panic, pure, raise, gets, modify, ◌>>=◌, ◌>>◌}
use redrill.Store.Trail.{add_step, add_evidence}
use redrill.Orchestrate.Model.{
  LevelStatus, of_status, status_text, RunOptions, LevelOutcome, LevelState, Leveled, build_step,
}

-- What a run reads and writes: the database, how often the clock was read, and the local variables
-- of Run. `calls` lists the steps that the executor was given, the latest first.
pub record World : Type 0 where
  pub db : Db
  pub reads : ℕ
  pub state : LevelState
  pub level_reached : String
  pub short_circuit : Bool
  pub levels : List LevelOutcome
  pub calls : List StepSpec

-- A call of the store.
unfoldable pub on_db : {A : Type 0} → Action Db A → Action World A
on_db m w = let (r, db) = m w.db in (r, record w { db = db })

-- The pin, the sandbox and the totals that a level's result leaves in the state.
abbrev pub pin_snapshot : StepResult → LevelState → LevelState
pin_snapshot res st =
    if str_eq st.pin "" && not (str_eq res.snapshot "")
    then record st { pin = res.snapshot; pin_at = res.snapshot_time }
    else st

abbrev pub keep_sandbox : StepResult → LevelState → LevelState
keep_sandbox res st =
    if not (str_eq res.kept_sandbox "") then record st { kept = res.kept_sandbox } else st

abbrev pub add_totals : StepResult → LevelState → LevelState
add_totals res st = record st { bytes = st.bytes +ℤ res.bytes; files = st.files +ℤ res.files }

abbrev pub evidence_row : ℕ → Evidence → EvidenceRow
evidence_row run_id ev = record {
  run_id = run_id;
  idx = 0;
  check_kind = ev.kind;
  target = ev.target;
  expected = ev.expected;
  actual = ev.actual;
  status = status_text (of_status ev.status);
  weak = ev.weak;
}

abbrev pub skip : String → String → LevelOutcome
skip level why = record {
  level = level;
  status = LevelStatus.skipped;
  summary = why;
  evidence = [];
}

abbrev pub executed : Leveled → StepResult → LevelOutcome
executed lv res = record {
  level = lv.name;
  status = of_status res.status;
  summary = res.summary;
  evidence = res.evidence;
}

abbrev pub not_executed : Leveled → String → LevelOutcome
not_executed lv why = record {
  level = lv.name;
  status = LevelStatus.error;
  summary = str_append "executor: " why;
  evidence = [];
}

module _ (fails : Faults) (clock : ℕ → Time) (run_step : StepSpec → StepReply) where
  -- o.now().UTC()
  unfoldable pub read_clock : Action World Time
  read_clock w = (ok (clock w.reads), record w { reads = suc w.reads })

  -- recordStep
  unfoldable pub record_step : ℕ → LevelOutcome → Time → Action World (Unit {0})
  record_step run_id out start = do
    end ← read_clock
    on_db (
        add_step fails (record {
          run_id = run_id;
          idx = 0;
          kind = out.level;
          started_at = start;
          finished_at = end;
          status = status_text out.status;
          summary = out.summary;
        }))

  -- The loop of runLevel over a result's evidence.
  unfoldable pub write_evidence : ℕ → List Evidence → Action World (Unit {0})
  write_evidence run_id [] = pure tt
  write_evidence run_id (ev ∷ evs) = do
    on_db (add_evidence fails (evidence_row run_id ev))
    write_evidence run_id evs

  -- What runLevel does with the executor's answer; the Boolean is `ran`. A panic of the executor
  -- is not caught here.
  unfoldable pub settle : ℕ → Leveled → Time → StepReply → Action World (LevelOutcome × Bool)
  settle run_id lv start unsupported = do
    let out = skip lv.name "skipped (unsupported level/source combination)"
    record_step run_id out start
    pure (out, false)
  settle run_id lv start no_sandbox_runtime = do
    let out = skip lv.name "skipped (no sandbox runtime)"
    record_step run_id out start
    pure (out, false)
  settle run_id lv start (failed why) = do
    let out = not_executed lv why
    record_step run_id out start
    pure (out, true)
  settle run_id lv start (panicked why) = raise (panic why)
  settle run_id lv start (done res) = do
    let out = executed lv res
    modify (λ w. record w { state = keep_sandbox res (pin_snapshot res w.state) })
    write_evidence run_id res.evidence
    record_step run_id out start
    modify (λ w. record w { state = add_totals res w.state })
    pure (out, true)

  -- The executor is called with the step that the state asks for.
  unfoldable pub call_executor :
      ℕ → Drill → Source → Leveled → Time → RunOptions → ℤ → Action World StepReply
  call_executor run_id drill src lv start opts prev w =
      let spec = build_step run_id drill src lv start opts prev w.state in
      (ok (run_step spec), record w { calls = spec ∷ w.calls })

  -- runLevel
  unfoldable pub run_level :
      ℕ → Drill → Source → Leveled → Time → RunOptions → ℤ → Action World (LevelOutcome × Bool)
  run_level run_id drill src lv start opts prev = do
    step_start ← read_clock
    short ← gets (λ w. w.short_circuit)
    if short
        then (do
          let out = skip lv.name "skipped (a lower level did not pass)"
          record_step run_id out step_start
          pure (out, false))
        else (do
          reply ← call_executor run_id drill src lv start opts prev
          settle run_id lv step_start reply)
