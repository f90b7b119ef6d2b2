-- ===== src/Orchestrate/Run.antt =====
-- internal/orchestrate/orchestrate.go: Run and pruneRetention.
use redrill.Prelude.{
  ℕ, suc, ◌/◌, String, Bool, true, false, not, ◌&&◌, Option, some, List, [], ◌∷◌, ◌++◌,
  if◌then◌else◌,
}
use redrill.Prelude.Int.{ℤ, pos, negsuc, ltb_ℤ}
use redrill.Clock.{Time, Duration, sub, zero_time}
use redrill.Config.{Drill, Source}
use redrill.Exec.Step.{StepSpec, StepReply}
use redrill.Store.Model.{Db, Trigger, Result, Run}
use redrill.Store.Action.{
  Action, Faults, Outcome, ok, err, usage, pure, gets, modify, or_raise, ◌>>=◌, ◌>>◌,
}
use redrill.Store.Runs.{create_run, finish_run, last_baseline_run}
use redrill.Store.Proofs.{record_proof, add_bytes_restored}
use redrill.Store.Retention.{prune, negate}
use redrill.Orchestrate.Model.{
  LevelStatus, RunOptions, LevelOutcome, RunResult, Leveled, no_level_state, select_levels,
  aggregate_run,
}
use redrill.Orchestrate.Level.{World, on_db, read_clock, run_level}

-- d.Milliseconds(), which rounds toward zero
abbrev pub milliseconds : Duration → ℤ
milliseconds (pos n) = pos (n / 1000000)
milliseconds (negsuc n) = negate (pos (suc n / 1000000))

abbrev pub is_bad : LevelStatus → Bool
is_bad LevelStatus.fail = true
is_bad LevelStatus.error = true
is_bad _ = false

abbrev pub is_passed : LevelStatus → Bool
is_passed LevelStatus.pass = true
is_passed _ = false

abbrev pub is_pass_result : Result → Bool
is_pass_result Result.pass = true
is_pass_result _ = false

-- The body of Run's loop after runLevel.
abbrev pub note_outcome : Leveled → LevelOutcome × Bool → World → World
note_outcome lv (out, ran) w = record w {
  level_reached = if ran then lv.name else w.level_reached;
  short_circuit = if ran && is_bad out.status then true else w.short_circuit;
  levels = w.levels ++ out ∷ [];
}

-- An error that is logged and dropped.
unfoldable pub ignore_error : {S A : Type 0} → Action S A → Action S (Unit {0})
ignore_error m s = (ok tt, (m s).1)

-- The run that FinishRun is given.
abbrev pub outcome_row : ℕ → Result → Time → Time → World → Run
outcome_row id result start end w = record {
  id = id;
  drill = "";
  trigger = Trigger.unset;
  started_at = zero_time;
  finished_at = end;
  result = result;
  level_reached = w.level_reached;
  bytes_restored = w.state.bytes;
  files_restored = w.state.files;
  duration_ms = milliseconds (sub end start);
  executor = "";
  snapshot = w.state.pin;
  snapshot_time = w.state.pin_at;
}

abbrev pub default_trigger : Trigger → Trigger
default_trigger Trigger.unset = Trigger.manual
default_trigger t = t

abbrev pub new_run : String → Drill → RunOptions → Time → Run
new_run host drill opts start = record {
  id = 0;
  drill = drill.name;
  trigger = default_trigger opts.trigger;
  started_at = start;
  finished_at = zero_time;
  result = Result.unset;
  level_reached = "";
  bytes_restored = pos 0;
  files_restored = pos 0;
  duration_ms = pos 0;
  executor = host;
  snapshot = "";
  snapshot_time = zero_time;
}

abbrev pub file_count : Outcome (Option Run) → ℤ
file_count (ok (some last)) = last.files_restored
file_count _ = pos 0

module _ (fails : Faults) (clock : ℕ → Time) (run_step : StepSpec → StepReply) where
  -- The file-count baseline: a lookup that fails degrades to none.
  unfoldable pub baseline : String → Action World ℤ
  baseline drill w =
      let (r, db) = last_baseline_run fails drill w.db in (ok (file_count r), record w { db = db })

  -- The loop of Run.
  unfoldable pub run_levels :
      ℕ → Drill → Source → Time → RunOptions → ℤ → List Leveled → Action World (Unit {0})
  run_levels id drill src start opts prev [] = pure tt
  run_levels id drill src start opts prev (lv ∷ lvs) = do
    outcome ← run_level fails clock run_step id drill src lv start opts prev
    modify (note_outcome lv outcome)
    run_levels id drill src start opts prev lvs

  -- FinishRun with the verdict that the state has.
  unfoldable pub finish : ℕ → Result → Time → Action World Time
  finish id result start = do
    end ← read_clock fails clock run_step
    row ← gets (outcome_row id result start end)
    on_db (finish_run fails row)
    pure end

  -- Run up to its FinishRun: the end of the run.
  unfoldable pub run_body :
      ℕ → Drill → Source → Time → RunOptions → List Leveled → Action World Time
  run_body id drill src start opts lvs = do
    prev ← baseline drill.name
    run_levels id drill src start opts prev lvs
    result ← gets (λ w. aggregate_run w.levels)
    finish id result start

  -- The deferred call: a body that failed is finalised as an error, whose own failure is dropped.
  unfoldable pub or_finalize : ℕ → Time → Action World Time → Action World Time
  or_finalize id start body w =
      let (r, w') = body w in
      elim r [ ok end ↦ (ok end, w') | err e ↦ (err e, (finish id Result.error start w').1) ]

  -- The proofs of the levels that passed.
  unfoldable pub record_proofs : String → Time → List LevelOutcome → Action World (Unit {0})
  record_proofs drill start [] = pure tt
  record_proofs drill start (lv ∷ lvs) = do
    if is_passed lv.status then on_db (record_proof fails drill lv.level start) else pure tt
    record_proofs drill start lvs

  -- pruneRetention
  unfoldable pub prune_retention : Drill → Time → Action World (Unit {0})
  prune_retention drill now =
      let max_age = drill.retention.max_age in
      let max_count = drill.retention.max_count in
      if not (ltb_ℤ (pos 0) max_age) && not (ltb_ℤ (pos 0) max_count)
      then pure tt
      else on_db (ignore_error (prune fails drill.name max_age max_count now))

  -- Run after its FinishRun.
  unfoldable pub run_tail : ℕ → Drill → Time → Time → Action World RunResult
  run_tail id drill start end = do
    w ← gets (λ w. w)
    let result = aggregate_run w.levels
    on_db (ignore_error (add_bytes_restored fails drill.name w.state.bytes))
    if is_pass_result result then record_proofs drill.name start w.levels else pure tt
    prune_retention drill end
    pure (record {
      run_id = id;
      status = result;
      level_reached = w.level_reached;
      levels = w.levels;
      kept_sandbox = w.state.kept;
    })

  -- Run, on the executor's host
  unfoldable pub run : String → Drill → Source → RunOptions → Action World RunResult
  run host drill src opts = do
    lvs ← or_raise (select_levels drill opts.level) usage
    start ← read_clock fails clock run_step
    id ← on_db (create_run fails (new_run host drill opts start))
    end ← or_finalize id start (run_body id drill src start opts lvs)
    run_tail id drill start end

-- The state in which Run begins, over a database.
abbrev pub begin : Db → World
begin db = record {
  db = db;
  reads = 0;
  state = no_level_state;
  level_reached = "";
  short_circuit = false;
  levels = [];
  calls = [];
}
