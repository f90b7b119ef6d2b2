-- ===== src/Examples/Orchestrate.antt =====
-- Runs of the demo drill.
use redrill.Prelude.{◌≡◌, refl, true, false, none, some, List, [], ◌∷◌, if◌then◌else◌, arith}
use redrill.Clock.{day}
use redrill.Examples.{demo_clock, demo_drill, demo_source, demo_options, all_pass, all_fail}
use redrill.Store.Model.{Result, empty_db}
use redrill.Store.Action.{
  insert_run, read_id, finish_run as finish_run_sql, read_affected, Faults, no_faults, ok, Outcome,
  ◌>>=◌,
}
use redrill.Store.Runs.{create_run, finish_run, last_baseline_run}
use redrill.Store.Trail.{add_step, add_evidence, insert_owned}
use redrill.Store.Proofs.{record_proof, add_bytes_restored, proof_of}
use redrill.Store.Retention.{prune}
use redrill.Store.Verdict.{IsFinished}
use redrill.Orchestrate.Model.{
  Leveled, LevelOutcome, select_levels, build_step, tally, aggregate_run, RunResult, LevelStatus,
}
use redrill.Orchestrate.Level.{
  on_db, read_clock, record_step, write_evidence, settle, call_executor, run_level, World,
}
use redrill.Orchestrate.Run.{
  ignore_error, baseline, run_levels, finish, run_body, or_finalize, record_proofs, prune_retention,
  run_tail, run, begin, is_pass_result, new_run,
}
use redrill.Orchestrate.ShortCircuit.{stops_at_bad}
use redrill.Orchestrate.Finished.{run-IsFinished}
use redrill.Orchestrate.Report.{run-stops_at_bad}
use redrill.Orchestrate.Proofs.{run-proof_of, proof_after, level_passed}
use redrill.Orchestrate.Verdict.{aggregate_run_lem}
use redrill.Orchestrate.Pin.{OnePin, run-OnePin}
use redrill.Scheduler.Staleness.{headline_level}

abbrev pub passing : Outcome RunResult × World
passing =
    run no_faults demo_clock all_pass "host" demo_drill demo_source demo_options (begin empty_db)

abbrev pub failing : Outcome RunResult × World
failing =
    run no_faults demo_clock all_fail "host" demo_drill demo_source demo_options (begin empty_db)

abbrev pub both_levels : List Leveled
both_levels = record { name = "l1"; on = true } ∷ record { name = "l2"; on = true } ∷ []

-- A level that errored before one that was skipped.
abbrev some_levels : List LevelOutcome
some_levels =
    record { level = "l1"; status = LevelStatus.error; summary = ""; evidence = [] }
    ∷ record { level = "l2"; status = LevelStatus.skipped; summary = ""; evidence = [] }
    ∷ []

abbrev pub result_of : Outcome RunResult → RunResult
result_of (ok r) = r
result_of _ = record {
  run_id = 0;
  status = Result.unset;
  level_reached = "";
  levels = [];
  kept_sandbox = "";
}

-- What the two runs return.
pub runs_lem :
    (passing.0 ≡ ok (result_of passing.0))
    × ((result_of passing.0).status ≡ Result.pass)
    × (failing.0 ≡ ok (result_of failing.0))
    × ((result_of failing.0).status ≡ Result.fail)
    × ((create_run no_faults (new_run "host" demo_drill demo_options day) empty_db).0 ≡ ok 1)
    × (select_levels demo_drill "" ≡ some both_levels)
    × (level_passed "l2" (result_of passing.0).levels ≡ true)
    × (headline_level demo_drill ≡ "l2")
unfolding run on_db read_clock record_step write_evidence settle call_executor run_level baseline
    run_levels finish run_body or_finalize record_proofs prune_retention run_tail ignore_error
    select_levels aggregate_run tally build_step create_run finish_run last_baseline_run add_step
    add_evidence insert_owned add_bytes_restored record_proof prune headline_level ◌>>=◌
runs_lem = (refl, refl, refl, refl, refl, refl, refl, refl)

run-stops_at_bad_example :
    ((result_of failing.0).status ≡ aggregate_run (result_of failing.0).levels)
    × (stops_at_bad (result_of failing.0).levels ≡ true)
run-stops_at_bad_example =
    run-stops_at_bad no_faults demo_clock all_fail "host" demo_drill demo_source demo_options
      empty_db runs_lem.2

run-proof_of_example : proof_of "photos" "l2" passing.1.db.drill_state ≡ (
    if is_pass_result (result_of passing.0).status
    then proof_after "photos" "photos" "l2" day (result_of passing.0).levels []
    else none)
run-proof_of_example =
    run-proof_of no_faults demo_clock all_pass "host" demo_drill demo_source demo_options empty_db
      "photos" "l2" runs_lem.0

-- In which only CreateRun's and FinishRun's own statements succeed.
abbrev few : Faults
few insert_run _ = false
few read_id _ = false
few finish_run_sql _ = false
few read_affected _ = false
few _ _ = true

few_creates : (create_run few (new_run "host" demo_drill demo_options day) empty_db).0 ≡ ok 1
unfolding create_run ◌>>=◌
few_creates = refl

run-IsFinished_example :
    IsFinished 1
      (run few demo_clock all_pass "host" demo_drill demo_source demo_options
        (begin empty_db)).1.db.runs
run-IsFinished_example =
    run-IsFinished few demo_clock all_pass "host" demo_drill demo_source demo_options empty_db
      both_levels 1 (λ n. refl) (omega arith) runs_lem.5 few_creates

aggregate_run_lem_example : aggregate_run some_levels ≡ Result.error
aggregate_run_lem_example = aggregate_run_lem some_levels

run-OnePin_example :
    OnePin
      (run no_faults demo_clock all_pass "host" demo_drill demo_source demo_options
        (begin empty_db)).1
run-OnePin_example =
    run-OnePin no_faults demo_clock all_pass "host" demo_drill demo_source demo_options empty_db
