-- ===== src/Examples/Restores.antt =====
-- The restore levels of a small repository.
use redrill.Prelude.{
  ◌≡◌, ◌⊎◌, refl, String, true, false, not, none, some, [], ◌∷◌, map, All, length, ◌≤◌, arith,
}
use redrill.Prelude.Int.{pos}
use redrill.Checks.{Status, got}
use redrill.Checks.Tree.{min_total_bytes}
use redrill.Checks.Sandboxed.{sql_no_error, first_line, psql_cmd}
use redrill.Checks.Dump.{DumpFile, valid}
use redrill.Text.{trim_space, split_on, before_byte, after_last, leading_digits, clamped, digits}
use redrill.Redact.{redact, add_env, longest_first}
use redrill.Sandbox.{Runtime, is_running, has_scratch, close_failed, removal_failed}
use redrill.Examples.Exec.{good_repo}
use redrill.Exec.Step.{StepSpec, StepResult, StepReply}
use redrill.Exec.Verdict.{aggregate, summarize}
use redrill.Exec.Evidence.{IsPassed}
use redrill.Exec.Stage.{
  stage_dump, decompress_to, dump_format, copy, write, quota_writer, plain_dump_major,
}
use redrill.Exec.Stage.Quota.{decompress_to-bound, decompress_to-whole, joined}
use redrill.Exec.Load.{
  load_dump, load_verdict, list_databases, loaded_db, pg_major, version_trap, l3_spec, sandbox_env,
  resolve_loader, count_error_lines,
}
use redrill.Exec.World.{
  Vault, stop_on, stop_broke, resolve_snapshot, with_scratch, scratch_root, preflight,
}
use redrill.Exec.Third.{
  load_and_check, load_staged, on_start, in_container, load_and_probe, run_checks, build_l3_check,
}
use redrill.Exec.Third.Level.{run_repo_l3}
use redrill.Exec.Third.Proof.{kind_of, check_kind}
use redrill.Exec.Third.Proven.{checks_of, run_repo_l3-evidence}
use redrill.Exec.Second.{
  run_repo_l2, mount_and_check, plan_restore, finish_l2, check_all, walk_aggregates, build_l2_check,
}
use redrill.Exec.Second.Left.{is_mounted, unmount_failed, is_safe, IsUnmounted, run_repo_l2-left}
use redrill.Exec.Second.Shown.{enabled_of, run_repo_l2-evidence}
use redrill.Exec.Second.Refused.{IsErrorReply, has_restored, fits, run_repo_l2-fits}
use redrill.Exec.DumpLevels.{run_step}
use redrill.Exec.Gone.{run_step-IsClear}
use redrill.Examples.World.{
  dump_bytes, plain_files, demo_world, good_vault, dump_dir, good_runtime, l3_step, checked_l2,
  l2_step, result_of,
}

abbrev l3_result : StepResult
l3_result =
    result_of
      (run_repo_l3 demo_world "restic" "no snapshots" (some good_runtime) good_vault l3_step []).0

l3_lem :
    ((run_repo_l3 demo_world "restic" "no snapshots" (some good_runtime) good_vault l3_step []).0
      ≡ StepReply.done l3_result)
    × (l3_result.status ≡ Status.pass)
unfolding run_repo_l3 stop_on stop_broke resolve_snapshot with_scratch scratch_root load_and_check
    load_staged on_start in_container load_and_probe run_checks build_l3_check stage_dump
    decompress_to dump_format copy write quota_writer plain_dump_major version_trap pg_major l3_spec
    sandbox_env resolve_loader load_dump load_verdict count_error_lines list_databases loaded_db
    sql_no_error first_line psql_cmd trim_space split_on before_byte after_last leading_digits
    clamped digits redact add_env longest_first aggregate summarize
l3_lem = (refl, refl)

run_repo_l3-evidence_example :
    (map kind_of l3_result.evidence ≡ "load" ∷ map check_kind (checks_of l3_step.l3))
    × All IsPassed l3_result.evidence
run_repo_l3-evidence_example =
    run_repo_l3-evidence demo_world "restic" "no snapshots" (some good_runtime) good_vault l3_step
      [] l3_result l3_lem.0 l3_lem.1

abbrev l2_result : StepResult
l2_result = result_of (run_repo_l2 demo_world "no snapshots" good_vault l2_step []).0

l2_lem :
    ((run_repo_l2 demo_world "no snapshots" good_vault l2_step []).0 ≡ StepReply.done l2_result)
    × (l2_result.status ≡ Status.pass)
unfolding run_repo_l2 stop_on stop_broke resolve_snapshot with_scratch scratch_root plan_restore
    preflight finish_l2 walk_aggregates check_all build_l2_check min_total_bytes redact
    longest_first aggregate summarize
l2_lem = (refl, refl)

run_repo_l2-evidence_example :
    (map kind_of l2_result.evidence ≡ map check_kind (enabled_of l2_step.l2))
    × All IsPassed l2_result.evidence
run_repo_l2-evidence_example =
    run_repo_l2-evidence demo_world "no snapshots" good_vault l2_step [] l2_result l2_lem.0 l2_lem.1

-- A vault whose mounts cannot be unmounted, and a step that mounts.
abbrev stuck_vault : Vault
stuck_vault = record good_vault { unmount = λ log. some "device busy" }

abbrev mount_step : StepSpec
mount_step = record l2_step {
  l2 = some (record checked_l2 { restore = record checked_l2.restore { mode = "mount" } });
}

mount_lem :
    let log1 = (run_repo_l2 demo_world "no snapshots" stuck_vault mount_step []).1 in
    (unmount_failed log1 ≡ true) × (is_safe log1 ≡ false)
unfolding run_repo_l2 mount_and_check stop_on stop_broke resolve_snapshot with_scratch scratch_root
mount_lem = (refl, refl)

nothing_left : IsUnmounted []
unfolding IsUnmounted
nothing_left = (refl, refl, refl, refl, refl)

run_repo_l2-left_example :
    let log1 = (run_repo_l2 demo_world "no snapshots" stuck_vault mount_step []).1 in
    (has_scratch log1 ≡ removal_failed log1)
    × (is_mounted log1 ≡ unmount_failed log1)
    × (is_safe log1 ≡ not (unmount_failed log1))
    × (is_running log1 ≡ false)
    × (close_failed log1 ≡ false)
run_repo_l2-left_example =
    run_repo_l2-left demo_world "no snapshots" stuck_vault mount_step [] refl refl refl nothing_left

abbrev no_file : String → DumpFile
no_file id = record {
  base = id;
  extension = ".gz";
  stat = got (pos 10, 7);
  open_error = none;
  gzip = valid;
  zstd = valid;
}

-- A container that cannot be closed.
abbrev stuck_runtime : Runtime
stuck_runtime = record good_runtime { close = λ log. some "no daemon" }

run_step-IsClear_example :
    let log =
      (run_step demo_world no_file
        (λ now t. "age")
        (some stuck_runtime)
        good_repo
        good_vault
        dump_dir
        l3_step
        []).1 in
    (is_running log ≡ close_failed log) × (has_scratch log ≡ removal_failed log)
run_step-IsClear_example =
    run_step-IsClear demo_world no_file (λ now t. "age") (some stuck_runtime) good_repo good_vault
      dump_dir l3_step refl

-- A snapshot of 50 bytes, where the quota is 20 and 1000 bytes are free.
abbrev large_vault : Vault
large_vault = record good_vault { full_size = λ id. pos 50 }

large_lem :
    (resolve_snapshot l2_step large_vault.snapshots "none"
      ≡ got (record { id = "monday"; time = 5; size = pos 10 }))
    × (plan_restore demo_world large_vault l2_step checked_l2
          (record { id = "monday"; time = 5; size = pos 10 })
        ≡ got ([], pos 50))
unfolding resolve_snapshot plan_restore
large_lem = (refl, refl)

run_repo_l2-fits_example :
    let it = run_repo_l2 demo_world "none" large_vault l2_step [] in
    let fit = fits (pos 20) (pos 50) 1000 in
    (has_restored it.1 ≡ fit) × ((fit ≡ true) ⊎ IsErrorReply it.0)
run_repo_l2-fits_example =
    run_repo_l2-fits demo_world "none" large_vault l2_step checked_l2
      (record { id = "monday"; time = 5; size = pos 10 }) [] (pos 50) 1000 refl refl refl refl
      large_lem.0 large_lem.1 refl refl

decompress_to-bound_example : length (decompress_to plain_files "db.sql" (pos 3)).0 ≤ 3
decompress_to-bound_example =
    decompress_to-bound plain_files "db.sql" 3 (λ file p. omega arith) (omega arith)

staged_lem : (decompress_to plain_files "db.sql" (pos 9)).1 ≡ none
unfolding decompress_to copy write quota_writer
staged_lem = refl

decompress_to-whole_example :
    (decompress_to plain_files "db.sql" (pos 9)).0 ≡ joined (dump_bytes ∷ [])
decompress_to-whole_example =
    decompress_to-whole plain_files "db.sql" (pos 9) dump_bytes
      (record { chunks = dump_bytes ∷ []; fault = none }) refl refl staged_lem
