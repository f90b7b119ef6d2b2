-- ===== src/Examples/Exec.antt =====
-- A first level of a repository.
use redrill.Prelude.{◌≡◌, refl, String, true, false, none, some, []}
use redrill.Prelude.Int.{pos}
use redrill.Examples.{demo_source, demo_options, demo_l1}
use redrill.Config.Validate.{validate_l1}
use redrill.Config.{has_verdict_check}
use redrill.Checks.{Status, is_fail, is_error, got}
use redrill.Checks.Snapshot.{Texts}
use redrill.Exec.Step.{StepSpec}
use redrill.Exec.Repository.{
  Repository, run_repo_l1, borg_pct, native_check_evidence, archive_checks,
}
use redrill.Exec.Verdict.{has_evidence, aggregate, summarize}
use redrill.Exec.Evidence.{has_proof, run_repo_l1-proof}

abbrev pub plain_texts : Texts
plain_texts = record {
  of_int = λ n. "n";
  of_duration = λ d. "d";
  of_rounded = λ d. "d";
  of_sizes = λ n ns p. "s";
}

abbrev shown : String → String
shown s = s

abbrev pub good_repo : Repository
good_repo = record {
  name = "borg";
  secret_error = none;
  validate_error = none;
  native_check = λ pct. got (record { ok = true; summary = "no errors" });
  snapshots = got [];
  size_of = λ id. none;
}

abbrev pub l1_step : StepSpec
l1_step = record {
  run_id = 1;
  drill = "photos";
  level = "l1";
  source = demo_source;
  l1 = some demo_l1;
  l2 = none;
  l3 = none;
  now = 9;
  scratch = demo_options.scratch;
  prev_file_count = pos 0;
  snapshot = "";
  snapshot_time = 0;
  keep = false;
}

l1_lem :
    (validate_l1 "drills[0].levels.l1" "borg" demo_l1 ≡ [])
    × ((run_repo_l1 plain_texts shown borg_pct good_repo l1_step).status ≡ Status.pass)
unfolding validate_l1 has_verdict_check run_repo_l1 native_check_evidence archive_checks aggregate
    summarize
l1_lem = (refl, refl)

run_repo_l1-proof_example :
    let res = run_repo_l1 plain_texts shown borg_pct good_repo l1_step in
    (has_proof res.evidence ≡ true)
    × (has_evidence is_fail res.evidence ≡ false)
    × (has_evidence is_error res.evidence ≡ false)
run_repo_l1-proof_example =
    run_repo_l1-proof plain_texts shown "drills[0].levels.l1" "borg" borg_pct good_repo l1_step
      demo_l1 refl refl l1_lem.0 l1_lem.1
