-- ===== src/Examples.antt =====
-- A drill of two levels, an executor for it, and what its runs give: the theorems of the other
-- modules at concrete inputs.
mod Store
mod Orchestrate
mod Scheduler
mod Alerts
mod Exec
mod Config
mod World
mod Redacted
mod Restores
mod Checks
mod Server
use redrill.Prelude.{
  ℕ, ◌+◌, String, Bool, true, false, Option, none, some, List, [], ◌∷◌, str_eq, if◌then◌else◌,
}
use redrill.Prelude.Int.{ℤ, pos}
use redrill.Clock.{Time, second, day}
use redrill.Config.{Retention, L1, L2, Restore, Levels, Drill, Source}
use redrill.Checks.{Status, Evidence}
use redrill.Exec.Step.{Scratch, StepSpec, StepResult, StepReply, done}
use redrill.Store.Model.{Trigger, Result, Run}
use redrill.Orchestrate.Model.{RunOptions}

abbrev pub demo_clock : ℕ → Time
demo_clock n = day + n

abbrev pub demo_l1 : L1
demo_l1 = record {
  native_check = some true;
  snapshot_max_age = none;
  size_anomaly_pct = none;
  read_data_subset_pct = none;
  file_min_bytes = none;
  compression_test = none;
  max_age = none;
}

abbrev pub demo_l2 : L2
demo_l2 = record {
  restore = record { mode = "extract"; scope = "full"; sample = none; include_paths = [] };
  checks = [];
}

abbrev pub demo_drill : Drill
demo_drill = record {
  name = "photos";
  source = "nas";
  schedule = "04:10";
  jitter = pos 0;
  max_proof_age = pos day;
  timeout = pos 0;
  levels = record { l1 = some demo_l1; l2 = some demo_l2; l3 = none };
  retention = record { max_age = pos 0; max_count = pos 0 };
}

abbrev pub demo_source : Source
demo_source = record {
  name = "nas";
  type = "restic";
  repo = "/srv/repo";
  binary = "";
  path = "";
  pattern = "";
  pick = "";
  passphrase_file = "";
  passphrase_env = "";
  ssh_key_file = "";
  password_file = "";
  password_env = "";
  env_file = "";
}

abbrev pub demo_options : RunOptions
demo_options = record {
  trigger = Trigger.schedule;
  level = "";
  scratch = record { dir = "/tmp"; max_bytes = pos 0 };
  keep = false;
}

abbrev demo_evidence : Status → Evidence
demo_evidence st = record {
  kind = "native_check";
  target = "repo";
  expected = "ok";
  actual = "ok";
  status = st;
  weak = false;
}

abbrev pub demo_reply : Status → StepSpec → StepReply
demo_reply st spec = done (record {
  level = spec.level;
  status = st;
  evidence = demo_evidence st ∷ [];
  summary = "1 check";
  files = pos 3;
  bytes = pos 100;
  snapshot = "snap";
  snapshot_time = 5;
  kept_sandbox = "";
})

-- Every level passes; or the first one fails.
abbrev pub all_pass : StepSpec → StepReply
all_pass spec = demo_reply Status.pass spec

abbrev pub all_fail : StepSpec → StepReply
all_fail spec = demo_reply Status.fail spec

abbrev pub manual_run : Time → Run
manual_run t = record {
  id = 0;
  drill = "photos";
  trigger = Trigger.manual;
  started_at = t;
  finished_at = 0;
  result = Result.unset;
  level_reached = "";
  bytes_restored = pos 0;
  files_restored = pos 0;
  duration_ms = pos 0;
  executor = "host";
  snapshot = "";
  snapshot_time = 0;
}

-- The outcome of the run with the id 1.
abbrev pub passed_run : Time → Run
passed_run t = record (manual_run 0) {
  id = 1;
  finished_at = t;
  result = Result.pass;
  level_reached = "l1";
  files_restored = pos 3;
}
