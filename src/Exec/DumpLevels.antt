-- ===== src/Exec/DumpLevels.antt =====
-- internal/exec/exec.go: the first and second level of a directory of dumps (runDumpdirL1, runDumpdirL2),
-- and the choice of the level (RunStep).
use Prim.Native.String.{◌++◌ as str_append}
use redrill.Prelude.{
  String, Bool, not, ◌&&◌, Option, none, some, List, [], ◌∷◌, ◌++◌, str_eq, if◌then◌else◌, map,
}
use redrill.Prelude.Int.{ℤ, pos, ◌+ℤ◌}
use redrill.Clock.{Time}
use redrill.Config.{L1, is_on}
use redrill.Checks.{Evidence, Answer, got, broke}
use redrill.Checks.Dump.{DumpFile, file_min_bytes, compression_test, max_age}
use redrill.Sandbox.{Runtime}
use redrill.Exec.Step.{StepSpec, StepResult, StepReply}
use redrill.Exec.Verdict.{new_result}
use redrill.Exec.Repository.{
  Snapshot, Repository, redact_evidence, run_repo_l1, borg_pct, restic_pct,
}
use redrill.Exec.World.{
  World, Vault, DumpDir, Action, stop_on, stop_broke, error_reply, pinned_dump_changed,
  with_scratch, clean, no_match,
}
use redrill.Exec.Second.{restore_and_check, run_repo_l2, with_l2}
use redrill.Exec.Third.{finished, on_snapshot}
use redrill.Exec.Third.Level.{run_repo_l3, run_dumpdir_l3}

-- The dumps that a source picks of those listed.
abbrev pub window : String → List Snapshot → List Snapshot
window pick [] = []
window pick (s ∷ ss) = if str_eq pick "all-matching-window" then s ∷ ss else s ∷ []

abbrev pub total_size : List Snapshot → ℤ
total_size [] = pos 0
total_size (s ∷ ss) = s.size +ℤ total_size ss

-- The level and the type of source of a step.
abbrev pub is_step : StepSpec → String → String → Bool
is_step step level kind = str_eq step.level level && str_eq step.source.type kind

-- An empty list is an error.
abbrev pub some_listed : String → Answer (List Snapshot) → Answer (Snapshot × List Snapshot)
some_listed why (broke e) = broke e
some_listed why (got []) = broke why
some_listed why (got (s ∷ ss)) = got (s, s ∷ ss)

module _ (w : World) (file_of : String → DumpFile) (age_text : Time → Time → String) where
  -- l1Checks, and the evidence of each
  unfoldable pub l1_checks : Option L1 → Time → String → List Evidence
  l1_checks none now id = []
  l1_checks (some l) now id =
      elim l.file_min_bytes [
        | none ↦ []
        | some min ↦ file_min_bytes w.texts age_text (file_of id) min ∷ []
      ]
      ++ (if is_on l.compression_test
          then compression_test w.texts age_text (file_of id) ∷ []
          else [])
      ++ elim l.max_age [
        | none ↦ []
        | some max ↦ max_age w.texts age_text (file_of id) max now ∷ []
      ]

  abbrev pub audit : Option L1 → Time → List Snapshot → List Evidence
  audit l now [] = []
  audit l now (s ∷ ss) =
      map (redact_evidence w.texts (clean w [])) (l1_checks l now s.id) ++ audit l now ss

  abbrev pub audited : StepResult → StepReply
  audited res = elim res.evidence [
    | [] ↦ error_reply res "no L1 checks produced evidence"
    | _ ∷ _ ↦ StepReply.done (finished w [] res)
  ]

  -- runDumpdirL1
  unfoldable pub run_dumpdir_l1 : DumpDir → StepSpec → Action
  unfolding l1_checks
  run_dumpdir_l1 d step =
      let plain = error_reply (new_result step) in
      stop_on d.validate_error plain (
        stop_broke (some_listed (no_match step d) d.snapshots) plain (λ listed log. (
          audited (record (on_snapshot step listed.0) {
            evidence = audit step.l1 step.now (window step.source.pick listed.1);
          }),
          log,
        )))

module _ (w : World) where
  -- The dumps to restore, their size, and the result that names the snapshot.
  abbrev pub Plan : Type 0
  Plan = List String × ℤ × StepResult

  abbrev pub plan_pinned : DumpDir → StepSpec → Answer Plan
  plan_pinned d step = elim (d.stat step.snapshot) [
    | broke why ↦ broke (str_append "pinned dump " (str_append step.snapshot (str_append ": " why)))
    | got (mtime, size) ↦ elim (pinned_dump_changed w step mtime) [
      | some why ↦ broke why
      | none ↦ got (step.snapshot ∷ [], size, record (new_result step) { snapshot = step.snapshot })
    ]
  ]

  abbrev pub plan_listed : DumpDir → StepSpec → Answer Plan
  plan_listed d step = elim (some_listed (no_match step d) d.snapshots) [
    | broke why ↦ broke why
    | got (newest, snaps) ↦
        let selected = window step.source.pick snaps in
        got (map (λ s. s.id) selected, total_size selected, on_snapshot step newest)
  ]

  unfoldable pub plan_dumps : DumpDir → StepSpec → Answer Plan
  unfolding pinned_dump_changed
  plan_dumps d step =
      if not (str_eq step.snapshot "") && not (str_eq step.source.pick "all-matching-window")
      then plan_pinned d step
      else plan_listed d step

  -- runDumpdirL2
  unfoldable pub run_dumpdir_l2 : DumpDir → StepSpec → Action
  unfolding plan_dumps
  run_dumpdir_l2 d step =
      let plain = error_reply (new_result step) in
      with_l2 w step step.l2 (λ l2. stop_on d.validate_error plain (
        stop_broke (plan_dumps d step) plain (λ plan.
          with_scratch w step.keep step (error_reply plan.2) (
            restore_and_check w (λ paths root. d.restore plan.0 root) [] step l2 plan.2 []
              plan.1))))

  -- RunStep: the borg and restic drivers of the source, and its directory of dumps.
  unfoldable pub run_step :
      (String → DumpFile)
      → (Time → Time → String)
      → Option Runtime
      → Repository
      → Vault
      → DumpDir
      → StepSpec
      → Action
  unfolding run_dumpdir_l1 run_dumpdir_l2 run_repo_l2 run_repo_l3 run_dumpdir_l3 run_repo_l1
  run_step file_of age_text sandbox repo vault dumps step log =
      let redacted = clean w vault.secrets in
      if is_step step "l1" "dumpdir"
      then run_dumpdir_l1 w file_of age_text dumps step log
      else if is_step step "l1" "borg"
      then (StepReply.done (run_repo_l1 w.texts redacted borg_pct repo step), log)
      else if is_step step "l2" "borg"
      then run_repo_l2 w "no archives in repository" vault step log
      else if is_step step "l2" "dumpdir"
      then run_dumpdir_l2 dumps step log
      else if is_step step "l3" "dumpdir"
      then run_dumpdir_l3 w sandbox dumps step log
      else if is_step step "l3" "borg"
      then run_repo_l3 w "borg" "no archives in repository" sandbox vault step log
      else if is_step step "l1" "restic"
      then (StepReply.done (run_repo_l1 w.texts redacted restic_pct repo step), log)
      else if is_step step "l2" "restic"
      then run_repo_l2 w "no snapshots in repository" vault step log
      else if is_step step "l3" "restic"
      then run_repo_l3 w "restic" "no snapshots in repository" sandbox vault step log
      else (StepReply.unsupported, log)
