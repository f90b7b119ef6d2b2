-- ===== src/Exec/Third/Level.antt =====
-- internal/exec/l3.go: the third level of a dump directory and of a repository (runDumpdirL3,
-- runBorgL3, runResticL3).
use Prim.Native.String.{◌++◌ as str_append}
use redrill.Prelude.{String, Option, none, some, [], ◌∷◌, str_eq, if◌then◌else◌}
use redrill.Config.{L3}
use redrill.Checks.{got, broke}
use redrill.Sandbox.{Runtime, restored}
use redrill.Exec.Step.{StepSpec, StepReply}
use redrill.Exec.Verdict.{new_result}
use redrill.Exec.Repository.{Snapshot}
use redrill.Exec.World.{
  World, Vault, DumpDir, resolve_snapshot, pinned_dump_changed, with_scratch, clean, no_match,
  Action, stop_on, stop_broke, error_reply, effect,
}
use redrill.Exec.Third.{load_and_check, on_snapshot}

-- The path to extract, empty where there is no configuration.
abbrev pub extract_path_of : Option L3 → String
extract_path_of none = ""
extract_path_of (some l3) = l3.extract_path

module _ (w : World) where
  -- What is restored into the scratch directory, and loaded.
  abbrev pub restore_and_load : Runtime → Vault → StepSpec → Snapshot → String → Action
  restore_and_load rt d step snap root =
      let extract_dir = w.join root "extract" in
      let path = extract_path_of step.l3 in
      stop_on (w.mkdir_error extract_dir) (error_reply (on_snapshot step snap)) (
        effect (restored (path ∷ [])) (
          stop_on (d.restore (snap.id ∷ []) (path ∷ []) extract_dir)
            (λ why. error_reply (on_snapshot step snap) (clean w d.secrets why))
            (load_and_check w rt step d.secrets (w.join extract_dir path) snap root)))

  -- A level that needs the sandbox.
  abbrev pub in_sandbox : Option Runtime → (Runtime → Action) → Action
  in_sandbox none next log = (StepReply.no_sandbox_runtime, log)
  in_sandbox (some rt) next log = next rt log

  abbrev pub missing_path : String → StepSpec → Option String
  missing_path name step =
      if str_eq (extract_path_of step.l3) ""
      then some (str_append name " L3 requires extract_path")
      else none

  -- runBorgL3 and runResticL3: by the texts of their two errors
  unfoldable pub run_repo_l3 : String → String → Option Runtime → Vault → StepSpec → Action
  unfolding load_and_check
  run_repo_l3 name none_msg sandbox d step =
      let plain = error_reply (new_result step) in
      let cleaned = λ (why : String). error_reply (new_result step) (clean w d.secrets why) in
      in_sandbox sandbox (λ rt. stop_on (missing_path name step) plain (
        stop_on d.secret_error plain (
          stop_on d.validate_error cleaned (
            stop_broke (resolve_snapshot step d.snapshots none_msg) cleaned (λ snap.
              with_scratch w step.keep step (error_reply (on_snapshot step snap))
                (restore_and_load rt d step snap))))))

  -- The test of a pinned dump: an error, or none.
  abbrev pub pin_error : DumpDir → StepSpec → Option String
  pin_error d step = if str_eq step.snapshot "" then none else elim (d.stat step.snapshot) [
    | broke why ↦ some (str_append "pinned dump " (str_append step.snapshot (str_append ": " why)))
    | got (mtime, size) ↦ pinned_dump_changed w step mtime
  ]

  -- runDumpdirL3
  unfoldable pub run_dumpdir_l3 : Option Runtime → DumpDir → StepSpec → Action
  unfolding load_and_check
  run_dumpdir_l3 sandbox d step =
      let plain = error_reply (new_result step) in
      in_sandbox sandbox (λ rt. stop_on d.validate_error plain (
        stop_broke (resolve_snapshot step d.snapshots (no_match step d)) plain (λ snap.
          stop_on (pin_error d step) plain (
            with_scratch w step.keep step (error_reply (on_snapshot step snap))
              (load_and_check w rt step [] (d.path snap.id) snap)))))
