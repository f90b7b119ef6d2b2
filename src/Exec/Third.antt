-- ===== src/Exec/Third.antt =====
-- internal/exec/l3.go: the third level, in which a dump is loaded into a sandbox and checked there. Each
-- part gives its answer and the effects, newest first.
pub mod Level
pub mod Tidy
pub mod Closed
pub mod Proof
pub mod Proven
use Prim.Native.String.{◌++◌ as str_append}
use redrill.Prelude.{
  ℕ, String, Bool, true, false, not, ◌||◌, ◌&&◌, Option, none, some, List, [], ◌∷◌, ◌++◌, str_eq,
  if◌then◌else◌,
}
use redrill.Prelude.Int.{ℤ, pos}
use redrill.Clock.{Time}
use redrill.Config.{L3, Check}
use redrill.Checks.{Status, Evidence, Answer, got, broke}
use redrill.Checks.Sandboxed.{sql, sql_no_error, exec_sandbox, tcp_port}
use redrill.Redact.{add_env, redact}
use redrill.Sandbox.{
  Runtime, Effect, Started, SandboxSpec, started, closed, restored, running, no_runtime,
  start_error,
}
use redrill.Exec.Step.{StepSpec, StepResult, StepReply}
use redrill.Exec.Verdict.{aggregate, summarize, new_result, error_step}
use redrill.Exec.Repository.{Snapshot, redact_evidence}
use redrill.Exec.Stage.{stage_dump, plain_dump_major}
use redrill.Exec.Load.{
  container_dump_path, resolve_loader, pg_major, version_trap, l3_spec, load_dump, list_databases,
  loaded_db, custom_dump_major,
}
use redrill.Exec.World.{
  World, Vault, resolve_snapshot, pinned_dump_changed, with_scratch, clean, Action, error_reply,
  stop_broke,
}

-- A check on the sandbox, as buildL3Check makes it.
abbrev pub Probe : Type 0
Probe = List Effect → Evidence × List Effect

-- Evidence of a check that the level does not have.
abbrev pub unsupported_check : String → Evidence
unsupported_check kind = record {
  kind = kind;
  target = "";
  expected = "";
  actual = "check kind not supported at this level";
  status = Status.error;
  weak = false;
}

-- The environment's variables, as loadAndCheck registers them.
abbrev pub add_envs : World → List (String × String) → List String → List String
add_envs w [] secrets = secrets
add_envs w ((k, v) ∷ rest) secrets = add_envs w rest (add_env w.redaction k v secrets)

-- The result, for the caller, of a level that is done.
abbrev pub finished : World → List String → StepResult → StepResult
finished w secrets res = record res {
  status = aggregate res.evidence;
  summary = clean w secrets (summarize w.texts (aggregate res.evidence) res.evidence);
}

-- A result that names the snapshot.
abbrev pub on_snapshot : StepSpec → Snapshot → StepResult
on_snapshot step snap = record (new_result step) { snapshot = snap.id; snapshot_time = snap.time }

module _ (w : World) (rt : Runtime) where
  -- buildL3Check and l3Builders
  unfoldable pub build_l3_check : Time → Check → String → Option Probe
  build_l3_check now cc db =
      if str_eq cc.kind "sql"
      then elim cc.sql [ none ↦ none | some q ↦ some (sql rt w.reader now db q.query q.expect) ]
      else if str_eq cc.kind "sql_no_error"
      then some (sql_no_error rt db cc.sql_no_error)
      else if str_eq cc.kind "exec"
      then some (exec_sandbox rt w.texts cc.exec)
      else if str_eq cc.kind "tcp"
      then some (tcp_port rt w.texts cc.tcp_port)
      else none

  -- The evidence of one configured check.
  abbrev pub check_evidence :
      List String → String → Option Probe → List Effect → Evidence × List Effect
  check_evidence secrets kind none log = (unsupported_check kind, log)
  check_evidence secrets kind (some probe) log =
      let (ev, log1) = probe log in (redact_evidence w.texts (clean w secrets) ev, log1)

  -- The loop over the checks.
  unfoldable pub run_checks :
      List String → Time → String → List Check → List Effect → List Evidence × List Effect
  unfolding build_l3_check
  run_checks secrets now db [] log = ([], log)
  run_checks secrets now db (cc ∷ ccs) log =
      let (ev, log1) = check_evidence secrets cc.kind (build_l3_check now cc db) log in
      let (evs, log2) = run_checks secrets now db ccs log1 in (ev ∷ evs, log2)

  -- versionTrapResult
  unfoldable pub version_trap_result : StepResult → ℕ → ℕ → String → List String → StepResult
  version_trap_result res dump_major image_major dump_src secrets =
      let num = λ (n : ℕ). w.texts.of_int (pos n) in
      let ev = redact_evidence w.texts (clean w secrets) (record {
        kind = "load";
        target = w.files.base dump_src;
        expected = str_append "loadable into postgres " (num image_major);
        actual =
            str_append "dump is from postgres " (str_append (num dump_major) " — version trap");
        status = Status.fail;
        weak = false;
      }) in
      record res {
        evidence = res.evidence ++ ev ∷ [];
        status = Status.fail;
        summary = clean w secrets (str_append "version trap: " ev.actual);
      }

  -- The load, the name of the loaded database, and the checks.
  unfoldable pub load_and_probe :
      StepSpec → L3 → List String → String → StepResult → List Effect → StepResult × List Effect
  unfolding run_checks
  load_and_probe step l3 secrets format res log =
      let (before, log1) = list_databases rt log in
      let (load, log2) = load_dump w.lower w.load_texts rt (resolve_loader l3.load format) log1 in
      let (db, log3) = loaded_db rt before log2 in
      let (evs, log4) = run_checks secrets step.now db l3.checks log3 in
      (
        finished w secrets
            (record res { evidence = redact_evidence w.texts (clean w secrets) load ∷ evs }),
        log4,
      )

  -- What is done in a container that runs.
  unfoldable pub in_container :
      StepSpec
      → L3
      → List String
      → String
      → String
      → StepResult
      → List Effect
      → StepResult × List Effect
  unfolding load_and_probe version_trap_result
  in_container step l3 secrets format dump_src res log =
      if str_eq format "custom"
      then (let (major, log1) = custom_dump_major rt w.version_in log in
          let rest = load_and_probe step l3 secrets format res log1 in
          if version_trap major (pg_major l3.sandbox.image)
          then (version_trap_result res major (pg_major l3.sandbox.image) dump_src secrets, log1)
          else rest)
      else load_and_probe step l3 secrets format res log

  -- The deferred call: the container is closed, whose error is dropped, or kept and named.
  abbrev pub teardown : Bool → Option String → StepResult × List Effect → StepResult × List Effect
  teardown keep ident (res, log) =
      if keep
      then (elim ident [ none ↦ res | some id ↦ record res { kept_sandbox = id } ], log)
      else (res, closed (rt.close log) ∷ log)

  -- From what Start returned.
  unfoldable pub on_start :
      StepSpec → L3 → List String → String → String → StepResult → SandboxSpec → Started → Action
  unfolding in_container
  on_start step l3 secrets format dump_src res spec no_runtime log =
      (StepReply.no_sandbox_runtime, log)
  on_start step l3 secrets format dump_src res spec (start_error why) log =
      (error_reply res (clean w secrets why), log)
  on_start step l3 secrets format dump_src res spec (running ident) log =
      let (last, log1) =
        teardown step.keep ident
          (in_container step l3 secrets format dump_src res (started spec ∷ log)) in
      (StepReply.done last, log1)

  -- What follows the staging of the dump, with a third level's configuration.
  unfoldable pub load_staged :
      StepSpec → L3 → List String → String → StepResult → String → List ℕ → String → Action
  unfolding on_start version_trap_result
  load_staged step l3 secrets dump_src res root file format log =
      let major = plain_dump_major w.version_in (w.lines file) in
      let image = pg_major l3.sandbox.image in
      let known = add_envs w l3.sandbox.env secrets in
      let spec = l3_spec w.texts step l3 (w.join root "dump") in
      let rest = on_start step l3 known format dump_src res spec (rt.start log spec) log in
      if str_eq format "plain" && version_trap major image
      then (StepReply.done (version_trap_result res major image dump_src secrets), log)
      else rest

  abbrev pub with_l3 : Option L3 → (L3 → Action) → Action
  with_l3 none next log = (StepReply.panicked "nil pointer dereference", log)
  with_l3 (some l3) next log = next l3 log

  -- loadAndCheck; with no configuration, which is a nil pointer, it panics once the dump is staged.
  unfoldable pub load_and_check : StepSpec → List String → String → Snapshot → String → Action
  unfolding load_staged
  load_and_check step secrets dump_src snap root =
      let res = on_snapshot step snap in
      stop_broke (stage_dump w.files dump_src step.scratch.max_bytes)
        (λ why. error_reply res (clean w secrets why))
        (λ staged.
          with_l3 step.l3 (λ l3. load_staged step l3 secrets dump_src res root staged.0 staged.1))
