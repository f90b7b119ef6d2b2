-- ===== src/Exec/Third/Proven.antt =====
-- What a third level that passes has shown.
use redrill.Prelude.{
  subst, ◌≡◌, sym, ◌∙◌, String, Bool, true, false, ◌&&◌, Option, none, some, List, [], ◌∷◌, map,
  All, arith, inl, inr, Bool-cases, str_eq,
}
use redrill.Config.{L3, Check}
use redrill.Checks.{Status}
use redrill.Sandbox.{
  Runtime, Effect, SandboxSpec, started, Started, running, no_runtime, start_error,
}
use redrill.Exec.Step.{StepSpec, StepResult, StepReply}
use redrill.Exec.Load.{version_trap, pg_major}
use redrill.Exec.Evidence.{aggregate-all_pass, IsPassed}
use redrill.Exec.Repository.{Snapshot}
use redrill.Exec.Stage.{Bytes, plain_dump_major}
use redrill.Exec.World.{World, Vault, DumpDir, Action, effect}
use redrill.Exec.World.Always.{Answers, stop_on-Answers, stop_broke-Answers, with_scratch-Answers}
use redrill.Exec.Third.{
  in_container, version_trap_result, on_start, teardown, load_staged, with_l3, load_and_check,
  on_snapshot,
}
use redrill.Exec.Third.Level.{run_repo_l3, run_dumpdir_l3, restore_and_load, in_sandbox}
use redrill.Exec.Third.Proof.{kind_of, check_kind, Complete, in_container-Complete, fail_pass}

abbrev pub checks_of : Option L3 → List Check
checks_of none = []
checks_of (some l3) = l3.checks

-- A reply that passes has evidence that the dump was loaded and of every configured check, in their
-- order, and all of it passed.
abbrev pub Loaded : Option L3 → StepReply → Type 0
Loaded l3 (StepReply.done res) =
    res.status ≡ Status.pass
    → (map kind_of res.evidence ≡ "load" ∷ map check_kind (checks_of l3))
      × All IsPassed res.evidence
Loaded l3 _ = Unit

Complete-Loaded :
    (w : World) (rt : Runtime) (l3 : L3) (res : StepResult)
    → (res.status ≡ Status.pass → Complete w rt l3 res)
    → Loaded (some l3) (StepReply.done res)
Complete-Loaded w rt l3 res h = λ p. ((h p).0, aggregate-all_pass res.evidence (sym (h p).1 ∙ p))

pub error_pass : {A : Type 0} → Status.error ≡ Status.pass → A
error_pass e = ground arith

module _ (w : World) (rt : Runtime) where
  teardown-Complete :
      (keep : Bool) (ident : Option String) (l3 : L3) (it : StepResult × List Effect)
      → (it.0.status ≡ Status.pass → Complete w rt l3 it.0)
      → let last = (teardown w rt keep ident it).0 in
        last.status ≡ Status.pass → Complete w rt l3 last
  teardown-Complete true none l3 (res, log) h = h
  teardown-Complete true (some id) l3 (res, log) h = h
  teardown-Complete false ident l3 (res, log) h = h

  on_start-Loaded :
      (step : StepSpec) (l3 : L3) (secrets : List String) (format dump_src : String)
      (res : StepResult) (spec : SandboxSpec) (s : Started) (log : List Effect)
      → Loaded (some l3) (on_start w rt step l3 secrets format dump_src res spec s log).0
  unfolding on_start
  on_start-Loaded step l3 secrets format dump_src res spec no_runtime log = tt
  on_start-Loaded step l3 secrets format dump_src res spec (start_error why) log = λ p. error_pass p
  on_start-Loaded step l3 secrets format dump_src res spec (running ident) log =
      let it = in_container w rt step l3 secrets format dump_src res (started spec ∷ log) in
      Complete-Loaded w rt l3 (teardown w rt step.keep ident it).0 (
        teardown-Complete step.keep ident l3 it
          (in_container-Complete w rt step l3 secrets format dump_src res (started spec ∷ log)))

  load_staged-Loaded :
      (step : StepSpec) (l3 : L3) (secrets : List String) (dump_src : String) (res : StepResult)
      (root : String) (file : Bytes) (format : String)
      → Answers (Loaded (some l3)) (load_staged w rt step l3 secrets dump_src res root file format)
  unfolding load_staged version_trap_result Answers
  load_staged-Loaded step l3 secrets dump_src res root file format = λ log.
      elim (Bool-cases (
        str_eq format "plain"
        && version_trap (plain_dump_major w.version_in (w.lines file))
            (pg_major l3.sandbox.image))) [
              | inl e ↦ rw (e) (λ p. fail_pass p)
              | inr e ↦ rw (e) (on_start-Loaded step l3 _ format dump_src res _ _ log)
            ]

  with_l3-Loaded :
      (l3 : Option L3) (next : L3 → Action)
      → ((l : L3) → Answers (Loaded (some l)) (next l))
      → Answers (Loaded l3) (with_l3 w rt l3 next)
  unfolding Answers
  with_l3-Loaded none next h = λ log. tt
  with_l3-Loaded (some l3) next h = h l3

  load_and_check-Loaded :
      (step : StepSpec) (secrets : List String) (dump_src : String) (snap : Snapshot)
      (root : String)
      → Answers (Loaded step.l3) (load_and_check w rt step secrets dump_src snap root)
  unfolding load_and_check
  load_and_check-Loaded step secrets dump_src snap root =
      stop_broke-Answers (Loaded step.l3) _ _ _ (λ why p. error_pass p)
        (λ staged e. with_l3-Loaded step.l3 _ (λ l3.
          load_staged-Loaded step l3 secrets dump_src (on_snapshot step snap) root staged.0
            staged.1))

  restored-Loaded :
      (l3 : Option L3) (e : Effect) (next : Action)
      → Answers (Loaded l3) next
      → Answers (Loaded l3) (effect e next)
  unfolding Answers
  restored-Loaded l3 e next h = λ log. h (e ∷ log)

  restore_and_load-Loaded :
      (d : Vault) (step : StepSpec) (snap : Snapshot) (root : String)
      → Answers (Loaded step.l3) (restore_and_load w rt d step snap root)
  restore_and_load-Loaded d step snap root =
      let P = Loaded step.l3 in
      stop_on-Answers P _ _ _ (λ why p. error_pass p)
        (restored-Loaded step.l3 _ _ (
          stop_on-Answers P _ _ _ (λ why p. error_pass p)
            (load_and_check-Loaded step d.secrets _ snap root)))

module _ (w : World) where
  in_sandbox-Loaded :
      (l3 : Option L3) (sandbox : Option Runtime) (next : Runtime → Action)
      → ((rt : Runtime) → Answers (Loaded l3) (next rt))
      → Answers (Loaded l3) (in_sandbox w sandbox next)
  unfolding Answers
  in_sandbox-Loaded l3 none next h = λ log. tt
  in_sandbox-Loaded l3 (some rt) next h = h rt

  run_repo_l3-Loaded :
      (name none_msg : String) (sandbox : Option Runtime) (d : Vault) (step : StepSpec)
      → Answers (Loaded step.l3) (run_repo_l3 w name none_msg sandbox d step)
  unfolding run_repo_l3
  run_repo_l3-Loaded name none_msg sandbox d step =
      let P = Loaded step.l3 in
      in_sandbox-Loaded step.l3 sandbox _ (λ rt.
        stop_on-Answers P _ _ _ (λ why p. error_pass p)
          (stop_on-Answers P _ _ _ (λ why p. error_pass p)
            (stop_on-Answers P _ _ _ (λ why p. error_pass p)
              (stop_broke-Answers P _ _ _ (λ why p. error_pass p)
                (λ snap e.
                  with_scratch-Answers P w step.keep step _ _ (λ why p. error_pass p)
                    (restore_and_load-Loaded w rt d step snap))))))

  run_dumpdir_l3-Loaded :
      (sandbox : Option Runtime) (d : DumpDir) (step : StepSpec)
      → Answers (Loaded step.l3) (run_dumpdir_l3 w sandbox d step)
  unfolding run_dumpdir_l3
  run_dumpdir_l3-Loaded sandbox d step =
      let P = Loaded step.l3 in
      in_sandbox-Loaded step.l3 sandbox _ (λ rt.
        stop_on-Answers P _ _ _ (λ why p. error_pass p)
          (stop_broke-Answers P _ _ _ (λ why p. error_pass p)
            (λ snap e.
              stop_on-Answers P _ _ _ (λ why p. error_pass p)
                (with_scratch-Answers P w step.keep step _ _ (λ why p. error_pass p)
                  (load_and_check-Loaded w rt step [] _ snap)))))

  -- A third level of a borg or restic repository that passes has evidence that the dump was loaded and of
  -- every check of its configuration, in their order, all of which passed: none vanishes, also none of a
  -- kind that the level does not have.
  pub run_repo_l3-evidence :
      (name none_msg : String) (sandbox : Option Runtime) (d : Vault) (step : StepSpec)
      (log : List Effect) (res : StepResult)
      → (run_repo_l3 w name none_msg sandbox d step log).0 ≡ StepReply.done res
      → res.status ≡ Status.pass
      → (map kind_of res.evidence ≡ "load" ∷ map check_kind (checks_of step.l3))
        × All IsPassed res.evidence
  unfolding Answers
  run_repo_l3-evidence name none_msg sandbox d step log res e =
      subst (λ r. Loaded step.l3 r) e (run_repo_l3-Loaded name none_msg sandbox d step log)

  -- A third level of a dump directory that passes has evidence that the dump was loaded and of every check
  -- of its configuration, in their order, all of which passed.
  pub run_dumpdir_l3-evidence :
      (sandbox : Option Runtime) (d : DumpDir) (step : StepSpec) (log : List Effect)
      (res : StepResult)
      → (run_dumpdir_l3 w sandbox d step log).0 ≡ StepReply.done res
      → res.status ≡ Status.pass
      → (map kind_of res.evidence ≡ "load" ∷ map check_kind (checks_of step.l3))
        × All IsPassed res.evidence
  unfolding Answers
  run_dumpdir_l3-evidence sandbox d step log res e =
      subst (λ r. Loaded step.l3 r) e (run_dumpdir_l3-Loaded sandbox d step log)
