-- ===== src/Exec/Third/Tidy.antt =====
-- The parts of a third level close the container, unless it is kept, and leave the scratch directory
-- alone.
use redrill.Prelude.{
  ◌≡◌, refl, sym, ◌∙◌, true, String, Bool, false, Option, none, some, List, [], ◌∷◌, arith, inl,
  inr, Bool-cases, str_eq, ◌&&◌,
}
use redrill.Clock.{Time}
use redrill.Config.{L3, Check, SqlCheck}
use redrill.Checks.Sandboxed.{sql, sql_no_error, exec_sandbox, tcp_port}
use redrill.Sandbox.{
  Runtime, Effect, Untouched, is_running, has_scratch, close_failed, removal_failed, started,
  closed, SandboxSpec, running, no_runtime, start_error, Started,
}
use redrill.Exec.Stage.{Bytes, plain_dump_major}
use redrill.Exec.Step.{StepSpec, StepResult}
use redrill.Exec.Load.{
  load_dump, list_databases, loaded_db, custom_dump_major, version_trap, pg_major,
}
use redrill.Exec.World.{World}
use redrill.Exec.World.Always.{Tidy}
use redrill.Exec.Third.{
  Probe, build_l3_check, check_evidence, run_checks, load_and_probe, in_container, teardown,
  on_start, load_staged,
}

Untouched-trans : (a b c : List Effect) → Untouched a b → Untouched b c → Untouched a c
Untouched-trans a b c p q = (q.0 ∙ p.0, q.1 ∙ p.1, q.2 ∙ p.2, q.3 ∙ p.3)

-- A check that, if it is made, leaves the container and the scratch directory as they were.
data Quiet : Option Probe → Type 0 where
  unmade : Quiet none
  made : (probe : Probe) → ((log : List Effect) → Untouched log (probe log).1) → Quiet (some probe)

module _ (w : World) (rt : Runtime) where
  sql-Quiet :
      (now : Time) (db query expect : String) → Quiet (some (sql rt w.reader now db query expect))
  unfolding sql
  sql-Quiet now db query expect = made _ (λ log. ground arith)

  asked-Quiet :
      (now : Time) (db : String) (q : Option SqlCheck)
      → Quiet (elim q [ none ↦ none | some c ↦ some (sql rt w.reader now db c.query c.expect) ])
  asked-Quiet now db none = unmade
  asked-Quiet now db (some c) = sql-Quiet now db c.query c.expect

  build_l3_check-Quiet :
      (now : Time) (c : Check) (db : String) → Quiet (build_l3_check w rt now c db)
  unfolding build_l3_check sql_no_error exec_sandbox tcp_port
  build_l3_check-Quiet now c db = elim (Bool-cases (str_eq c.kind "sql")) [
    | inl e ↦ rw (build_l3_check, e) (asked-Quiet now db c.sql)
    | inr e ↦
        rw (build_l3_check, e)
          (elim (Bool-cases (str_eq c.kind "sql_no_error")) [
            | inl f ↦
                rw (f) (made (sql_no_error rt db c.sql_no_error) (λ log. (refl, refl, refl, refl)))
            | inr f ↦ rw (f) (elim (Bool-cases (str_eq c.kind "exec")) [
              | inl g ↦
                  rw (g) (made (exec_sandbox rt w.texts c.exec) (λ log. (refl, refl, refl, refl)))
              | inr g ↦ rw (g) (elim (Bool-cases (str_eq c.kind "tcp")) [
                | inl k ↦
                    rw (k) (made (tcp_port rt w.texts c.tcp_port) (λ log. (refl, refl, refl, refl)))
                | inr k ↦ rw (k) unmade
              ])
            ])
          ])
  ]

  check_evidence-Untouched :
      (secrets : List String) (kind : String) (o : Option Probe) (log : List Effect)
      → Quiet o
      → Untouched log (check_evidence w rt secrets kind o log).1
  check_evidence-Untouched secrets kind none log unmade = (refl, refl, refl, refl)
  check_evidence-Untouched secrets kind (some probe) log (made _ h) = h log

  run_checks-Untouched :
      (secrets : List String) (now : Time) (db : String) (cs : List Check) (log : List Effect)
      → Untouched log (run_checks w rt secrets now db cs log).1
  unfolding run_checks
  run_checks-Untouched secrets now db [] log = (refl, refl, refl, refl)
  run_checks-Untouched secrets now db (c ∷ cs) log =
      let one = check_evidence w rt secrets c.kind (build_l3_check w rt now c db) log in
      Untouched-trans log one.1 (run_checks w rt secrets now db cs one.1).1
        (check_evidence-Untouched secrets c.kind _ log (build_l3_check-Quiet now c db))
        (run_checks-Untouched secrets now db cs one.1)

  load_and_probe-Untouched :
      (step : StepSpec) (l3 : L3) (secrets : List String) (format : String) (res : StepResult)
      (log : List Effect)
      → Untouched log (load_and_probe w rt step l3 secrets format res log).1
  unfolding load_and_probe list_databases load_dump loaded_db
  load_and_probe-Untouched step l3 secrets format res log =
      run_checks-Untouched secrets step.now _ l3.checks _

  in_container-Untouched :
      (step : StepSpec) (l3 : L3) (secrets : List String) (format dump_src : String)
      (res : StepResult) (log : List Effect)
      → Untouched log (in_container w rt step l3 secrets format dump_src res log).1
  unfolding in_container custom_dump_major
  in_container-Untouched step l3 secrets format dump_src res log =
      elim (Bool-cases (str_eq format "custom")) [
        | inl e ↦ rw (e) (
            let (major, log1) = custom_dump_major rt w.version_in log in
            elim (Bool-cases (version_trap major (pg_major l3.sandbox.image))) [
              | inl t ↦ rw (t) (refl, refl, refl, refl)
              | inr t ↦ rw (t) (load_and_probe-Untouched step l3 secrets format res log1)
            ])
        | inr e ↦ rw (e) (load_and_probe-Untouched step l3 secrets format res log)
      ]

  closed-running :
      (e : Option String) (log : List Effect)
      → is_running log ≡ true
      → close_failed log ≡ false
      → is_running (closed e ∷ log) ≡ close_failed (closed e ∷ log)
  closed-running none log r c = sym c
  closed-running (some why) log r c = r

  -- A container that was started is closed, unless it is kept.
  teardown-closed :
      (keep : Bool) (ident : Option String) (it : StepResult × List Effect)
      → keep ≡ false
      → is_running it.1 ≡ true
      → close_failed it.1 ≡ false
      → let log = (teardown w rt keep ident it).1 in
        (is_running log ≡ close_failed log)
        × (has_scratch log ≡ has_scratch it.1)
        × (removal_failed log ≡ removal_failed it.1)
  teardown-closed keep ident (res, log) k r c = rw (k) (closed-running _ log r c, refl, refl)

  started-Tidy :
      (step : StepSpec) (l3 : L3) (secrets : List String) (format dump_src : String)
      (res : StepResult) (log : List Effect) (spec : SandboxSpec) (ident : Option String)
      → step.keep ≡ false
      → Tidy log
          (teardown w rt step.keep ident
            (in_container w rt step l3 secrets format dump_src res (started spec ∷ log))).1
  unfolding Tidy
  started-Tidy step l3 secrets format dump_src res log spec ident k r c =
      let it = in_container w rt step l3 secrets format dump_src res (started spec ∷ log) in
      let kept = in_container-Untouched step l3 secrets format dump_src res (started spec ∷ log) in
      let ended = teardown-closed step.keep ident it k kept.0 (kept.2 ∙ c) in
      (ended.0, ended.1 ∙ kept.1, ended.2 ∙ kept.3)

  on_start-Tidy :
      (step : StepSpec) (l3 : L3) (secrets : List String) (format dump_src : String)
      (res : StepResult) (spec : SandboxSpec) (s : Started) (log : List Effect)
      → step.keep ≡ false
      → Tidy log (on_start w rt step l3 secrets format dump_src res spec s log).1
  unfolding on_start Tidy
  on_start-Tidy step l3 secrets format dump_src res spec no_runtime log k r c =
      (r ∙ sym c, refl, refl)
  on_start-Tidy step l3 secrets format dump_src res spec (start_error why) log k r c =
      (r ∙ sym c, refl, refl)
  on_start-Tidy step l3 secrets format dump_src res spec (running ident) log k r c =
      started-Tidy step l3 secrets format dump_src res log spec ident k r c

  pub load_staged-Tidy :
      (step : StepSpec) (l3 : L3) (secrets : List String) (dump_src : String) (res : StepResult)
      (root : String) (file : Bytes) (format : String) (log : List Effect)
      → step.keep ≡ false
      → Tidy log (load_staged w rt step l3 secrets dump_src res root file format log).1
  unfolding load_staged Tidy
  load_staged-Tidy step l3 secrets dump_src res root file format log k r c =
      elim (Bool-cases (
        str_eq format "plain"
        && version_trap (plain_dump_major w.version_in (w.lines file))
            (pg_major l3.sandbox.image))) [
              | inl e ↦ rw (e) (r ∙ sym c, refl, refl)
              | inr e ↦ rw (e) (on_start-Tidy step l3 _ format dump_src res _ _ log k r c)
            ]
