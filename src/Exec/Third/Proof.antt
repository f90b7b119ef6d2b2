-- ===== src/Exec/Third/Proof.antt =====
-- What the evidence of a third level is: no configured check vanishes.
use redrill.Prelude.{
  ◌≡◌, refl, ap, ◌∙◌, String, true, Option, none, some, List, [], ◌∷◌, map, arith, inl, inr,
  Bool-cases, str_eq, eq_iff,
}
use redrill.Prelude.Int.{ℤ}
use redrill.Clock.{Time}
use redrill.Config.{L3, Check, SqlCheck}
use redrill.Checks.{Status, Evidence}
use redrill.Checks.Sandboxed.{sql, sql_no_error, exec_sandbox, tcp_port}
use redrill.Sandbox.{Runtime, Effect}
use redrill.Exec.Step.{StepSpec, StepResult}
use redrill.Exec.Load.{
  load_dump, list_databases, loaded_db, custom_dump_major, load_verdict, LoadTexts, resolve_loader,
  version_trap, pg_major,
}
use redrill.Exec.Verdict.{aggregate}
use redrill.Exec.World.{World}
use redrill.Exec.Third.{
  Probe, build_l3_check, check_evidence, run_checks, load_and_probe, in_container,
  version_trap_result,
}

-- A check that, if it is made, names its evidence so.
data Named (kind : String) : Option Probe → Type 0 where
  unmade : Named kind none
  made :
      (probe : Probe) → ((log : List Effect) → (probe log).0.kind ≡ kind) → Named kind (some probe)

abbrev pub kind_of : Evidence → String
kind_of ev = ev.kind

abbrev pub check_kind : Check → String
check_kind c = c.kind

pub same_text : (s t : String) → str_eq s t ≡ true → t ≡ s
same_text s t e = ground (arith, eq_iff s t)

pub fail_pass : {A : Type 0} → Status.fail ≡ Status.pass → A
fail_pass e = ground arith

module _ (w : World) (rt : Runtime) where
  sql-kind :
      (now : Time) (db query expect : String) (log : List Effect)
      → (sql rt w.reader now db query expect log).0.kind ≡ "sql"
  unfolding sql
  sql-kind now db query expect log = ground arith

  sql_no_error-kind :
      (db query : String) (log : List Effect)
      → (sql_no_error rt db query log).0.kind ≡ "sql_no_error"
  unfolding sql_no_error
  sql_no_error-kind db query log = ground arith

  exec_sandbox-kind :
      (command : String) (log : List Effect) → (exec_sandbox rt w.texts command log).0.kind ≡ "exec"
  unfolding exec_sandbox
  exec_sandbox-kind command log = ground arith

  tcp_port-kind : (port : ℤ) (log : List Effect) → (tcp_port rt w.texts port log).0.kind ≡ "tcp"
  unfolding tcp_port
  tcp_port-kind port log = ground arith

  asked-Named :
      (now : Time) (db kind : String) (q : Option SqlCheck)
      → "sql" ≡ kind
      → Named kind
          (elim q [ none ↦ none | some c ↦ some (sql rt w.reader now db c.query c.expect) ])
  asked-Named now db kind none e = unmade
  asked-Named now db kind (some c) e = made _ (λ log. sql-kind now db c.query c.expect log ∙ e)

  build_l3_check-Named :
      (now : Time) (c : Check) (db : String) → Named c.kind (build_l3_check w rt now c db)
  unfolding build_l3_check
  build_l3_check-Named now c db = elim (Bool-cases (str_eq c.kind "sql")) [
    | inl e ↦ rw (build_l3_check, e) (asked-Named now db c.kind c.sql (same_text c.kind "sql" e))
    | inr e ↦
        rw (build_l3_check, e)
          (elim (Bool-cases (str_eq c.kind "sql_no_error")) [
            | inl f ↦ rw (f) (
                made (sql_no_error rt db c.sql_no_error) (λ log.
                  sql_no_error-kind db c.sql_no_error log ∙ same_text c.kind "sql_no_error" f))
            | inr f ↦ rw (f) (elim (Bool-cases (str_eq c.kind "exec")) [
              | inl g ↦ rw (g) (
                  made (exec_sandbox rt w.texts c.exec)
                    (λ log. exec_sandbox-kind c.exec log ∙ same_text c.kind "exec" g))
              | inr g ↦ rw (g) (elim (Bool-cases (str_eq c.kind "tcp")) [
                | inl k ↦ rw (k) (
                    made (tcp_port rt w.texts c.tcp_port)
                      (λ log. tcp_port-kind c.tcp_port log ∙ same_text c.kind "tcp" k))
                | inr k ↦ rw (k) unmade
              ])
            ])
          ])
  ]

  check_evidence-kind :
      (secrets : List String) (kind : String) (o : Option Probe) (log : List Effect)
      → Named kind o
      → (check_evidence w rt secrets kind o log).0.kind ≡ kind
  check_evidence-kind secrets kind none log unmade = refl
  check_evidence-kind secrets kind (some probe) log (made _ h) = h log

  -- There is evidence of every configured check, in order.
  run_checks-kinds :
      (secrets : List String) (now : Time) (db : String) (cs : List Check) (log : List Effect)
      → map kind_of (run_checks w rt secrets now db cs log).0 ≡ map check_kind cs
  unfolding run_checks
  run_checks-kinds secrets now db [] log = refl
  run_checks-kinds secrets now db (c ∷ cs) log =
      let one = check_evidence w rt secrets c.kind (build_l3_check w rt now c db) log in
      let named = check_evidence-kind secrets c.kind _ log (build_l3_check-Named now c db) in
      ap (λ k. k ∷ map kind_of (run_checks w rt secrets now db cs one.1).0) named
      ∙ ap (λ ks. c.kind ∷ ks) (run_checks-kinds secrets now db cs one.1)

  -- The verdict of a load that was done is that of its evidence, and it has a load and every check.
  abbrev pub Complete : L3 → StepResult → Type 0
  Complete l3 res =
      (map kind_of res.evidence ≡ "load" ∷ map check_kind l3.checks)
      × (res.status ≡ aggregate res.evidence)

  load_dump-kind :
      (lower : String → String) (say : LoadTexts) (loader : String) (log : List Effect)
      → (load_dump lower say rt loader log).0.kind ≡ "load"
  unfolding load_dump load_verdict
  load_dump-kind lower say loader log = ground arith

  load_and_probe-Complete :
      (step : StepSpec) (l3 : L3) (secrets : List String) (format : String) (res : StepResult)
      (log : List Effect)
      → Complete l3 (load_and_probe w rt step l3 secrets format res log).0
  unfolding load_and_probe
  load_and_probe-Complete step l3 secrets format res log =
      let (before, log1) = list_databases rt log in
      let (load, log2) = load_dump w.lower w.load_texts rt (resolve_loader l3.load format) log1 in
      let (db, log3) = loaded_db rt before log2 in
      let kinds = map kind_of (run_checks w rt secrets step.now db l3.checks log3).0 in
      (
        ap (λ k. k ∷ kinds)
              (load_dump-kind w.lower w.load_texts (resolve_loader l3.load format) log1)
            ∙ ap (λ ks. "load" ∷ ks) (run_checks-kinds secrets step.now db l3.checks log3),
        refl,
      )

  -- A level that passes is complete; one with a version trap does not pass.
  pub in_container-Complete :
      (step : StepSpec) (l3 : L3) (secrets : List String) (format dump_src : String)
      (res : StepResult) (log : List Effect)
      → let last = (in_container w rt step l3 secrets format dump_src res log).0 in
        last.status ≡ Status.pass → Complete l3 last
  unfolding in_container version_trap_result
  in_container-Complete step l3 secrets format dump_src res log =
      elim (Bool-cases (str_eq format "custom")) [
        | inl e ↦ rw (e) (
            let (major, log1) = custom_dump_major rt w.version_in log in
            elim (Bool-cases (version_trap major (pg_major l3.sandbox.image))) [
              | inl t ↦ rw (t) (λ p. fail_pass p)
              | inr t ↦ rw (t) (λ p. load_and_probe-Complete step l3 secrets format res log1)
            ])
        | inr e ↦ rw (e) (λ p. load_and_probe-Complete step l3 secrets format res log)
      ]
