-- ===== src/Checks/Sandboxed.antt =====
-- internal/checks/sql.go, tcp.go and execcheck.go: the checks that run inside the sandbox. Each gives
-- its evidence and the effects; none returns an error of its own.
use Prim.Native.String.{◌++◌ as str_append}
use redrill.Prelude.{ℕ, String, Bool, false, not, ◌&&◌, List, [], ◌∷◌, str_eq, if◌then◌else◌, ◌==◌}
use redrill.Prelude.Int.{ℤ, pos}
use redrill.Clock.{Time}
use redrill.Text.{trim_space, before_newline}
use redrill.Checks.{Status, Evidence, Answer, got, broke}
use redrill.Checks.Snapshot.{Texts}
use redrill.Checks.Expect.{Reader, parse_expect, evaluate}
use redrill.Sandbox.{Runtime, Effect, call}

-- Evidence as a check begins it.
abbrev pub new_evidence : String → String → String → Evidence
new_evidence kind target expected = record {
  kind = kind;
  target = target;
  expected = expected;
  actual = "";
  status = Status.pass;
  weak = false;
}

abbrev pub conclude : Evidence → Status → String → Evidence
conclude ev st actual = record ev { status = st; actual = actual }

-- The verdict of an expectation on the value that a check found.
abbrev pub judge : Evidence → String → Answer Bool → Evidence
judge ev actual (broke why) = conclude ev Status.error (str_append actual (str_append ": " why))
judge ev actual (got ok) = conclude ev (if ok then Status.pass else Status.fail) actual

-- firstLine
unfoldable pub first_line : String → String
first_line s = before_newline (trim_space s)

-- psqlCmd
unfoldable pub psql_cmd : String → String → List String
psql_cmd db query =
    "psql"
    ∷ "-U"
    ∷ "postgres"
    ∷ "-d"
    ∷ (if str_eq db "" then "postgres" else db)
    ∷ "-tAqX"
    ∷ "-v"
    ∷ "ON_ERROR_STOP=1"
    ∷ "-c"
    ∷ query
    ∷ []

module _ (rt : Runtime) where
  -- SQLNoError.Run
  unfoldable pub sql_no_error : String → String → List Effect → Evidence × List Effect
  unfolding first_line psql_cmd
  sql_no_error db query log =
      let ev = new_evidence "sql_no_error" query "no error" in
      let (res, log1) = call rt (psql_cmd db query) log in
      (
        elim res [
          | broke why ↦ conclude ev Status.error (str_append "exec: " why)
          | got r ↦
              if r.exit_code == 0
              then conclude ev Status.pass "ok"
              else conclude ev Status.fail (first_line r.stderr)
        ],
        log1,
      )

  -- SQL.Run
  unfoldable pub sql :
      Reader → Time → String → String → String → List Effect → Evidence × List Effect
  unfolding first_line psql_cmd parse_expect evaluate
  sql read now db query expect log =
      let ev = new_evidence "sql" query expect in
      elim (parse_expect read expect) [
        | broke why ↦ (conclude ev Status.error (str_append "invalid expect: " why), log)
        | got e ↦
            let (res, log1) = call rt (psql_cmd db query) log in
            (
              elim res [
                | broke why ↦ conclude ev Status.error (str_append "exec: " why)
                | got r ↦
                    if not (r.exit_code == 0)
                    then conclude ev Status.error
                        (str_append "query failed: " (first_line r.stderr))
                    else judge ev (trim_space r.stdout) (evaluate read e (trim_space r.stdout) now)
              ],
              log1,
            )
      ]

  module _ (texts : Texts) where
    abbrev num : ℕ → String
    num n = texts.of_int (pos n)

    -- execActual
    unfoldable pub exec_actual : ℕ → String → String
    unfolding first_line
    exec_actual exit output =
        let line = first_line output in
        let s = str_append "exit " (num exit) in
        if str_eq line "" then s else str_append s (str_append ": " line)

    -- ExecSandbox.Run
    unfoldable pub exec_sandbox : String → List Effect → Evidence × List Effect
    unfolding exec_actual
    exec_sandbox command log =
        let ev = new_evidence "exec" command "exit 0" in
        let (res, log1) = call rt ("sh" ∷ "-c" ∷ command ∷ []) log in
        (
          elim res [
            | broke why ↦ conclude ev Status.error (str_append "exec: " why)
            | got r ↦
                let output =
                  if not (r.exit_code == 0) && not (str_eq r.stderr "")
                  then r.stderr
                  else r.stdout in
                conclude ev (if r.exit_code == 0 then Status.pass else Status.fail)
                  (exec_actual r.exit_code output)
          ],
          log1,
        )

    -- TCPPort.Run
    unfoldable pub tcp_port : ℤ → List Effect → Evidence × List Effect
    unfolding first_line
    tcp_port port log =
        let address = str_append "127.0.0.1:" (texts.of_int port) in
        let ev = new_evidence "tcp" address "accepting connections" in
        let probe = str_append "exec 3<>/dev/tcp/127.0.0.1/" (texts.of_int port) in
        let (res, log1) = call rt ("bash" ∷ "-c" ∷ probe ∷ []) log in
        (
          elim res [
            | broke why ↦ conclude ev Status.error (str_append "exec: " why)
            | got r ↦
                let detail = first_line r.stderr in
                if r.exit_code == 0
                then conclude ev Status.pass "connected"
                else conclude ev Status.fail
                    (if str_eq detail "" then str_append "exit " (num r.exit_code) else detail)
          ],
          log1,
        )
