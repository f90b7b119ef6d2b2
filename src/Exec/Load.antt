-- ===== src/Exec/Load.antt =====
-- internal/exec/l3.go: the parts of a third level that read and load a dump in the sandbox.
use Prim.Native.String.{len, slice, compare, ◌++◌ as str_append}
use text.Mathlib.Text.{is_lt}
use redrill.Prelude.{
  ℕ, suc, ◌≡◌, refl, String, Bool, false, not, ◌&&◌, ◌||◌, Option, none, some, List, [], ◌∷◌,
  str_eq, ltb, ◌==◌, if◌then◌else◌,
}
use redrill.Prelude.Int.{pos}
use redrill.Config.{L3}
use redrill.Text.{trim_space, split_on, before_byte, after_last, leading_digits, clamped, contains}
use redrill.Redact.{mem}
use redrill.Checks.{Status, Evidence, got, broke}
use redrill.Checks.Snapshot.{Texts}
use redrill.Checks.Sandboxed.{new_evidence, conclude}
use redrill.Sandbox.{Runtime, ExecResult, SandboxSpec, Effect, call}
use redrill.Exec.Step.{StepSpec}

-- containerDumpPath
abbrev pub container_dump_path : String
container_dump_path = "/tmp/dump"

abbrev has_key : String → List (String × String) → Bool
has_key k [] = false
has_key k ((j, v) ∷ rest) = str_eq k j || has_key k rest

-- sandboxEnv
unfoldable pub sandbox_env : List (String × String) → List (String × String)
sandbox_env cfg =
    if has_key "POSTGRES_PASSWORD" cfg then cfg else ("POSTGRES_PASSWORD", "redrill") ∷ cfg

-- resolveLoader
unfoldable pub resolve_loader : String → String → String
resolve_loader load format =
    if str_eq load "pg_restore" || str_eq load "psql"
    then load
    else if str_eq format "custom"
    then "pg_restore"
    else "psql"

-- pgMajor
unfoldable pub pg_major : String → ℕ
pg_major image =
    let ref1 = before_byte b'@' image in
    let ref2 : String = elim (after_last b'/' ref1) [ none ↦ ref1 | some r ↦ r ] in
    elim (after_last b':' ref2) [ none ↦ 0 | some tag ↦ clamped (leading_digits tag) ]

-- versionTrap
unfoldable pub version_trap : ℕ → ℕ → Bool
version_trap dump_major image_major =
    ltb 0 dump_major && ltb 0 image_major && ltb image_major dump_major

-- firstLine
abbrev pub first_full : List String → String
first_full [] = "(no output)"
first_full (l ∷ ls) =
    let rest = first_full ls in
    let line = trim_space l in
    if str_eq line ""
    then rest
    else if ltb 200 (len line)
    then str_append (slice line 0 200) "…"
    else line

unfoldable pub first_output : String → String
first_output s = first_full (split_on 10 s)

-- The names that a query printed, one on each line.
abbrev pub names : List String → List String
names [] = []
names (l ∷ ls) =
    let rest = names ls in let db = trim_space l in if str_eq db "" then rest else db ∷ rest

-- The least text of some.
abbrev pub least : String → List String → String
least s [] = s
least s (t ∷ ts) = least (if is_lt (compare t s) then t else s) ts

abbrev pub least_or : String → List String → String
least_or d [] = d
least_or d (t ∷ ts) = least t ts

-- Those that are neither listed before nor the default.
abbrev pub created : List String → List String → List String
created before [] = []
created before (db ∷ dbs) =
    let rest = created before dbs in
    if not (mem db before) && not (str_eq db "postgres") then db ∷ rest else rest

module _ (texts : Texts) where
  -- l3Spec
  unfoldable pub l3_spec : StepSpec → L3 → String → SandboxSpec
  unfolding sandbox_env
  l3_spec step l3 loaded_path = record {
    image = l3.sandbox.image;
    env = sandbox_env l3.sandbox.env;
    network = "none";
    memory = l3.sandbox.memory;
    labels = ("io.redrill.run", texts.of_int (pos step.run_id)) ∷ [];
    ready_cmd = "pg_isready" ∷ "-h" ∷ "127.0.0.1" ∷ "-U" ∷ "postgres" ∷ [];
    files = record { host_path = loaded_path; container_path = container_dump_path } ∷ [];
  }

-- The texts of a load, by the number of lines that name an error: what fmt prints.
pub record LoadTexts : Type 0 where
  pub loaded : ℕ → String
  pub ignored : ℕ → ℕ → String
  pub could_not_run : String → ℕ → String → String
  pub rejected : ℕ → String → String
  pub incomplete : ℕ → String → String

-- `lower` is strings.ToLower.
module _ (lower : String → String) where
  -- countErrorLines
  abbrev pub count_errors : List String → ℕ
  count_errors [] = 0
  count_errors (l ∷ ls) =
      let rest = count_errors ls in if contains "error" (lower l) then suc rest else rest

  unfoldable pub count_error_lines : String → ℕ
  count_error_lines s = count_errors (split_on 10 s)

  module _ (say : LoadTexts) (rt : Runtime) where
    -- The verdict of a load by the loader's exit and output.
    unfoldable pub load_verdict : Evidence → String → ExecResult → Evidence
    unfolding count_error_lines first_output
    load_verdict ev loader r =
        let out = str_append r.stdout r.stderr in
        if r.exit_code == 0
        then conclude ev Status.pass (say.loaded (count_error_lines out))
        else if r.exit_code == 126 || r.exit_code == 127
        then conclude ev Status.error (say.could_not_run loader r.exit_code (first_output r.stderr))
        else if str_eq loader "pg_restore" && contains "errors ignored on restore" out
        then conclude ev Status.pass (say.ignored r.exit_code (count_error_lines out))
        else if str_eq loader "pg_restore"
        then conclude ev Status.fail (say.rejected r.exit_code (first_output r.stderr))
        else conclude ev Status.error (say.incomplete r.exit_code (first_output r.stderr))

    abbrev pub load_command : String → List String
    load_command loader =
        if str_eq loader "pg_restore"
        then "pg_restore" ∷ "--no-owner" ∷ "--no-privileges" ∷ "-U" ∷ "postgres" ∷ "-d" ∷ "postgres"
          ∷ container_dump_path ∷ []
        else "psql" ∷ "-U" ∷ "postgres" ∷ "-d" ∷ "postgres" ∷ "-f" ∷ container_dump_path ∷ []

    -- loadDump
    unfoldable pub load_dump : String → List Effect → Evidence × List Effect
    unfolding load_verdict
    load_dump loader log =
        let ev = new_evidence "load" container_dump_path "dump loads" in
        let (res, log1) = call rt (load_command loader) log in
        (
          elim res [
            | broke why ↦ conclude ev Status.error (str_append "exec: " why)
            | got r ↦ load_verdict ev loader r
          ],
          log1,
        )

module _ (rt : Runtime) where
  -- listDatabases; the set is the list of its members.
  unfoldable pub list_databases : List Effect → List String × List Effect
  list_databases log =
      let query : String =
        "select datname from pg_database where not datistemplate order by datname" in
      let (res, log1) = call rt ("psql" ∷ "-U" ∷ "postgres" ∷ "-tAqX" ∷ "-c" ∷ query ∷ []) log in
      (
        elim res [
          | broke why ↦ []
          | got r ↦ if r.exit_code == 0 then names (split_on 10 r.stdout) else []
        ],
        log1,
      )

  -- loadedDB
  unfoldable pub loaded_db : List String → List Effect → String × List Effect
  unfolding list_databases
  loaded_db before log =
      let (after, log1) = list_databases log in (least_or "postgres" (created before after), log1)

  -- customDumpMajor; the regular expression's submatch in a text is a parameter.
  unfoldable pub custom_dump_major : (String → Option String) → List Effect → ℕ × List Effect
  custom_dump_major version_in log =
      let (res, log1) = call rt ("pg_restore" ∷ "-l" ∷ container_dump_path ∷ []) log in
      (
        elim res [
          | broke why ↦ 0
          | got r ↦
              if r.exit_code == 0
              then elim (version_in r.stdout) [ none ↦ 0 | some v ↦ clamped v ]
              else 0
        ],
        log1,
      )

major_tagged : pg_major "docker.io/library/postgres:16.3-alpine@sha256:ab" ≡ 16
unfolding pg_major before_byte after_last leading_digits clamped
major_tagged = refl

major_untagged : pg_major "localhost:5000/postgres" ≡ 0
unfolding pg_major before_byte after_last leading_digits clamped
major_untagged = refl
