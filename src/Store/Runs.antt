-- ===== src/Store/Runs.antt =====
-- internal/store/runs.go: a run is created with no verdict, finished once, and read back.
use redrill.Prelude.{
  ℕ, suc, String, Bool, true, false, ◌&&◌, Option, none, some, List, ◌∷◌, map, ltb, ◌==◌, str_eq,
  if◌then◌else◌, length, take, select, first,
}
use redrill.Prelude.Int.{ℤ, pos, pos_part, ltb_ℤ}
use redrill.Clock.{Time, zero_time, is_zero}
use redrill.Store.Model.{Trigger, Result, Verdict, Run, RunRow, Db}
use redrill.Store.Action.{
  insert_run, read_id, finish_run as finish_run_sql, read_affected, probe_run, query_run,
  mark_abandoned, required, not_found, already_finished, Action, Faults, err, pure, or_raise,
  modify, gets, raise_if, attempt, ◌>>=◌, ◌>>◌,
}

-- nullTime and timeFromNull
abbrev pub null_time : Time → Option Time
null_time t = if is_zero t then none else some t

abbrev pub time_from_null : Option Time → Time
time_from_null none = zero_time
time_from_null (some t) = t

-- nullResult, and `Result(result.String)` of a column that may be NULL
abbrev pub null_result : Result → Option Verdict
null_result Result.unset = none
null_result Result.pass = some Verdict.pass
null_result Result.fail = some Verdict.fail
null_result Result.error = some Verdict.error

abbrev pub result_from_null : Option Verdict → Result
result_from_null none = Result.unset
result_from_null (some Verdict.pass) = Result.pass
result_from_null (some Verdict.fail) = Result.fail
result_from_null (some Verdict.error) = Result.error

abbrev pub is_unset : Trigger → Bool
is_unset Trigger.unset = true
is_unset _ = false

-- scanRun
abbrev pub scan_run : RunRow → Run
scan_run r = record {
  id = r.id;
  drill = r.drill;
  trigger = r.trigger;
  started_at = r.started_at;
  finished_at = time_from_null r.finished_at;
  result = result_from_null r.result;
  level_reached = r.level_reached;
  bytes_restored = r.bytes_restored;
  files_restored = r.files_restored;
  duration_ms = r.duration_ms;
  executor = r.executor;
  snapshot = r.snapshot;
  snapshot_time = time_from_null r.snapshot_time;
}

-- The row that CreateRun inserts: the columns it leaves out hold their defaults.
abbrev pub new_row : ℕ → Run → RunRow
new_row id r = record {
  id = id;
  drill = r.drill;
  trigger = r.trigger;
  started_at = r.started_at;
  finished_at = none;
  result = none;
  level_reached = "";
  bytes_restored = pos 0;
  files_restored = pos 0;
  duration_ms = pos 0;
  executor = r.executor;
  snapshot = "";
  snapshot_time = none;
}

-- `result IS NULL`
abbrev pub is_open : RunRow → Bool
is_open row = elim row.result [ none ↦ true | some _ ↦ false ]

-- What FinishRun's UPDATE writes into a row that it matches.
abbrev pub finished_row : Run → RunRow → RunRow
finished_row r row = record row {
  finished_at = null_time r.finished_at;
  result = null_result r.result;
  level_reached = r.level_reached;
  bytes_restored = r.bytes_restored;
  files_restored = r.files_restored;
  duration_ms = r.duration_ms;
  snapshot = r.snapshot;
  snapshot_time = null_time r.snapshot_time;
}

abbrev pub finish_rows : Run → List RunRow → List RunRow
finish_rows r = map (λ row. if row.id == r.id && is_open row then finished_row r row else row)

-- The rows with an id, the open rows with it, and the rows with no verdict.
abbrev pub rows_of : ℕ → List RunRow → List RunRow
rows_of id = select (λ row. row.id == id)

abbrev pub open_rows_of : ℕ → List RunRow → List RunRow
open_rows_of id = select (λ row. row.id == id && is_open row)

abbrev pub open_rows : List RunRow → List RunRow
open_rows = select is_open

-- MarkAbandonedRuns' UPDATE
abbrev pub abandon_rows : Time → List RunRow → List RunRow
abandon_rows now = map (λ row.
    if is_open row then record row { finished_at = some now; result = some Verdict.error } else row)

module _ (fails : Faults) where
  -- CreateRun
  unfoldable pub create_run : Run → Action Db ℕ
  create_run r = do
    raise_if (str_eq r.drill "") (required "drill")
    raise_if (is_unset r.trigger) (required "trigger")
    raise_if (is_zero r.started_at) (required "started_at")
    attempt fails insert_run
    id ← gets (λ db. db.next_id)
    modify (λ db. record db { runs = new_row db.next_id r ∷ db.runs; next_id = suc db.next_id })
    attempt fails read_id
    pure id

  -- The answer of FinishRun when its UPDATE matched no row: a probe that fails reads as no row.
  abbrev pub finish_missing : Run → Action Db (Unit {0})
  finish_missing r db =
      let found = ltb 0 (length (rows_of r.id db.runs)) in
      let answer = if fails probe_run db.statements then false else found in
      (
        if answer then err already_finished else err not_found,
        record db { statements = suc db.statements },
      )

  -- FinishRun
  unfoldable pub finish_run : Run → Action Db (Unit {0})
  finish_run r = do
    raise_if (r.id == 0) (required "id")
    attempt fails finish_run_sql
    n ← gets (λ db. length (open_rows_of r.id db.runs))
    modify (λ db. record db { runs = finish_rows r db.runs })
    attempt fails read_affected
    if n == 0 then finish_missing r else pure tt

  -- GetRun
  unfoldable pub get_run : ℕ → Action Db Run
  get_run id = do
    attempt fails query_run
    found ← gets (λ db. first (λ row. row.id == id) db.runs)
    row ← or_raise found not_found
    pure (scan_run row)

  -- ListRuns
  unfoldable pub list_runs : String → ℤ → Action Db (List Run)
  list_runs drill limit = do
    attempt fails query_run
    rows ← gets (λ db. select (λ row. str_eq row.drill drill) db.runs)
    pure (map scan_run (if ltb_ℤ (pos 0) limit then take (pos_part limit) rows else rows))

  -- MarkAbandonedRuns: how many runs it finalised
  unfoldable pub mark_abandoned_runs : Time → Action Db ℕ
  mark_abandoned_runs now = do
    attempt fails mark_abandoned
    n ← gets (λ db. length (open_rows db.runs))
    modify (λ db. record db { runs = abandon_rows now db.runs })
    attempt fails read_affected
    pure n

  -- The newest run of a drill that passes a test: LastBaselineRun, LatestPassingRun and
  -- LatestFinishedRun, by their WHERE clauses.
  abbrev pub newest_run : String → (RunRow → Bool) → Action Db (Option Run)
  newest_run drill test = do
    attempt fails query_run
    found ← gets (λ db. first (λ row. str_eq row.drill drill && test row) db.runs)
    pure (elim found [ none ↦ none | some row ↦ some (scan_run row) ])

abbrev pub has_passed : RunRow → Bool
has_passed row = elim row.result [ some Verdict.pass ↦ true | _ ↦ false ]

abbrev pub has_finished : RunRow → Bool
has_finished row = elim row.result [ none ↦ false | some _ ↦ true ]

abbrev pub is_baseline : RunRow → Bool
is_baseline row = has_passed row && ltb_ℤ (pos 0) row.files_restored

module _ (fails : Faults) (drill : String) where
  -- LastBaselineRun
  unfoldable pub last_baseline_run : Action Db (Option Run)
  last_baseline_run = newest_run fails drill is_baseline

  -- LatestPassingRun
  unfoldable pub latest_passing_run : Action Db (Option Run)
  latest_passing_run = newest_run fails drill has_passed

  -- LatestFinishedRun
  unfoldable pub latest_finished_run : Action Db (Option Run)
  latest_finished_run = newest_run fails drill has_finished
