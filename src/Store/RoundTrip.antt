-- ===== src/Store/RoundTrip.antt =====
-- What is written comes back: CreateRun, FinishRun and MarkAbandonedRuns against GetRun.
use redrill.Prelude.{ℕ, ◌≡◌, none, some, List, [], ◌∷◌, arith, ◌==◌, first, Option-cases, inl, inr}
use redrill.Prelude.Int.{pos}
use redrill.Clock.{Time, zero_time}
use redrill.Store.Model.{Result, Run, RunRow, Db}
use redrill.Store.Action.{Faults, no_faults, ok, err, not_found, ◌>>=◌}
use redrill.Store.Runs.{
  scan_run, finish_rows, finished_row, null_time, time_from_null, result_from_null, null_result,
  create_run, finish_run, get_run,
}

time_from_null-null_time : (t : Time) → time_from_null (null_time t) ≡ t
time_from_null-null_time t = ground arith

result_from_null-null_result : (r : Result) → result_from_null (null_result r) ≡ r
result_from_null-null_result r = ground arith

-- A run just created is read back with the id that CreateRun returned, with its drill, trigger, start and
-- executor, and with no outcome.
pub get_run-create_run :
    (fails : Faults) (r : Run) (db : Db) {id : ℕ}
    → (create_run fails r db).0 ≡ ok id
    → (get_run no_faults id (create_run fails r db).1).0
      ≡ ok (record {
        id = id;
        drill = r.drill;
        trigger = r.trigger;
        started_at = r.started_at;
        finished_at = zero_time;
        result = Result.unset;
        level_reached = "";
        bytes_restored = pos 0;
        files_restored = pos 0;
        duration_ms = pos 0;
        executor = r.executor;
        snapshot = "";
        snapshot_time = zero_time;
      })
unfolding create_run get_run ◌>>=◌
get_run-create_run fails r db e = ground arith

first-finish_rows :
    (r : Run) (rows : List RunRow) {row : RunRow}
    → first (λ row. row.id == r.id) rows ≡ some row
    → row.result ≡ none
    → first (λ row. row.id == r.id) (finish_rows r rows) ≡ some (finished_row r row)
first-finish_rows r [] e o = cc
first-finish_rows r (x ∷ rows) {row} e o =
    ground (arith, λ (h : first (λ y. y.id == r.id) rows ≡ some row). first-finish_rows r rows h o)

finish_run-runs :
    (fails : Faults) (r : Run) (db : Db)
    → (finish_run fails r db).0 ≡ ok tt
    → (finish_run fails r db).1.runs ≡ finish_rows r db.runs
unfolding finish_run ◌>>=◌
finish_run-runs fails r db e = ground arith

-- GetRun without faults finds the first row with the id.
get_run_lem :
    (id : ℕ) (db : Db)
    → (get_run no_faults id db).0 ≡ elim (first (λ (row : RunRow). row.id == id) db.runs) [
      | none ↦ err not_found
      | some row ↦ ok (scan_run row)
    ]
unfolding get_run ◌>>=◌
get_run_lem id db = ground arith

scan-finished_row :
    (r : Run) (row : RunRow)
    → scan_run (finished_row r row) ≡ record (scan_run row) {
      finished_at = r.finished_at;
      result = r.result;
      level_reached = r.level_reached;
      bytes_restored = r.bytes_restored;
      files_restored = r.files_restored;
      duration_ms = r.duration_ms;
      snapshot = r.snapshot;
      snapshot_time = r.snapshot_time;
    }
scan-finished_row r row = cc (
  time_from_null-null_time r.finished_at,
  time_from_null-null_time r.snapshot_time,
  result_from_null-null_result r.result,
)

-- A run that was open is read back, once FinishRun returned, with its identity unchanged and with
-- the outcome that FinishRun was given.
pub get_run-finish_run :
    (fails : Faults) (r run : Run) (db : Db)
    → (get_run no_faults r.id db).0 ≡ ok run
    → run.result ≡ Result.unset
    → (finish_run fails r db).0 ≡ ok tt
    → (get_run no_faults r.id (finish_run fails r db).1).0
      ≡ ok (record run {
        finished_at = r.finished_at;
        result = r.result;
        level_reached = r.level_reached;
        bytes_restored = r.bytes_restored;
        files_restored = r.files_restored;
        duration_ms = r.duration_ms;
        snapshot = r.snapshot;
        snapshot_time = r.snapshot_time;
      })
get_run-finish_run fails r run db g u e =
    elim (Option-cases (first (λ row. row.id == r.id) db.runs)) [
      | inl missing ↦ ground (arith, get_run_lem r.id db)
      | inr (row, found) ↦
          let read : ok (scan_run row) ≡ ok run = ground (arith, get_run_lem r.id db) in
          let same : scan_run row ≡ run = cc in
          let opened : row.result ≡ none = ground arith in
          ground (
            arith,
            get_run_lem r.id (finish_run fails r db).1,
            finish_run-runs fails r db e,
            first-finish_rows r db.runs found opened,
            scan-finished_row r row,
          )
    ]
