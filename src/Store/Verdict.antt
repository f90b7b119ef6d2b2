-- ===== src/Store/Verdict.antt =====
-- A verdict is recorded once: what FinishRun promises.
use redrill.Prelude.{ℕ, ◌≡◌, ◌≢◌, refl, false, ◌&&◌, List, [], ◌∷◌, arith, ◌==◌, All}
use redrill.Store.Model.{Result, Run, RunRow, Db}
use redrill.Store.Action.{Faults, ok, ◌>>=◌}
use redrill.Store.Runs.{is_open, finish_rows, open_rows_of, finish_run}

-- The row is no open row of the run.
abbrev pub Settled : ℕ → RunRow → Type 0
Settled id row = (row.id == id && is_open row) ≡ false

-- Every row with the id has a verdict.
abbrev pub IsFinished : ℕ → List RunRow → Type 0
IsFinished id = All (Settled id)

pub IsFinished-finish_rows :
    (r : Run) (rows : List RunRow) → r.result ≢ Result.unset → IsFinished r.id (finish_rows r rows)
IsFinished-finish_rows r [] h = tt
IsFinished-finish_rows r (row ∷ rows) h = (ground arith, IsFinished-finish_rows r rows h)

pub finish_rows-IsFinished :
    (r : Run) (rows : List RunRow) → IsFinished r.id rows → finish_rows r rows ≡ rows
finish_rows-IsFinished r [] h = refl
finish_rows-IsFinished r (row ∷ rows) h = ground (arith, finish_rows-IsFinished r rows h.1)

pub open_rows_of-IsFinished :
    (id : ℕ) (rows : List RunRow) → IsFinished id rows → open_rows_of id rows ≡ []
open_rows_of-IsFinished id [] h = refl
open_rows_of-IsFinished id (row ∷ rows) h = ground (arith, open_rows_of-IsFinished id rows h.1)

pub finish_run-IsFinished :
    (fails : Faults) (r : Run) (db : Db)
    → r.result ≢ Result.unset
    → (finish_run fails r db).0 ≡ ok tt
    → IsFinished r.id (finish_run fails r db).1.runs
unfolding finish_run ◌>>=◌
finish_run-IsFinished fails r db h e = ground (arith, IsFinished-finish_rows r db.runs h)

finish_run_of_IsFinished :
    (fails : Faults) (r : Run) (db : Db)
    → IsFinished r.id db.runs
    → ((finish_run fails r db).1.runs ≡ db.runs) × ((finish_run fails r db).0 ≢ ok tt)
unfolding finish_run ◌>>=◌
finish_run_of_IsFinished fails r db h = (
  ground (arith, finish_rows-IsFinished r db.runs h),
  ground (arith, open_rows_of-IsFinished r.id db.runs h),
)

-- A second FinishRun of a finished run writes nothing and is refused, whatever fails.
pub finish_run-finish_run :
    (fails : Faults) (r r' : Run) (db : Db)
    → r.result ≢ Result.unset
    → r'.id ≡ r.id
    → (finish_run fails r db).0 ≡ ok tt
    → let db' = (finish_run fails r db).1 in
      ((finish_run fails r' db').1.runs ≡ db'.runs) × ((finish_run fails r' db').0 ≢ ok tt)
finish_run-finish_run fails r r' db h same e =
    finish_run_of_IsFinished fails r' (finish_run fails r db).1
      (rw same (finish_run-IsFinished fails r db h e))
