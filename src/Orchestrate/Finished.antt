-- ===== src/Orchestrate/Finished.antt =====
-- A run that was created never stays without a verdict.
use redrill.Prelude.{ℕ, ◌<◌, ◌≡◌, ◌≢◌, false, ◌&&◌, some, List, arith, String, ◌==◌, inl, inr}
use redrill.Clock.{Time}
use redrill.Config.{Drill, Source}
use redrill.Exec.Step.{StepSpec, StepReply}
use redrill.Store.Model.{Db, Result, Run}
use redrill.Store.Action.{Faults, ok, finish_run as finish_run_sql, ◌>>=◌}
use redrill.Store.Action.Keeps.{bind_inv}
use redrill.Store.Runs.{is_open, finish_rows, finish_run, create_run}
use redrill.Store.Verdict.{IsFinished, IsFinished-finish_rows}
use redrill.Orchestrate.Model.{RunOptions, Leveled, LevelOutcome, select_levels, aggregate_run}
use redrill.Orchestrate.Level.{World}
use redrill.Orchestrate.Run.{
  outcome_row, begin, finish, run_body, or_finalize, run_tail, run, new_run,
}
use redrill.Orchestrate.Verdict.{aggregate_run_lem}
use redrill.Orchestrate.Rows.{run_tail-Rows}
use redrill.Orchestrate.Stages.{
  opened, run-created, Outcome-cases, levels_done, body_stages, finish-db,
}

pub aggregate_run-ne-unset : (lvs : List LevelOutcome) → aggregate_run lvs ≢ Result.unset
aggregate_run-ne-unset lvs e = ground (arith, aggregate_run_lem lvs)

-- No UPDATE of FinishRun fails.
abbrev pub CanFinish : Faults → Type 0
CanFinish f = (n : ℕ) → f finish_run_sql n ≡ false

-- Then FinishRun writes, whatever it returns.
pub finish_run-writes :
    (f : Faults) (r : Run) (db : Db)
    → CanFinish f
    → 0 < r.id
    → (finish_run f r db).1.runs ≡ finish_rows r db.runs
unfolding finish_run ◌>>=◌
finish_run-writes f r db can pos_id = ground (arith, can db.statements)

module _ (f : Faults) (clock : ℕ → Time) (ex : StepSpec → StepReply) (can : CanFinish f) where
  finish-IsFinished :
      (id : ℕ) (result : Result) (t : Time) (w : World)
      → 0 < id
      → result ≢ Result.unset
      → IsFinished id (finish f clock ex id result t w).1.db.runs
  finish-IsFinished id result t w h k =
      let row = outcome_row id result t (clock w.reads) w in
      rw (finish-db f clock ex id result t w, finish_run-writes f row w.db can h)
        (IsFinished-finish_rows row w.db.runs k)

  body-IsFinished :
      (id : ℕ) (drill : Drill) (src : Source) (t : Time) (o : RunOptions) (lvs : List Leveled)
      (w : World) {end : Time}
      → 0 < id
      → (run_body f clock ex id drill src t o lvs w).0 ≡ ok end
      → IsFinished id (run_body f clock ex id drill src t o lvs w).1.db.runs
  body-IsFinished id drill src t o lvs w h e =
      let w' = levels_done f clock ex id drill src t o lvs w in
      rw ((body_stages f clock ex id drill src t o lvs w e).2)
        (finish-IsFinished id (aggregate_run w'.levels) t w' h (aggregate_run-ne-unset w'.levels))

  or_finalize-IsFinished :
      (id : ℕ) (drill : Drill) (src : Source) (t : Time) (o : RunOptions) (lvs : List Leveled)
      (w : World)
      → 0 < id
      → IsFinished id
          (or_finalize f clock ex id t (run_body f clock ex id drill src t o lvs) w).1.db.runs
  unfolding or_finalize
  or_finalize-IsFinished id drill src t o lvs w h =
      let body = run_body f clock ex id drill src t o lvs w in
      elim (Outcome-cases body.0) [
        | inl (x, q) ↦ rw (q, or_finalize) (finish-IsFinished id Result.error t body.1 h (λ e. cc))
        | inr (end, q) ↦ rw (q, or_finalize) (body-IsFinished id drill src t o lvs w h q)
      ]

-- Once CreateRun returned the id of a new run, then however the run ends (the executor fails or panics, any
-- statement but the UPDATE of FinishRun fails, a proof cannot be recorded), every row with that id
-- has a verdict in the end.
pub run-IsFinished :
    (f : Faults) (clock : ℕ → Time) (ex : StepSpec → StepReply) (host : String) (drill : Drill)
    (src : Source) (opts : RunOptions) (db : Db) (lvs : List Leveled) (id : ℕ)
    → CanFinish f
    → 0 < id
    → select_levels drill opts.level ≡ some lvs
    → (create_run f (new_run host drill opts (clock 0)) db).0 ≡ ok id
    → IsFinished id (run f clock ex host drill src opts (begin db)).1.db.runs
run-IsFinished f clock ex host drill src opts db lvs id can h p q =
    let t = clock 0 in
    let w = opened f clock ex host drill src opts db in
    let body = or_finalize f clock ex id t (run_body f clock ex id drill src t opts lvs) in
    rw (run-created f clock ex host drill src opts db lvs id p q) (
      bind_inv (λ (v : World). IsFinished id v.db.runs) body (run_tail f clock ex id drill t) w
        (or_finalize-IsFinished f clock ex can id drill src t opts lvs w h)
        (λ end _.
          (run_tail-Rows (λ row. row.id == id && is_open row) f clock ex id drill t end).at
            (body w).1 (or_finalize-IsFinished f clock ex can id drill src t opts lvs w h)))
