-- ===== src/Orchestrate/Report.antt =====
-- What a run that returned reports: the verdict of its levels, in order, cut at the first bad one,
-- and the proofs that it leaves.
use redrill.Prelude.{ℕ, ◌≡◌, refl, true, arith, String, sym, ◌∙◌, ap}
use redrill.Clock.{Time}
use redrill.Config.{Drill, Source}
use redrill.Exec.Step.{StepSpec, StepReply}
use redrill.Store.Model.{Db}
use redrill.Store.Action.{Faults, ok, ◌>>=◌}
use redrill.Orchestrate.Model.{RunOptions, RunResult, aggregate_run}
use redrill.Orchestrate.Level.{World}
use redrill.Orchestrate.Run.{begin, run_body, run_tail, run}
use redrill.Orchestrate.ShortCircuit.{stops_at_bad, run_body-Ordered}
use redrill.Orchestrate.Stages.{opened, run_stages}

pub tail-report :
    (f : Faults) (clock : ℕ → Time) (ex : StepSpec → StepReply) (id : ℕ) (drill : Drill)
    (t end : Time) (w : World) {res : RunResult}
    → (run_tail f clock ex id drill t end w).0 ≡ ok res
    → (res.run_id ≡ id)
      × (res.levels ≡ w.levels)
      × (res.status ≡ aggregate_run w.levels)
      × (res.level_reached ≡ w.level_reached)
      × (res.kept_sandbox ≡ w.state.kept)
unfolding run_tail ◌>>=◌
tail-report f clock ex id drill t end w e =
    (ground arith, ground arith, ground arith, ground arith, ground arith)

-- A run that returned reports the verdict of the levels it reports, and among these every level
-- after one that failed or errored was skipped.
pub run-stops_at_bad :
    (f : Faults) (clock : ℕ → Time) (ex : StepSpec → StepReply) (host : String) (drill : Drill)
    (src : Source) (opts : RunOptions) (db : Db) {res : RunResult}
    → (run f clock ex host drill src opts (begin db)).0 ≡ ok res
    → (res.status ≡ aggregate_run res.levels) × (stops_at_bad res.levels ≡ true)
run-stops_at_bad f clock ex host drill src opts db e =
    let (lvs, id, end, p, q, r, whole) = run_stages f clock ex host drill src opts db e in
    let w =
      (run_body f clock ex id drill src (clock 0) opts lvs
        (opened f clock ex host drill src opts db)).1 in
    let report = tail-report f clock ex id drill (clock 0) end w (rw whole at e) in
    let ordered =
      (run_body-Ordered f clock ex id drill src (clock 0) opts lvs).at
        (opened f clock ex host drill src opts db) (refl, refl) in
    (report.2 ∙ ap aggregate_run (sym report.1), rw report.1 (ordered.1))
