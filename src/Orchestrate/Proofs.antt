-- ===== src/Orchestrate/Proofs.antt =====
-- Which proofs a run leaves: those of its passing levels, and only if the whole run passed.
use redrill.Prelude.{
  ℕ, ◌≡◌, refl, Bool, false, ◌&&◌, ◌||◌, Option, none, some, List, [], ◌∷◌, arith, String,
  if◌then◌else◌, str_eq, eq_iff, sym, ◌∙◌, Bool-cases, inl, inr,
}
use redrill.Prelude.Int.{ℤ}
use mathlib.Core.Path.{subst}
use redrill.Clock.{Time, Duration}
use redrill.Config.{Drill, Source}
use redrill.Exec.Step.{StepSpec, StepReply}
use redrill.Store.Model.{Db, Result, DrillState, Run}
use redrill.Store.Action.{Faults, Outcome, ok, ◌>>=◌}
use redrill.Store.Proofs.{record_proof, add_bytes_restored, proof_of, upsert_state}
use redrill.Store.Runs.{create_run, finish_run, last_baseline_run}
use redrill.Store.Retention.{prune}
use redrill.Store.Trail.{add_step, add_evidence, insert_owned}
use redrill.Store.Monotone.{later_of, proof_of-upsert_state}
use redrill.Orchestrate.Model.{RunOptions, RunResult, Leveled, LevelOutcome, aggregate_run}
use redrill.Orchestrate.Level.{World, on_db}
use redrill.Orchestrate.Run.{
  begin, is_passed, is_pass_result, run_body, record_proofs, prune_retention, run_tail, run,
  ignore_error, outcome_row, new_run,
}
use redrill.Orchestrate.DbRules.{LevelRules, run_levels-InDb}
use redrill.Orchestrate.Report.{tail-report}
use redrill.Orchestrate.Stages.{
  opened, run_stages, Outcome-cases, body_stages, prev_count, looked_up, levels_done, finish-db,
}

-- Some level of that name passed.
abbrev pub level_passed : String → List LevelOutcome → Bool
level_passed level [] = false
level_passed level (lv ∷ lvs) =
    is_passed lv.status && str_eq lv.level level || level_passed level lvs

-- The last proof once those of the passing levels are recorded.
abbrev pub proof_after :
    String → String → String → Time → List LevelOutcome → List DrillState → Option Time
proof_after drill d l t lvs rows =
    if str_eq drill d && level_passed l lvs
    then later_of (proof_of d l rows) t
    else proof_of d l rows

record_proof-ok :
    (f : Faults) (drill level : String) (t : Time) (w : World)
    → (on_db (record_proof f drill level t) w).0 ≡ ok tt
    → (on_db (record_proof f drill level t) w).1.db.drill_state
      ≡ upsert_state drill level t w.db.drill_state
unfolding on_db record_proof ◌>>=◌
record_proof-ok f drill level t w e = ground arith

later_of-later_of : (o : Option Time) (t : Time) → later_of (later_of o t) t ≡ later_of o t
later_of-later_of none t = ground arith
later_of-later_of (some u) t = ground arith

record_proofs-ok :
    (f : Faults) (clock : ℕ → Time) (ex : StepSpec → StepReply) (drill : String) (t : Time)
    (lvs : List LevelOutcome) (w : World) (d l : String)
    → (record_proofs f clock ex drill t lvs w).0 ≡ ok tt
    → proof_of d l (record_proofs f clock ex drill t lvs w).1.db.drill_state
      ≡ proof_after drill d l t lvs w.db.drill_state
unfolding record_proofs ◌>>=◌
record_proofs-ok f clock ex drill t [] w d l e = ground arith
record_proofs-ok f clock ex drill t (lv ∷ lvs) w d l e = elim (Bool-cases (is_passed lv.status)) [
  | inr other ↦ ground (arith, record_proofs-ok f clock ex drill t lvs w d l)
  | inl passed ↦ elim (Outcome-cases (on_db (record_proof f drill lv.level t) w).0) [
    | inl (x, q) ↦ ground arith
    | inr (tt, q) ↦ ground (
      arith,
      record_proofs-ok f clock ex drill t lvs (on_db (record_proof f drill lv.level t) w).1 d l,
      record_proof-ok f drill lv.level t w,
      proof_of-upsert_state drill lv.level d l t w.db.drill_state,
      later_of-later_of (proof_of d l w.db.drill_state) t,
      eq_iff drill d,
      eq_iff lv.level l,
    )
  ]
]

-- The calls that write no proof.
add_bytes-frame :
    (f : Faults) (drill : String) (n : ℤ) (db : Db)
    → (add_bytes_restored f drill n db).1.drill_state ≡ db.drill_state
unfolding add_bytes_restored ◌>>=◌
add_bytes-frame f drill n db = ground arith

prune-frame :
    (f : Faults) (drill : String) (age : Duration) (count : ℤ) (now : Time) (db : Db)
    → (prune f drill age count now db).1.drill_state ≡ db.drill_state
unfolding prune ◌>>=◌
prune-frame f drill age count now db = ground arith

prune_retention-frame :
    (f : Faults) (clock : ℕ → Time) (ex : StepSpec → StepReply) (drill : Drill) (now : Time)
    (w : World)
    → (prune_retention f clock ex drill now w).1.db.drill_state ≡ w.db.drill_state
unfolding prune_retention on_db ignore_error ◌>>=◌
prune_retention-frame f clock ex drill now w =
    ground
      (arith, prune-frame f drill.name drill.retention.max_age drill.retention.max_count now w.db)

pub tail-proofs :
    (f : Faults) (clock : ℕ → Time) (ex : StepSpec → StepReply) (id : ℕ) (drill : Drill)
    (t end : Time) (w : World) (d l : String) {res : RunResult}
    → (run_tail f clock ex id drill t end w).0 ≡ ok res
    → proof_of d l (run_tail f clock ex id drill t end w).1.db.drill_state ≡ (
        if is_pass_result (aggregate_run w.levels)
        then proof_after drill.name d l t w.levels w.db.drill_state
        else proof_of d l w.db.drill_state)
unfolding run_tail on_db ignore_error ◌>>=◌
tail-proofs f clock ex id drill t end w d l e =
    let w' : World = record w { db = (add_bytes_restored f drill.name w.state.bytes w.db).1 } in
    let noted = record_proofs f clock ex drill.name t w.levels w' in
    elim (Bool-cases (is_pass_result (aggregate_run w.levels))) [
      | inr other ↦ ground (
        arith,
        add_bytes-frame f drill.name w.state.bytes w.db,
        prune_retention-frame f clock ex drill end w',
      )
      | inl passed ↦ elim (Outcome-cases noted.0) [
        | inl (x, q) ↦ ground arith
        | inr (tt, q) ↦ ground (
          arith,
          add_bytes-frame f drill.name w.state.bytes w.db,
          prune_retention-frame f clock ex drill end noted.1,
          record_proofs-ok f clock ex drill.name t w.levels w' d l,
        )
      ]
    ]

-- The proofs are as they were.
abbrev SameProofs : List DrillState → Db → Type 0
SameProofs s db = db.drill_state ≡ s

proofs_rules : (f : Faults) (s : List DrillState) → LevelRules f (SameProofs s)
unfolding add_step add_evidence insert_owned last_baseline_run ◌>>=◌
proofs_rules f s = record {
  step_rule = λ st. record { at = λ db h. ground arith };
  evidence_rule = λ e. record { at = λ db h. ground arith };
  baseline_rule = λ d. record { at = λ db h. ground arith };
}

create_run-frame :
    (f : Faults) (r : Run) (db : Db) → (create_run f r db).1.drill_state ≡ db.drill_state
unfolding create_run ◌>>=◌
create_run-frame f r db = ground arith

finish_run-frame :
    (f : Faults) (r : Run) (db : Db) → (finish_run f r db).1.drill_state ≡ db.drill_state
unfolding finish_run ◌>>=◌
finish_run-frame f r db = ground arith

body-frame :
    (f : Faults) (clock : ℕ → Time) (ex : StepSpec → StepReply) (id : ℕ) (drill : Drill)
    (src : Source) (t : Time) (o : RunOptions) (lvs : List Leveled) (w : World) {end : Time}
    → (run_body f clock ex id drill src t o lvs w).0 ≡ ok end
    → (run_body f clock ex id drill src t o lvs w).1.db.drill_state ≡ w.db.drill_state
body-frame f clock ex id drill src t o lvs w e =
    let s = w.db.drill_state in
    let w' = levels_done f clock ex id drill src t o lvs w in
    let prev = prev_count f clock ex drill w in
    let looked : SameProofs s (looked_up f clock ex drill w).db =
      ((proofs_rules f s).baseline_rule drill.name).at w.db refl in
    let ran : SameProofs s w'.db =
      (run_levels-InDb f (SameProofs s) (proofs_rules f s) clock ex id drill src t o prev lvs).at
        (looked_up f clock ex drill w) looked in
    rw
      (
        (body_stages f clock ex id drill src t o lvs w e).2,
        finish-db f clock ex id (aggregate_run w'.levels) t w',
        finish_run-frame f (outcome_row id (aggregate_run w'.levels) t (clock w'.reads) w') w'.db,
      )
      ran

-- What a run says of the proofs, over the levels and the verdict that it reports.
abbrev ProofsAre :
    Drill → String → String → Time → Result → List LevelOutcome → List DrillState → Db → Type 0
ProofsAre drill d l t result lvs rows db =
    proof_of d l db.drill_state
    ≡ (if is_pass_result result then proof_after drill.name d l t lvs rows else proof_of d l rows)

-- When a run returns, the last proof of a drill at a level is the later of the one before and the
-- start of the run, if the drill is the run's, the run passed and reports that level as passed; in
-- every other case it is the one before. So a level that passed in a run that failed proves nothing.
pub run-proof_of :
    (f : Faults) (clock : ℕ → Time) (ex : StepSpec → StepReply) (host : String) (drill : Drill)
    (src : Source) (opts : RunOptions) (db : Db) (d l : String) {res : RunResult}
    → (run f clock ex host drill src opts (begin db)).0 ≡ ok res
    → proof_of d l (run f clock ex host drill src opts (begin db)).1.db.drill_state ≡ (
        if is_pass_result res.status
        then proof_after drill.name d l (clock 0) res.levels db.drill_state
        else proof_of d l db.drill_state)
run-proof_of f clock ex host drill src opts db d l {res} e =
    let (lvs, id, end, p, q, r, whole) = run_stages f clock ex host drill src opts db e in
    let w = opened f clock ex host drill src opts db in
    let w' = (run_body f clock ex id drill src (clock 0) opts lvs w).1 in
    let returned : (run_tail f clock ex id drill (clock 0) end w').0 ≡ ok res = rw whole at e in
    let report = tail-report f clock ex id drill (clock 0) end w' returned in
    let same : w'.db.drill_state ≡ db.drill_state =
      body-frame f clock ex id drill src (clock 0) opts lvs w r
      ∙ create_run-frame f (new_run host drill opts (clock 0)) db in
    let told = tail-proofs f clock ex id drill (clock 0) end w' d l returned in
    let reported : ProofsAre drill d l (clock 0) res.status res.levels w'.db.drill_state
        (run_tail f clock ex id drill (clock 0) end w').1.db =
      subst
        (λ (s : Result).
          ProofsAre drill d l (clock 0) s res.levels w'.db.drill_state
            (run_tail f clock ex id drill (clock 0) end w').1.db)
        (sym report.2)
        (subst
          (λ (ls : List LevelOutcome).
            ProofsAre drill d l (clock 0) (aggregate_run w'.levels) ls w'.db.drill_state
              (run_tail f clock ex id drill (clock 0) end w').1.db)
          (sym report.1) told) in
    let framed =
      subst
        (λ (rows : List DrillState).
          ProofsAre drill d l (clock 0) res.status res.levels rows
            (run_tail f clock ex id drill (clock 0) end w').1.db)
        same reported in
    subst
      (λ (o : Outcome RunResult × World).
        ProofsAre drill d l (clock 0) res.status res.levels db.drill_state o.1.db)
      (sym whole) framed
