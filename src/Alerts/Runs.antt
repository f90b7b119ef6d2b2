-- ===== src/Alerts/Runs.antt =====
-- What a finished run tells, and what the next sweep makes of it.
use redrill.Prelude.{
  ℕ, ◌≡◌, ◌<◌, refl, ap, none, some, Option, [], All, select, ◌∙◌, String, Bool, true, false, not,
  ◌&&◌, ◌||◌, List, ◌∷◌, str_eq, eq_iff, if◌then◌else◌, arith, map, Bool-cases, inl, inr,
}
use redrill.Clock.{Time}
use redrill.Config.{Drill}
use redrill.Store.Model.{Db, Result, DrillState, RunRow, Verdict}
use redrill.Store.Action.{Faults, no_faults, ◌>>=◌}
use redrill.Store.Runs.{list_runs, result_from_null}
use redrill.Orchestrate.Model.{RunResult}
use redrill.Scheduler.Staleness.{headline_level}
use redrill.Alerts.Model.{Event, Notification, classify_run, is_bad_result}
use redrill.Orchestrate.Run.{is_pass_result}
use redrill.Alerts.Watch.{
  Watch, is_marked, dispatch, prev_result, sweep_drill, run_note, after_run, marks_after,
}
use redrill.Alerts.Episodes.{
  is_overdue, stale_note, last_proof_of, sweep_drill_lem, proof_lem, is_marked-unmark,
}

prev_result-frame :
    (drill : String) (id : ℕ) (db : Db)
    → (prev_result no_faults drill id db).1.drill_state ≡ db.drill_state
unfolding prev_result list_runs ◌>>=◌
prev_result-frame drill id db = ground arith

-- A run that passed, of a drill that is marked.
recovered :
    (enabled : Event → Bool) (now : Time) (d : Drill) (res : RunResult) (w : Watch)
    → res.status ≡ Result.pass
    → is_marked d.name w.stale ≡ true
    → enabled Event.recover ≡ true
    → let w' = after_run no_faults enabled now d res w in
      (w'.sent ≡ run_note now d res Event.recover (last_proof_of d w.db.drill_state) ∷ w.sent)
      × (is_marked d.name w'.stale ≡ false)
      × (w'.db.drill_state ≡ w.db.drill_state)
unfolding after_run dispatch classify_run
recovered enabled now d res w p m e =
    let db = (prev_result no_faults d.name res.run_id w.db).1 in
    let read = proof_lem d.name (headline_level d) db in
    let kept = prev_result-frame d.name res.run_id w.db in
    rw (p, m, e, after_run, dispatch, classify_run)
      (
        ap (λ (t : Time). run_note now d res Event.recover t ∷ w.sent)
            (read.0 ∙ ap (λ (r : List DrillState). last_proof_of d r) kept),
        ap (λ (r : Result). is_marked d.name (marks_after r d.name w.stale)) p
            ∙ ground (arith, is_marked-unmark d.name d.name w.stale, eq_iff d.name d.name),
        read.1 ∙ kept,
      )

alerted_again :
    (now : Time) (d : Drill) (rows rows' : List DrillState) (sent told : List Notification)
    (marked on : Bool)
    → rows' ≡ rows
    → marked ≡ false
    → on ≡ true
    → sent ≡ told
    → (if is_overdue now d rows' && not marked && on then stale_note now d rows' ∷ sent else sent)
      ≡ (if is_overdue now d rows then stale_note now d rows ∷ told else told)
alerted_again now d rows rows' sent told marked on h k l e =
    rw (h, k, l, e)
      (elim (Bool-cases (is_overdue now d rows)) [ inl o ↦ rw o refl | inr o ↦ rw o refl ])

-- When a run of a drill marked as stale passes, the recovery is sent and the mark cleared, whatever
-- levels it proved. So the next sweep alerts again exactly if the headline proof is still overdue
-- then, as it is where the headline level was skipped. No read fails, and both events are enabled.
pub sweep_drill-after_run :
    (enabled : Event → Bool) (now now' : Time) (d : Drill) (res : RunResult) (w : Watch)
    → res.status ≡ Result.pass
    → is_marked d.name w.stale ≡ true
    → enabled Event.recover ≡ true
    → enabled Event.stale ≡ true
    → let rows = w.db.drill_state in
      let told = run_note now d res Event.recover (last_proof_of d rows) ∷ w.sent in
      (sweep_drill no_faults enabled now' d (after_run no_faults enabled now d res w)).sent
      ≡ (if is_overdue now' d rows then stale_note now' d rows ∷ told else told)
sweep_drill-after_run enabled now now' d res w p m e s =
    let w' = after_run no_faults enabled now d res w in
    let rec = recovered enabled now d res w p m e in
    let swept = (sweep_drill_lem enabled now' d w').1 in
    swept
    ∙ alerted_again now' d w.db.drill_state w'.db.drill_state w'.sent
        (run_note now d res Event.recover (last_proof_of d w.db.drill_state) ∷ w.sent)
        (is_marked d.name w'.stale) (enabled Event.stale) rec.2 rec.1 s rec.0

-- The result that a row has, and whether it is a failure or an error.
abbrev pub verdict_of : List RunRow → Option Verdict
verdict_of [] = none
verdict_of (row ∷ rows) = row.result

abbrev pub is_bad_verdict : Option Verdict → Bool
is_bad_verdict (some Verdict.fail) = true
is_bad_verdict (some Verdict.error) = true
is_bad_verdict _ = false

is_bad_verdict_lem : (v : Option Verdict) → is_bad_result (result_from_null v) ≡ is_bad_verdict v
is_bad_verdict_lem none = refl
is_bad_verdict_lem (some Verdict.pass) = refl
is_bad_verdict_lem (some Verdict.fail) = refl
is_bad_verdict_lem (some Verdict.error) = refl

prev_result_lem :
    (drill : String) (id : ℕ) (db : Db) (this : RunRow) (earlier : List RunRow)
    → select (λ (row : RunRow). str_eq row.drill drill) db.runs ≡ this ∷ earlier
    → this.id ≡ id
    → All (λ (row : RunRow). row.id < id) earlier
    → is_bad_result (prev_result no_faults drill id db).0 ≡ is_bad_verdict (verdict_of earlier)
unfolding prev_result list_runs ◌>>=◌
prev_result_lem drill id db this [] rows e older = ground (arith, rows, e)
prev_result_lem drill id db this (row ∷ rest) rows e older =
    rw (rows, prev_result, list_runs) (ground (arith, e, older.0, is_bad_verdict_lem row.result))

after_run-prev_result :
    (fails : Faults) (now : Time) (d : Drill) (res : RunResult) (w : Watch)
    → let prev = (prev_result fails d.name res.run_id w.db).0 in
      let w' = after_run fails (λ _. true) now d res w in
      let bad = is_bad_result res.status in
      let recovers =
        is_pass_result res.status && (is_marked d.name w.stale || is_bad_result prev) in
      (map (λ (n : Notification). n.drill) w'.sent ≡ (
        if bad || recovers
        then d.name ∷ map (λ (n : Notification). n.drill) w.sent
        else map (λ (n : Notification). n.drill) w.sent))
      × ((name : String)
          → is_marked name w'.stale
            ≡ (if recovers && str_eq d.name name then false else is_marked name w.stale))
unfolding after_run dispatch classify_run
after_run-prev_result fails now d res w =
    (ground arith, λ name. ground (arith, is_marked-unmark name d.name w.stale, eq_iff d.name name))

-- A run is told of exactly when it failed or errored, or passed while its drill was marked or the run of
-- the drill before it failed or errored; then one note is sent, of its drill. Only a passing run that is
-- told of clears a mark, and only its drill's. The run is the newest of its drill in the database and
-- `earlier` are the older ones, newest first; every event is enabled and no read fails.
pub after_run_lem :
    (now : Time) (d : Drill) (res : RunResult) (w : Watch) (this : RunRow) (earlier : List RunRow)
    → select (λ (row : RunRow). str_eq row.drill d.name) w.db.runs ≡ this ∷ earlier
    → this.id ≡ res.run_id
    → All (λ (row : RunRow). row.id < res.run_id) earlier
    → let w' = after_run no_faults (λ _. true) now d res w in
      let bad = is_bad_result res.status in
      let recovers =
        is_pass_result res.status
        && (is_marked d.name w.stale || is_bad_verdict (verdict_of earlier)) in
      (map (λ (n : Notification). n.drill) w'.sent ≡ (
        if bad || recovers
        then d.name ∷ map (λ (n : Notification). n.drill) w.sent
        else map (λ (n : Notification). n.drill) w.sent))
      × ((name : String)
          → is_marked name w'.stale
            ≡ (if recovers && str_eq d.name name then false else is_marked name w.stale))
after_run_lem now d res w this earlier rows e older =
    let prev = prev_result_lem d.name res.run_id w.db this earlier rows e older in
    let told = after_run-prev_result no_faults now d res w in
    let recovers = λ (b : Bool). is_pass_result res.status && (is_marked d.name w.stale || b) in
    (
      told.0
          ∙ ap
              (λ (b : Bool).
                if is_bad_result res.status || recovers b
                then d.name ∷ map (λ (n : Notification). n.drill) w.sent
                else map (λ (n : Notification). n.drill) w.sent)
              prev,
      λ name.
          told.1 name
          ∙ ap
              (λ (b : Bool).
                if recovers b && str_eq d.name name then false else is_marked name w.stale)
              prev,
    )
