-- ===== src/Orchestrate/Stages.antt =====
-- What a run that returned went through: the row it created, its body and its tail.
use redrill.Prelude.{ℕ, ◌≡◌, refl, some, List, arith, String, Option-cases, inl, inr, ◌⊎◌}
use redrill.Clock.{Time}
use redrill.Config.{Drill, Source}
use redrill.Exec.Step.{StepSpec, StepReply}
use redrill.Store.Model.{Db, Result}
use redrill.Store.Action.{Faults, Outcome, ok, err, Err, ◌>>=◌}
use redrill.Prelude.Int.{ℤ}
use redrill.Store.Runs.{create_run, finish_run, last_baseline_run}
use redrill.Orchestrate.Model.{RunOptions, RunResult, Leveled, select_levels, aggregate_run}
use redrill.Orchestrate.Level.{World, on_db, read_clock}
use redrill.Orchestrate.Run.{
  new_run, begin, run_body, or_finalize, run_tail, run, finish, baseline, file_count, run_levels,
  outcome_row,
}

pub Outcome-cases {ℓ} :
    {A : Type ℓ} (o : Outcome A) → ((e : Err) × (o ≡ err e)) ⊎ ((a : A) × (o ≡ ok a))
Outcome-cases (ok a) = inr (a, refl)
Outcome-cases (err e) = inl (e, refl)

module _ (f : Faults) (clock : ℕ → Time) (ex : StepSpec → StepReply) (host : String) (drill : Drill)
    (src : Source) (opts : RunOptions) (db : Db) where
  -- The time at which the run starts, and its CreateRun.
  abbrev pub start : Time
  start = clock 0

  abbrev pub created : Outcome ℕ × Db
  created = create_run f (new_run host drill opts start) db

  -- The world in which the body begins.
  abbrev pub opened : World
  opened = record (begin db) { reads = 1; db = created.1 }

  -- The stages of a run that created its row.
  pub run-created :
      (lvs : List Leveled) (id : ℕ)
      → select_levels drill opts.level ≡ some lvs
      → created.0 ≡ ok id
      → run f clock ex host drill src opts (begin db) ≡ (
          ◌>>=◌
            (or_finalize f clock ex id start (run_body f clock ex id drill src start opts lvs))
            (run_tail f clock ex id drill start)
            opened)
  unfolding run on_db read_clock ◌>>=◌
  run-created lvs id p q = ground arith

  pub run_stages :
      {res : RunResult}
      → (run f clock ex host drill src opts (begin db)).0 ≡ ok res
      → (lvs : List Leveled) × (id : ℕ) × (end : Time) × (select_levels drill opts.level ≡ some lvs)
        × (created.0 ≡ ok id)
        × ((run_body f clock ex id drill src start opts lvs opened).0 ≡ ok end)
        × (run f clock ex host drill src opts (begin db)
            ≡ run_tail f clock ex id drill start end
                (run_body f clock ex id drill src start opts lvs opened).1)
  unfolding run on_db read_clock or_finalize ◌>>=◌
  run_stages e = elim (Option-cases (select_levels drill opts.level)) [
    | inl p ↦ ground arith
    | inr (lvs, p) ↦ elim (Outcome-cases created.0) [
      | inl (e', q) ↦ ground arith
      | inr (id, q) ↦
          elim (Outcome-cases (run_body f clock ex id drill src start opts lvs opened).0) [
            | inl (e', r) ↦ ground arith
            | inr (end, r) ↦ (lvs, id, end, p, q, r, ground arith)
          ]
    ]
  ]

module _ (f : Faults) (clock : ℕ → Time) (ex : StepSpec → StepReply) where
  -- The file-count baseline, and the worlds before and after the levels.
  abbrev pub prev_count : Drill → World → ℤ
  prev_count drill w = file_count (last_baseline_run f drill.name w.db).0

  abbrev pub looked_up : Drill → World → World
  looked_up drill w = record w { db = (last_baseline_run f drill.name w.db).1 }

  abbrev pub levels_done : ℕ → Drill → Source → Time → RunOptions → List Leveled → World → World
  levels_done id drill src t o lvs w =
      (run_levels f clock ex id drill src t o (prev_count drill w) lvs (looked_up drill w)).1

  pub body_stages :
      (id : ℕ) (drill : Drill) (src : Source) (t : Time) (o : RunOptions) (lvs : List Leveled)
      (w : World) {end : Time}
      → (run_body f clock ex id drill src t o lvs w).0 ≡ ok end
      → let w' = levels_done id drill src t o lvs w in
        ((run_levels f clock ex id drill src t o (prev_count drill w) lvs (looked_up drill w)).0
          ≡ ok tt)
        × ((finish f clock ex id (aggregate_run w'.levels) t w').0 ≡ ok end)
        × (run_body f clock ex id drill src t o lvs w
            ≡ finish f clock ex id (aggregate_run w'.levels) t w')
  unfolding run_body baseline ◌>>=◌
  body_stages id drill src t o lvs w e =
      elim (Outcome-cases
        (run_levels f clock ex id drill src t o (prev_count drill w) lvs (looked_up drill w)).0) [
          | inl (x, q) ↦ ground arith
          | inr (tt, q) ↦ (ground arith, ground arith, ground arith)
        ]

  -- What `finish` leaves in the database, and when it returns.
  pub finish-db :
      (id : ℕ) (result : Result) (t : Time) (w : World)
      → (finish f clock ex id result t w).1.db
        ≡ (finish_run f (outcome_row id result t (clock w.reads) w) w.db).1
  unfolding finish on_db read_clock ◌>>=◌
  finish-db id result t w = ground arith

  pub finish-levels :
      (id : ℕ) (result : Result) (t : Time) (w : World)
      → ((finish f clock ex id result t w).1.levels ≡ w.levels)
        × ((finish f clock ex id result t w).1.state ≡ w.state)
  unfolding finish on_db read_clock ◌>>=◌
  finish-levels id result t w = (ground arith, ground arith)
