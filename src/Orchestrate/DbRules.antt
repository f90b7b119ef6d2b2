-- ===== src/Orchestrate/DbRules.antt =====
-- What the database keeps through the levels of a run, from what the calls of the store keep.
use redrill.Prelude.{ℕ, Bool, List, [], ◌∷◌, String}
use redrill.Prelude.Int.{ℤ}
use redrill.Clock.{Time}
use redrill.Config.{Drill, Source}
use redrill.Checks.{Evidence}
use redrill.Exec.Step.{unsupported, no_sandbox_runtime, failed, panicked, StepSpec, StepReply, done}
use redrill.Store.Model.{Db, RunStep, EvidenceRow}
use redrill.Store.Action.{Faults, modify}
use redrill.Store.Action.Keeps.{
  Keeps, keeps_rules, Keeps-bind, Keeps-pure, Keeps-raise, Keeps-modify,
}
use redrill.Store.Runs.{last_baseline_run}
use redrill.Store.Trail.{add_step, add_evidence}
use redrill.Orchestrate.Model.{LevelOutcome, RunOptions, Leveled}
use redrill.Orchestrate.Level.{
  World, read_clock, record_step, write_evidence, settle, call_executor, run_level,
}
use redrill.Orchestrate.Run.{baseline, run_levels, note_outcome}
use redrill.Orchestrate.Rules.{Keeps-on_db}

-- A property of the database that the levels of a run keep.
pub record LevelRules (f : Faults) (Q : Db → Type 0) : Type 0 where
  pub step_rule : (st : RunStep) → Keeps Q (add_step f st)
  pub evidence_rule : (e : EvidenceRow) → Keeps Q (add_evidence f e)
  pub baseline_rule : (drill : String) → Keeps Q (last_baseline_run f drill)

module _ (f : Faults) (Q : Db → Type 0) (rules : LevelRules f Q) (clock : ℕ → Time)
    (ex : StepSpec → StepReply) where
  abbrev InDb : World → Type 0
  InDb w = Q w.db

  clock-InDb : Keeps InDb (read_clock f clock ex)
  unfolding read_clock
  clock-InDb = record { at = λ w h. h }

  record_step-InDb :
      (id : ℕ) (out : LevelOutcome) (t : Time) → Keeps InDb (record_step f clock ex id out t)
  unfolding record_step
  record_step-InDb id out t =
      Keeps-bind _ _ clock-InDb (λ end. Keeps-on_db {Q = Q} _ (rules.step_rule _))

  write_evidence-InDb :
      (id : ℕ) (evs : List Evidence) → Keeps InDb (write_evidence f clock ex id evs)
  unfolding write_evidence
  write_evidence-InDb id [] = Keeps-pure tt
  write_evidence-InDb id (ev ∷ evs) =
      Keeps-bind _ _ (Keeps-on_db {Q = Q} _ (rules.evidence_rule _))
        (λ _. write_evidence-InDb id evs)

  settle-InDb :
      (id : ℕ) (lv : Leveled) (t : Time) (reply : StepReply)
      → Keeps InDb (settle f clock ex id lv t reply)
  unfolding settle
  settle-InDb id lv t (done res) =
      search (keeps_rules, Keeps-modify, record_step-InDb, write_evidence-InDb) depth 10
  settle-InDb id lv t (panicked why) = Keeps-raise _
  settle-InDb id lv t unsupported = search (keeps_rules, record_step-InDb)
  settle-InDb id lv t no_sandbox_runtime = search (keeps_rules, record_step-InDb)
  settle-InDb id lv t (failed why) = search (keeps_rules, record_step-InDb)

  call_executor-InDb :
      (id : ℕ) (drill : Drill) (src : Source) (lv : Leveled) (t : Time) (o : RunOptions) (prev : ℤ)
      → Keeps InDb (call_executor f clock ex id drill src lv t o prev)
  unfolding call_executor
  call_executor-InDb id drill src lv t o prev = record { at = λ w h. h }

  run_level-InDb :
      (id : ℕ) (drill : Drill) (src : Source) (lv : Leveled) (t : Time) (o : RunOptions) (prev : ℤ)
      → Keeps InDb (run_level f clock ex id drill src lv t o prev)
  unfolding run_level
  run_level-InDb id drill src lv t o prev =
      search (keeps_rules, clock-InDb, record_step-InDb, call_executor-InDb, settle-InDb) depth 8

  note-InDb : (lv : Leveled) (o : LevelOutcome × Bool) → Keeps InDb (modify (note_outcome lv o))
  note-InDb lv (out, ran) = Keeps-modify _ (λ w h. h)

  pub run_levels-InDb :
      (id : ℕ) (drill : Drill) (src : Source) (t : Time) (o : RunOptions) (prev : ℤ)
      (lvs : List Leveled)
      → Keeps InDb (run_levels f clock ex id drill src t o prev lvs)
  unfolding run_levels
  run_levels-InDb id drill src t o prev [] = Keeps-pure tt
  run_levels-InDb id drill src t o prev (lv ∷ lvs) =
      Keeps-bind _ _ (run_level-InDb id drill src lv t o prev)
        (λ out. Keeps-bind _ _ (note-InDb lv out) (λ _. run_levels-InDb id drill src t o prev lvs))

  pub baseline-InDb : (drill : String) → Keeps InDb (baseline f clock ex drill)
  unfolding baseline
  baseline-InDb drill = record { at = λ w h. (rules.baseline_rule drill).at w.db h }
