-- ===== src/Orchestrate/Rules.antt =====
-- Invariants of a level of a run: rules for the calls of the store and of the clock.
use redrill.Prelude.{ℕ, suc, List, [], ◌∷◌}
use redrill.Clock.{Time}
use redrill.Checks.{Evidence}
use redrill.Exec.Step.{StepSpec, StepReply, done, unsupported, no_sandbox_runtime, failed, panicked}
use redrill.Store.Model.{Db}
use redrill.Store.Action.{Action, Faults}
use redrill.Store.Action.Keeps.{
  Keeps, keeps_rules, Keeps-pure, Keeps-raise, Keeps-bind, Keeps-modify,
}
use redrill.Orchestrate.Model.{LevelOutcome, LevelState, Leveled}
use redrill.Orchestrate.Level.{
  World, on_db, read_clock, record_step, write_evidence, settle, add_totals, pin_snapshot,
  keep_sandbox,
}
use redrill.Orchestrate.Run.{ignore_error}

-- A property of the world that does not read the database or the number of clock readings.
pub record IsFrame (P : World → Type 0) : Type 0 where
  pub db_free : (w : World) (db : Db) → P w → P (record w { db = db })
  pub clock_free : (w : World) (n : ℕ) → P w → P (record w { reads = n })

module _ {P : World → Type 0} (free : IsFrame P) where
  pub frame-on_db : {A : Type 0} (m : Action Db A) → Keeps P (on_db m)
  unfolding on_db
  frame-on_db m = record { at = λ w h. free.db_free w (m w.db).1 h }

  pub frame-read_clock :
      (f : Faults) (clock : ℕ → Time) (ex : StepSpec → StepReply) → Keeps P (read_clock f clock ex)
  unfolding read_clock
  frame-read_clock f clock ex = record { at = λ w h. free.clock_free w (suc w.reads) h }

  pub frame-record_step :
      (f : Faults) (clock : ℕ → Time) (ex : StepSpec → StepReply) (id : ℕ) (out : LevelOutcome)
      (t : Time)
      → Keeps P (record_step f clock ex id out t)
  unfolding record_step
  frame-record_step f clock ex id out t = search (keeps_rules, frame-on_db, frame-read_clock)

  pub frame-write_evidence :
      (f : Faults) (clock : ℕ → Time) (ex : StepSpec → StepReply) (id : ℕ) (evs : List Evidence)
      → Keeps P (write_evidence f clock ex id evs)
  unfolding write_evidence
  frame-write_evidence f clock ex id [] = Keeps-pure tt
  frame-write_evidence f clock ex id (ev ∷ evs) =
      Keeps-bind _ _ (frame-on_db _) (λ _. frame-write_evidence f clock ex id evs)

  -- A level keeps a property that the pin, the totals and the log of calls do not break.
  pub frame-settle :
      (f : Faults) (clock : ℕ → Time) (ex : StepSpec → StepReply) (id : ℕ) (lv : Leveled) (t : Time)
      (reply : StepReply)
      → ((w : World) (st : LevelState) → P w → P (record w { state = st }))
      → Keeps P (settle f clock ex id lv t reply)
  unfolding settle
  frame-settle f clock ex id lv t unsupported k = search (keeps_rules, frame-record_step)
  frame-settle f clock ex id lv t no_sandbox_runtime k = search (keeps_rules, frame-record_step)
  frame-settle f clock ex id lv t (failed why) k = search (keeps_rules, frame-record_step)
  frame-settle f clock ex id lv t (panicked why) k = Keeps-raise _
  frame-settle f clock ex id lv t (done res) k =
      Keeps-bind _ _ (Keeps-modify _ (λ w h. k w (keep_sandbox res (pin_snapshot res w.state)) h))
        (λ _. Keeps-bind _ _ (frame-write_evidence f clock ex id res.evidence) (λ _.
          Keeps-bind _ _ (frame-record_step f clock ex id _ t) (λ _.
            Keeps-bind _ _ (Keeps-modify _ (λ w h. k w (add_totals res w.state) h))
              (λ _. Keeps-pure _))))

-- A property of the database is kept by a call of the store that keeps it.
pub Keeps-on_db :
    {Q : Db → Type 0} {A : Type 0} (m : Action Db A)
    → Keeps Q m
    → Keeps (λ (w : World). Q w.db) (on_db m)
unfolding on_db
Keeps-on_db m k = record { at = λ w h. k.at w.db h }

pub Keeps-ignore_error :
    {S A : Type 0} {Q : S → Type 0} (m : Action S A) → Keeps Q m → Keeps Q (ignore_error m)
unfolding ignore_error
Keeps-ignore_error m k = record { at = λ s h. k.at s h }
