-- ===== src/Orchestrate/Pin.antt =====
-- One snapshot per run: what the executor is asked to audit.
use redrill.Prelude.{
  ℕ, ◌≡◌, refl, Bool, true, ◌&&◌, ◌||◌, List, [], ◌∷◌, arith, if◌then◌else◌, String, str_eq, eq_iff,
  ◌==◌,
}
use redrill.Prelude.Int.{ℤ}
use redrill.Clock.{Time}
use redrill.Config.{Drill, Source}
use redrill.Exec.Step.{
  StepSpec, StepResult, StepReply, done, unsupported, no_sandbox_runtime, failed, panicked,
}
use redrill.Store.Model.{Db, Result}
use redrill.Store.Action.{Action, Faults, Outcome, ok, err, modify}
use redrill.Store.Action.Keeps.{
  Keeps, keeps_rules, Keeps-pure, Keeps-raise, Keeps-bind, Keeps-modify,
}
use redrill.Orchestrate.Model.{RunOptions, LevelOutcome, Leveled, build_step}
use redrill.Orchestrate.Level.{World, settle, call_executor, run_level, pin_snapshot, keep_sandbox}
use redrill.Orchestrate.Run.{
  note_outcome, run_levels, baseline, finish, run_body, or_finalize, record_proofs, prune_retention,
  run_tail, run, begin,
}
use redrill.Orchestrate.Rules.{
  IsFrame, frame-read_clock, frame-record_step, frame-on_db, frame-write_evidence,
}

-- Every step asks for the pinned snapshot, or was sent before there was one.
abbrev pub same_pin : String → Time → List StepSpec → Bool
same_pin pin at [] = true
same_pin pin at (c ∷ cs) =
    (str_eq c.snapshot "" || str_eq c.snapshot pin && c.snapshot_time == at) && same_pin pin at cs

abbrev pub all_unpinned : List StepSpec → Bool
all_unpinned [] = true
all_unpinned (c ∷ cs) = str_eq c.snapshot "" && all_unpinned cs

-- The latest first: before a step with no pin there is none with one.
abbrev pub pins_stay : List StepSpec → Bool
pins_stay [] = true
pins_stay (c ∷ cs) = (if str_eq c.snapshot "" then all_unpinned cs else true) && pins_stay cs

abbrev pub OnePin : World → Type 0
OnePin w = (same_pin w.state.pin w.state.pin_at w.calls ≡ true) × (pins_stay w.calls ≡ true)

same_pin-empty :
    (pin new : String) (at t : Time) (cs : List StepSpec)
    → pin ≡ ""
    → same_pin pin at cs ≡ true
    → (same_pin new t cs ≡ true) × (all_unpinned cs ≡ true)
same_pin-empty pin new at t [] e h = (refl, refl)
same_pin-empty pin new at t (c ∷ cs) e h = (
  ground (arith, same_pin-empty pin new at t cs e, eq_iff c.snapshot pin, eq_iff c.snapshot ""),
  ground (arith, same_pin-empty pin new at t cs e, eq_iff c.snapshot pin, eq_iff c.snapshot ""),
)

OnePin-frame : IsFrame OnePin
OnePin-frame = record { db_free = λ w db h. h; clock_free = λ w n h. h }

pinned-OnePin :
    (res : StepResult) (w : World)
    → OnePin w
    → OnePin (record w { state = keep_sandbox res (pin_snapshot res w.state) })
pinned-OnePin res w h = (
  ground (
    arith,
    same_pin-empty w.state.pin res.snapshot w.state.pin_at res.snapshot_time w.calls,
    eq_iff w.state.pin "",
  ),
  h.1,
)

module _ (f : Faults) (clock : ℕ → Time) (ex : StepSpec → StepReply) where
  call_executor-OnePin :
      (id : ℕ) (drill : Drill) (src : Source) (lv : Leveled) (t : Time) (o : RunOptions) (prev : ℤ)
      → Keeps OnePin (call_executor f clock ex id drill src lv t o prev)
  unfolding call_executor build_step
  call_executor-OnePin id drill src lv t o prev = record {
    at = λ w h. (
      ground (arith, eq_iff w.state.pin w.state.pin),
      ground (arith, same_pin-empty w.state.pin "" w.state.pin_at 0 w.calls, eq_iff w.state.pin ""),
    );
  }

  settle-OnePin :
      (id : ℕ) (lv : Leveled) (t : Time) (reply : StepReply)
      → Keeps OnePin (settle f clock ex id lv t reply)
  unfolding settle
  settle-OnePin id lv t (done res) = Keeps-bind _ _ (Keeps-modify _ (pinned-OnePin res)) (λ _.
      Keeps-bind _ _ (frame-write_evidence OnePin-frame f clock ex id res.evidence) (λ _.
        Keeps-bind _ _ (frame-record_step OnePin-frame f clock ex id _ t)
          (λ _. Keeps-bind _ _ (Keeps-modify _ (λ w h. h)) (λ _. Keeps-pure _))))
  settle-OnePin id lv t unsupported = search (keeps_rules, frame-record_step OnePin-frame)
  settle-OnePin id lv t no_sandbox_runtime = search (keeps_rules, frame-record_step OnePin-frame)
  settle-OnePin id lv t (failed why) = search (keeps_rules, frame-record_step OnePin-frame)
  settle-OnePin id lv t (panicked why) = Keeps-raise _

  run_level-OnePin :
      (id : ℕ) (drill : Drill) (src : Source) (lv : Leveled) (t : Time) (o : RunOptions) (prev : ℤ)
      → Keeps OnePin (run_level f clock ex id drill src lv t o prev)
  unfolding run_level
  run_level-OnePin id drill src lv t o prev =
      search
        (
          keeps_rules,
          frame-read_clock OnePin-frame,
          frame-record_step OnePin-frame,
          call_executor-OnePin,
          settle-OnePin,
        )
        depth 8

  note-OnePin : (lv : Leveled) (o : LevelOutcome × Bool) → Keeps OnePin (modify (note_outcome lv o))
  note-OnePin lv (out, ran) = Keeps-modify _ (λ w h. h)

  run_levels-OnePin :
      (id : ℕ) (drill : Drill) (src : Source) (t : Time) (o : RunOptions) (prev : ℤ)
      (lvs : List Leveled)
      → Keeps OnePin (run_levels f clock ex id drill src t o prev lvs)
  unfolding run_levels
  run_levels-OnePin id drill src t o prev [] = Keeps-pure tt
  run_levels-OnePin id drill src t o prev (lv ∷ lvs) =
      Keeps-bind _ _ (run_level-OnePin id drill src lv t o prev) (λ out.
        Keeps-bind _ _ (note-OnePin lv out) (λ _. run_levels-OnePin id drill src t o prev lvs))

  baseline-OnePin : (drill : String) → Keeps OnePin (baseline f clock ex drill)
  unfolding baseline
  baseline-OnePin drill = record { at = λ w h. h }

  finish-OnePin : (id : ℕ) (r : Result) (t : Time) → Keeps OnePin (finish f clock ex id r t)
  unfolding finish
  finish-OnePin id r t =
      search (keeps_rules, frame-on_db OnePin-frame, frame-read_clock OnePin-frame)

  run_body-OnePin :
      (id : ℕ) (drill : Drill) (src : Source) (t : Time) (o : RunOptions) (lvs : List Leveled)
      → Keeps OnePin (run_body f clock ex id drill src t o lvs)
  unfolding run_body
  run_body-OnePin id drill src t o lvs =
      search (keeps_rules, baseline-OnePin, run_levels-OnePin, finish-OnePin)

  or_finalize-OnePin :
      (id : ℕ) (t : Time) (body : Action World Time)
      → Keeps OnePin body
      → Keeps OnePin (or_finalize f clock ex id t body)
  unfolding or_finalize
  or_finalize-OnePin id t body k = record { at = λ w h. finalized (body w).0 (body w).1 (k.at w h) }
    where
      finalized :
          (r : Outcome Time) (w' : World)
          → OnePin w'
          → OnePin
              (elim r as (λ _. Outcome Time × World) [
                | ok end ↦ (ok end, w')
                | err e ↦ (err e, (finish f clock ex id Result.error t w').1)
              ]).1
      finalized (ok end) w' h = h
      finalized (err e) w' h = (finish-OnePin id Result.error t).at w' h

  record_proofs-OnePin :
      (drill : String) (t : Time) (lvs : List LevelOutcome)
      → Keeps OnePin (record_proofs f clock ex drill t lvs)
  unfolding record_proofs
  record_proofs-OnePin drill t [] = Keeps-pure tt
  record_proofs-OnePin drill t (lv ∷ lvs) =
      Keeps-bind _ _ (search (keeps_rules, frame-on_db OnePin-frame))
        (λ _. record_proofs-OnePin drill t lvs)

  prune_retention-OnePin :
      (drill : Drill) (t : Time) → Keeps OnePin (prune_retention f clock ex drill t)
  unfolding prune_retention
  prune_retention-OnePin drill t = search (keeps_rules, frame-on_db OnePin-frame)

  run_tail-OnePin :
      (id : ℕ) (drill : Drill) (t end : Time) → Keeps OnePin (run_tail f clock ex id drill t end)
  unfolding run_tail
  run_tail-OnePin id drill t end =
      search (keeps_rules, frame-on_db OnePin-frame, record_proofs-OnePin, prune_retention-OnePin)
        depth 10

  run_stages-OnePin :
      (host : String) (drill : Drill) (src : Source) (o : RunOptions)
      → Keeps OnePin (run f clock ex host drill src o)
  unfolding run
  run_stages-OnePin host drill src o =
      search
        (
          keeps_rules,
          frame-on_db OnePin-frame,
          frame-read_clock OnePin-frame,
          or_finalize-OnePin,
          run_body-OnePin,
          run_tail-OnePin,
        )
        depth 12

  -- However a run ends, the steps that it sent to the executor name no snapshot but the one pinned, with
  -- its time, and once a step names it every later one does: the levels of a run audit one snapshot.
  pub run-OnePin :
      (host : String) (drill : Drill) (src : Source) (o : RunOptions) (db : Db)
      → OnePin (run f clock ex host drill src o (begin db)).1
  run-OnePin host drill src o db = (run_stages-OnePin host drill src o).at (begin db) (refl, refl)
