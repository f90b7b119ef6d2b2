-- ===== src/Orchestrate/ShortCircuit.antt =====
-- Levels run in order, and none is executed after one that failed or errored.
use redrill.Prelude.{
  ℕ, suc, ◌≡◌, refl, Bool, true, false, ◌&&◌, ◌||◌, List, [], ◌∷◌, ◌++◌, arith, if◌then◌else◌, sym,
  ◌∙◌, Bool-cases, inl, inr, String,
}
use redrill.Clock.{Time}
use redrill.Config.{Drill, Source}
use redrill.Prelude.Int.{ℤ}
use redrill.Exec.Step.{StepSpec, StepReply, done}
use redrill.Store.Action.{Faults, ok, modify, ◌>>=◌}
use redrill.Store.Action.Keeps.{Keeps, keeps_rules, bind_inv, Keeps-pure}
use redrill.Orchestrate.Model.{LevelStatus, RunOptions, LevelOutcome, Leveled, build_step}
use redrill.Orchestrate.Level.{World, read_clock, settle, call_executor, run_level}
use redrill.Orchestrate.Run.{is_bad, note_outcome, run_levels, baseline, finish, run_body}
use redrill.Store.Model.{Result}
use redrill.Orchestrate.Rules.{
  IsFrame, frame-settle, frame-read_clock, frame-record_step, frame-on_db,
}

abbrev pub is_skipped : LevelStatus → Bool
is_skipped LevelStatus.skipped = true
is_skipped _ = false

abbrev pub all_skipped : List LevelOutcome → Bool
all_skipped [] = true
all_skipped (lv ∷ lvs) = is_skipped lv.status && all_skipped lvs

-- After a level that failed or errored there are only skipped ones.
abbrev pub stops_at_bad : List LevelOutcome → Bool
stops_at_bad [] = true
stops_at_bad (lv ∷ lvs) = (if is_bad lv.status then all_skipped lvs else true) && stops_at_bad lvs

abbrev pub any_bad : List LevelOutcome → Bool
any_bad [] = false
any_bad (lv ∷ lvs) = is_bad lv.status || any_bad lvs

all_skipped-snoc :
    (lvs : List LevelOutcome) (lv : LevelOutcome)
    → all_skipped (lvs ++ lv ∷ []) ≡ (all_skipped lvs && is_skipped lv.status)
all_skipped-snoc [] lv = ground arith
all_skipped-snoc (x ∷ lvs) lv = ground (arith, all_skipped-snoc lvs lv)

any_bad-snoc :
    (lvs : List LevelOutcome) (lv : LevelOutcome)
    → any_bad (lvs ++ lv ∷ []) ≡ (any_bad lvs || is_bad lv.status)
any_bad-snoc [] lv = ground arith
any_bad-snoc (x ∷ lvs) lv = ground (arith, any_bad-snoc lvs lv)

stops_at_bad-snoc :
    (lvs : List LevelOutcome) (lv : LevelOutcome)
    → stops_at_bad lvs ≡ true
    → (any_bad lvs ≡ true → is_skipped lv.status ≡ true)
    → stops_at_bad (lvs ++ lv ∷ []) ≡ true
stops_at_bad-snoc [] lv h k = ground arith
stops_at_bad-snoc (x ∷ lvs) lv h k = ground (
  arith,
  all_skipped-snoc lvs lv,
  stops_at_bad-snoc lvs lv (ground arith) (λ e. k (ground arith)),
)

-- What the loop keeps.
abbrev Ordered : World → Type 0
Ordered w = (w.short_circuit ≡ any_bad w.levels) × (stops_at_bad w.levels ≡ true)

-- The two fields that a level does not touch.
abbrev Untouched : Bool → List LevelOutcome → World → Type 0
Untouched b lvs w = (w.short_circuit ≡ b) × (w.levels ≡ lvs)

Untouched-frame : (b : Bool) (lvs : List LevelOutcome) → IsFrame (Untouched b lvs)
Untouched-frame b lvs = record { db_free = λ w db h. h; clock_free = λ w n h. h }

module _ (f : Faults) (clock : ℕ → Time) (ex : StepSpec → StepReply) where
  call_executor-Untouched :
      (b : Bool) (lvs : List LevelOutcome) (id : ℕ) (drill : Drill) (src : Source) (lv : Leveled)
      (t : Time) (o : RunOptions) (prev : ℤ)
      → Keeps (Untouched b lvs) (call_executor f clock ex id drill src lv t o prev)
  unfolding call_executor
  call_executor-Untouched b lvs id drill src lv t o prev = record { at = λ w h. h }

  run_level-Untouched :
      (b : Bool) (lvs : List LevelOutcome) (id : ℕ) (drill : Drill) (src : Source) (lv : Leveled)
      (t : Time) (o : RunOptions) (prev : ℤ)
      → Keeps (Untouched b lvs) (run_level f clock ex id drill src lv t o prev)
  unfolding run_level
  run_level-Untouched b lvs id drill src lv t o prev =
      let free = Untouched-frame b lvs in
      let rec : (reply : StepReply) (s : Time)
          → Keeps (Untouched b lvs) (settle f clock ex id lv s reply) =
        λ reply s. frame-settle free f clock ex id lv s reply (λ w st h. h) in
      search
        (keeps_rules, frame-read_clock free, frame-record_step free, call_executor-Untouched, rec)
        depth 8

  -- A level that did not run is skipped.
  settle_skips :
      (id : ℕ) (lv : Leveled) (t : Time) (reply : StepReply) (w : World) {out : LevelOutcome}
      → (settle f clock ex id lv t reply w).0 ≡ ok (out, false)
      → is_skipped out.status ≡ true
  unfolding settle ◌>>=◌
  settle_skips id lv t (done res) w e = ground arith
  settle_skips id lv t reply w e = ground arith

  -- After a bad level none runs.
  run_level_short :
      (id : ℕ) (drill : Drill) (src : Source) (lv : Leveled) (t : Time) (o : RunOptions) (prev : ℤ)
      (w : World) {out : LevelOutcome} {ran : Bool}
      → w.short_circuit ≡ true
      → (run_level f clock ex id drill src lv t o prev w).0 ≡ ok (out, ran)
      → (ran ≡ false) × (is_skipped out.status ≡ true)
  unfolding run_level read_clock ◌>>=◌
  run_level_short id drill src lv t o prev w h e = ground arith

  run_level_skips :
      (id : ℕ) (drill : Drill) (src : Source) (lv : Leveled) (t : Time) (o : RunOptions) (prev : ℤ)
      (w : World) {out : LevelOutcome}
      → (run_level f clock ex id drill src lv t o prev w).0 ≡ ok (out, false)
      → is_skipped out.status ≡ true
  unfolding run_level read_clock call_executor ◌>>=◌
  run_level_skips id drill src lv t o prev w {out} e = elim (Bool-cases w.short_circuit) [
    | inl short ↦ (run_level_short id drill src lv t o prev w short e).1
    | inr long ↦
        let spec = build_step id drill src lv t o prev w.state in
        let w' : World = record w { reads = suc w.reads; calls = spec ∷ w.calls } in
        ground (arith, settle_skips id lv (clock w.reads) (ex spec) w' {out = out})
  ]

  note-Ordered :
      (lv : Leveled) (out : LevelOutcome) (ran : Bool) (w : World)
      → Ordered w
      → (w.short_circuit ≡ true → is_skipped out.status ≡ true)
      → (ran ≡ false → is_skipped out.status ≡ true)
      → Ordered (note_outcome lv (out, ran) w)
  note-Ordered lv out ran w h p q = (
    ground (arith, any_bad-snoc w.levels out),
    stops_at_bad-snoc w.levels out h.1 (λ e. p (h.0 ∙ e)),
  )

  -- One round of the loop.
  round-Ordered :
      (id : ℕ) (drill : Drill) (src : Source) (lv : Leveled) (t : Time) (o : RunOptions) (prev : ℤ)
      (w : World) {out : LevelOutcome} {ran : Bool}
      → Ordered w
      → (run_level f clock ex id drill src lv t o prev w).0 ≡ ok (out, ran)
      → Ordered (note_outcome lv (out, ran) (run_level f clock ex id drill src lv t o prev w).1)
  round-Ordered id drill src lv t o prev w {out} {ran} h e =
      let w' = (run_level f clock ex id drill src lv t o prev w).1 in
      let (short, levels) =
        (run_level-Untouched w.short_circuit w.levels id drill src lv t o prev).at w (refl, refl) in
      note-Ordered lv out ran w' (rw (short, levels) h)
        (λ b. (run_level_short id drill src lv t o prev w (sym short ∙ b) e).1)
        (λ r. ground (arith, run_level_skips id drill src lv t o prev w {out = out}))

  pub run_levels-Ordered :
      (id : ℕ) (drill : Drill) (src : Source) (t : Time) (o : RunOptions) (prev : ℤ)
      (lvs : List Leveled) (w : World)
      → Ordered w
      → Ordered (run_levels f clock ex id drill src t o prev lvs w).1
  unfolding run_levels
  run_levels-Ordered id drill src t o prev [] w h = (Keeps-pure {I = Ordered} tt).at w h
  run_levels-Ordered id drill src t o prev (lv ∷ lvs) w h =
      let level = run_level f clock ex id drill src lv t o prev in
      let (short, levels) =
        (run_level-Untouched w.short_circuit w.levels id drill src lv t o prev).at w (refl, refl) in
      bind_inv Ordered level _ w (rw (short, levels) h) (λ a e.
        bind_inv Ordered (modify (note_outcome lv a)) _ (level w).1 (modified a e) (λ _ _.
          run_levels-Ordered id drill src t o prev lvs (modify (note_outcome lv a) (level w).1).1
            (modified a e)))
    where
      modified :
          (a : LevelOutcome × Bool)
          → (run_level f clock ex id drill src lv t o prev w).0 ≡ ok a
          → Ordered
              (modify (note_outcome lv a) (run_level f clock ex id drill src lv t o prev w).1).1
      modified (out, ran) e = unfold ◌>>=◌ in round-Ordered id drill src lv t o prev w h e

  baseline-Ordered : (drill : String) → Keeps Ordered (baseline f clock ex drill)
  unfolding baseline
  baseline-Ordered drill = record { at = λ w h. h }

  Ordered-frame : IsFrame Ordered
  Ordered-frame = record { db_free = λ w db h. h; clock_free = λ w n h. h }

  finish-Ordered : (id : ℕ) (r : Result) (t : Time) → Keeps Ordered (finish f clock ex id r t)
  unfolding finish
  finish-Ordered id r t =
      search (keeps_rules, frame-on_db Ordered-frame, frame-read_clock Ordered-frame)

  pub run_body-Ordered :
      (id : ℕ) (drill : Drill) (src : Source) (t : Time) (o : RunOptions) (lvs : List Leveled)
      → Keeps Ordered (run_body f clock ex id drill src t o lvs)
  unfolding run_body
  run_body-Ordered id drill src t o lvs =
      search (keeps_rules, baseline-Ordered, levels, finish-Ordered)
    where
      levels : (prev : ℤ) → Keeps Ordered (run_levels f clock ex id drill src t o prev lvs)
      levels prev = record { at = λ w h. run_levels-Ordered id drill src t o prev lvs w h }
