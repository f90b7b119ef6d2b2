-- ===== src/Alerts/Sweeps.antt =====
-- Whole sweeps, one after another: what they alert and what they leave marked.
use redrill.Prelude.{
  ◌≡◌, refl, ap, ◌∙◌, String, Bool, true, false, not, ◌&&◌, ◌||◌, List, [], ◌∷◌, str_eq, eq_iff,
  if◌then◌else◌, arith, All,
}
use mathlib.Core.Path.{subst}
use redrill.Clock.{Time}
use redrill.Config.{Drill}
use redrill.Store.Model.{DrillState}
use redrill.Store.Action.{no_faults}
use redrill.Alerts.Model.{Event, Notification}
use redrill.Alerts.Watch.{Watch, is_marked, sweep_drill, sweep_stale}
use redrill.Alerts.Episodes.{is_overdue, stale_note, sweep_drill_lem}

-- Drills with different names.
abbrev pub is_named : String → List Drill → Bool
is_named name [] = false
is_named name (d ∷ ds) = str_eq d.name name || is_named name ds

abbrev pub have_distinct_names : List Drill → Bool
have_distinct_names [] = true
have_distinct_names (d ∷ ds) = not (is_named d.name ds) && have_distinct_names ds

-- The alerts of the drills that pass a test, in the order of a sweep, the latest first.
abbrev pub alerts :
    (Drill → Bool) → Time → List DrillState → List Drill → List Notification → List Notification
alerts test now rows [] sent = sent
alerts test now rows (d ∷ ds) sent =
    alerts test now rows ds (if test d then stale_note now d rows ∷ sent else sent)

alerts_cong :
    (p q : Drill → Bool) (now : Time) (rows : List DrillState) (ds : List Drill)
    (sent : List Notification)
    → All (λ (d : Drill). p d ≡ q d) ds
    → alerts p now rows ds sent ≡ alerts q now rows ds sent
alerts_cong p q now rows [] sent h = refl
alerts_cong p q now rows (d ∷ ds) sent h =
    rw h.0 (alerts_cong p q now rows ds (if q d then stale_note now d rows ∷ sent else sent) h.1)

module _ (enabled : Event → Bool) where
  -- A drill of a sweep is alerted if it is overdue and not marked.
  abbrev pub begins : Time → List String → List DrillState → Drill → Bool
  begins now marks rows d =
      is_overdue now d rows && not (is_marked d.name marks) && enabled Event.stale

  sweep-frame :
      (now : Time) (ds : List Drill) (w : Watch) (name : String)
      → is_named name ds ≡ false
      → is_marked name (sweep_stale no_faults enabled now ds w).stale ≡ is_marked name w.stale
  unfolding sweep_stale
  sweep-frame now [] w name h = refl
  sweep-frame now (d ∷ ds) w name h =
      let one = (sweep_drill_lem enabled now d w).0 name in
      sweep-frame now ds (sweep_drill no_faults enabled now d w) name (ground arith)
      ∙ ground (arith, one)

  sweep-rows :
      (now : Time) (ds : List Drill) (w : Watch)
      → (sweep_stale no_faults enabled now ds w).db.drill_state ≡ w.db.drill_state
  unfolding sweep_stale
  sweep-rows now [] w = refl
  sweep-rows now (d ∷ ds) w =
      sweep-rows now ds (sweep_drill no_faults enabled now d w)
      ∙ (sweep_drill_lem enabled now d w).2

  sweep-marks :
      (now : Time) (ds : List Drill) (w : Watch)
      → have_distinct_names ds ≡ true
      → All
          (λ (d : Drill).
            is_marked d.name (sweep_stale no_faults enabled now ds w).stale
            ≡ is_overdue now d w.db.drill_state)
          ds
  unfolding sweep_stale
  sweep-marks now [] w h = tt
  sweep-marks now (d ∷ ds) w h =
      let w' = sweep_drill no_faults enabled now d w in
      let one = sweep_drill_lem enabled now d w in
      (
        sweep-frame now ds w' d.name (ground arith)
            ∙ ground (arith, one.0 d.name, eq_iff d.name d.name),
        subst
            (λ (rows : List DrillState).
              All
                (λ (e : Drill).
                  is_marked e.name (sweep_stale no_faults enabled now ds w').stale
                  ≡ is_overdue now e rows)
                ds)
            one.2 (sweep-marks now ds w' (ground arith)),
      )

  -- The marks of other drills are read as they were.
  begins_cong :
      (now : Time) (d : Drill) (w : Watch) (ds : List Drill)
      → is_named d.name ds ≡ false
      → All
          (λ (e : Drill).
            begins now (sweep_drill no_faults enabled now d w).stale w.db.drill_state e
            ≡ begins now w.stale w.db.drill_state e)
          ds
  begins_cong now d w [] h = tt
  begins_cong now d w (e ∷ ds) h = (
    ground (
      arith,
      (sweep_drill_lem enabled now d w).0 e.name,
      eq_iff d.name e.name,
      eq_iff e.name d.name,
    ),
    begins_cong now d w ds (ground arith),
  )

  sweep-alerts :
      (now : Time) (ds : List Drill) (w : Watch)
      → have_distinct_names ds ≡ true
      → (sweep_stale no_faults enabled now ds w).sent
        ≡ alerts (begins now w.stale w.db.drill_state) now w.db.drill_state ds w.sent
  unfolding sweep_stale
  sweep-alerts now [] w h = refl
  sweep-alerts now (d ∷ ds) w h =
      let w' = sweep_drill no_faults enabled now d w in
      let rows = w.db.drill_state in
      let one = sweep_drill_lem enabled now d w in
      let ih =
        subst
          (λ (r : List DrillState).
            (sweep_stale no_faults enabled now ds w').sent
            ≡ alerts (begins now w'.stale r) now r ds w'.sent)
          one.2 (sweep-alerts now ds w' (ground arith)) in
      ih
      ∙ alerts_cong (begins now w'.stale rows) (begins now w.stale rows) now rows ds w'.sent
          (begins_cong now d w ds (ground arith))
      ∙ ap (alerts (begins now w.stale rows) now rows ds) one.1

  -- A sweep with no failing read alerts exactly the drills that are overdue and not marked; after it,
  -- the marks of its drills are exactly the overdue ones. The drills have different names.
  pub sweep_stale_lem :
      (now : Time) (ds : List Drill) (w : Watch)
      → have_distinct_names ds ≡ true
      → let w' = sweep_stale no_faults enabled now ds w in
        (w'.sent ≡ alerts (begins now w.stale w.db.drill_state) now w.db.drill_state ds w.sent)
        × All (λ (d : Drill). is_marked d.name w'.stale ≡ is_overdue now d w.db.drill_state) ds
  sweep_stale_lem now ds w h = (sweep-alerts now ds w h, sweep-marks now ds w h)

  begins-swept :
      (now now' : Time) (marks : List String) (rows : List DrillState) (ds : List Drill)
      → All (λ (d : Drill). is_marked d.name marks ≡ is_overdue now d rows) ds
      → All
          (λ (d : Drill).
            begins now' marks rows d
            ≡ (is_overdue now' d rows && not (is_overdue now d rows) && enabled Event.stale))
          ds
  begins-swept now now' marks rows [] h = tt
  begins-swept now now' marks rows (d ∷ ds) h =
      (rw h.0 refl, begins-swept now now' marks rows ds h.1)

  -- A sweep that follows a sweep alerts exactly the drills that are overdue now and were not then: an
  -- episode alerts once, however often it is swept. No read fails, and the drills have different names.
  pub sweep_stale-sweep_stale :
      (now now' : Time) (ds : List Drill) (w : Watch)
      → have_distinct_names ds ≡ true
      → let w' = sweep_stale no_faults enabled now ds w in
        let rows = w.db.drill_state in
        (sweep_stale no_faults enabled now' ds w').sent
        ≡ alerts
            (λ d. is_overdue now' d rows && not (is_overdue now d rows) && enabled Event.stale)
            now'
            rows
            ds
            w'.sent
  sweep_stale-sweep_stale now now' ds w h =
      let w' = sweep_stale no_faults enabled now ds w in
      let rows = w.db.drill_state in
      let marked =
        subst
          (λ (r : List DrillState).
            (sweep_stale no_faults enabled now' ds w').sent
            ≡ alerts (begins now' w'.stale r) now' r ds w'.sent)
          (sweep-rows now ds w) (sweep-alerts now' ds w' h) in
      marked
      ∙ alerts_cong (begins now' w'.stale rows) _ now' rows ds w'.sent
          (begins-swept now now' w'.stale rows ds (sweep-marks now ds w h))
