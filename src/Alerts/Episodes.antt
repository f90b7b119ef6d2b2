-- ===== src/Alerts/Episodes.antt =====
-- A stale episode of a drill: sweeps alert when it begins, and not again until it ends.
use redrill.Prelude.{
  ◌≡◌, String, Bool, false, not, ◌&&◌, List, [], ◌∷◌, str_eq, eq_iff, if◌then◌else◌, arith,
}
use redrill.Clock.{Time, zero_time}
use redrill.Config.{Drill}
use redrill.Store.Model.{Db, DrillState}
use redrill.Store.Action.{no_faults, ◌>>=◌}
use redrill.Store.Proofs.{get_proof, proof_of}
use redrill.Store.Monotone.{proven}
use redrill.Scheduler.Staleness.{stale, headline_level}
use redrill.Alerts.Model.{Event, Notification}
use redrill.Alerts.Watch.{Watch, is_marked, unmark, dispatch, proof, sweep_drill}

-- What sweepStale finds of a drill: its headline proof is older than it allows.
abbrev pub last_proof_of : Drill → List DrillState → Time
last_proof_of d rows =
    if str_eq (headline_level d) ""
    then zero_time
    else proven (proof_of d.name (headline_level d) rows)

abbrev pub is_overdue : Time → Drill → List DrillState → Bool
is_overdue now d rows = stale d.max_proof_age (last_proof_of d rows) now

-- The alert of an episode.
abbrev pub stale_note : Time → Drill → List DrillState → Notification
stale_note now d rows = record {
  event = Event.stale;
  drill = d.name;
  level = headline_level d;
  detail = "";
  last_proven = last_proof_of d rows;
  max_proof_age = d.max_proof_age;
  now = now;
}

pub proof_lem :
    (drill level : String) (db : Db)
    → ((proof no_faults drill level db).0
        ≡ (if str_eq level "" then zero_time else proven (proof_of drill level db.drill_state)))
      × ((proof no_faults drill level db).1.drill_state ≡ db.drill_state)
unfolding proof get_proof ◌>>=◌
proof_lem drill level db = (ground arith, ground arith)

pub is_marked-unmark :
    (name other : String) (ns : List String)
    → is_marked name (unmark other ns) ≡ (if str_eq other name then false else is_marked name ns)
is_marked-unmark name other [] = ground arith
is_marked-unmark name other (n ∷ ns) =
    ground (arith, is_marked-unmark name other ns, eq_iff n other, eq_iff n name, eq_iff other name)

module _ (enabled : Event → Bool) where
  -- One drill of a sweep: its mark becomes whether it is overdue, no other mark moves, and the alert
  -- is sent exactly if it is overdue and was not marked.
  pub sweep_drill_lem :
      (now : Time) (d : Drill) (w : Watch)
      → let w' = sweep_drill no_faults enabled now d w in
        ((name : String)
          → is_marked name w'.stale ≡ (
              if str_eq d.name name
              then is_overdue now d w.db.drill_state
              else is_marked name w.stale))
        × (w'.sent ≡ (
            if is_overdue now d w.db.drill_state
              && not (is_marked d.name w.stale)
              && enabled Event.stale
            then stale_note now d w.db.drill_state ∷ w.sent
            else w.sent))
        × (w'.db.drill_state ≡ w.db.drill_state)
  unfolding sweep_drill dispatch
  sweep_drill_lem now d w = (
    (λ name. ground (
      arith,
      proof_lem d.name (headline_level d) w.db,
      is_marked-unmark name d.name w.stale,
      eq_iff d.name name,
    )),
    ground (arith, proof_lem d.name (headline_level d) w.db),
    ground (arith, proof_lem d.name (headline_level d) w.db),
  )
