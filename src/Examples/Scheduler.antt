-- ===== src/Examples/Scheduler.antt =====
-- The gate, a round of the scheduler, and staleness.
use redrill.Prelude.{
  ℕ, suc, ◌+◌, ◌≤◌, ◌<◌, ◌≡◌, ◌≢◌, ◌↔◌, ◌⊎◌, refl, true, false, not, ◌&&◌, List, [], ◌∷◌, String,
  arith, length, All, ltb, ◌++◌, str_eq, if◌then◌else◌, none,
}
use redrill.Prelude.Int.{pos}
use redrill.Clock.{Time, zero_time, day, minute}
use redrill.Examples.{demo_drill, demo_clock, all_pass, demo_source, demo_options}
use redrill.Examples.Orchestrate.{passing, result_of, runs_lem}
use redrill.Store.Model.{Result, empty_db}
use redrill.Store.Action.{no_faults}
use redrill.Orchestrate.Proofs.{level_passed}
use redrill.Scheduler.Fresh.{headline_proof, run-stale}
use redrill.Scheduler.Staleness.{stale, headline_level, stale_iff}
use redrill.Scheduler.Gate.{
  Move, acquire, release, free, moves, move, idle, new_gate, is_inflight, has_ticket, try_acquire,
}
use redrill.Scheduler.Flight.{drills, distinct, slots_for, single_flight, gate-NotStuck}
use redrill.Scheduler.Due.{Job, due, wake}
use redrill.Scheduler.Fires.{drills_of, due_drills, fires_at, due_lem}
use redrill.Scheduler.Never.{due-wake}

stale_iff_example :
    stale (pos day) 5 (6 + day) ≡ true ↔ (◌≡◌ {A = ℕ} 5 zero_time) ⊎ (5 + day < 6 + day)
stale_iff_example = stale_iff day 5 (6 + day) (omega arith) (omega arith)

-- Two slots: the drill `a` is asked for twice, and `b` is begun and released.
abbrev some_moves : List Move
some_moves = acquire "a" ∷ acquire "a" ∷ acquire "b" ∷ release 1 ∷ release 1 ∷ acquire "c" ∷ []

single_flight_example :
    let s = moves some_moves (idle (new_gate (pos 2))) in
    (distinct (drills s.running) ≡ true)
    × (length s.running + length s.leaving ≤ slots_for (pos 2))
    × (s.gate.inflight ≡ drills s.running)
single_flight_example = single_flight (pos 2) some_moves

gate-NotStuck_example :
    let s = moves some_moves (idle (new_gate (pos 2))) in
    (has_ticket 1 s.leaving ≡ true → suc (length (move (free 1) s).leaving) ≡ length s.leaving)
    × ((try_acquire "c" s.gate).0 ≡ (
        not (is_inflight "c" (drills s.running))
        && ltb (length s.running + length s.leaving) (slots_for (pos 2))))
gate-NotStuck_example = gate-NotStuck (pos 2) some_moves 1 "c"

-- Every minute, with no jitter.
abbrev every_minute : String → Time → Time
every_minute spec t = t + minute

abbrev no_draw : ℕ → ℕ → ℕ
no_draw n max = 0

abbrev two_jobs : List Job
two_jobs = record { drill = demo_drill; fire = 10 } ∷ record { drill = demo_drill; fire = 99 } ∷ []

due_lem_example :
    let r = due every_minute no_draw 50 two_jobs 0 in
    (drills_of r.ready ≡ due_drills 50 two_jobs)
    × (drills_of r.jobs ≡ drills_of two_jobs)
    × All (λ (j : Job). 50 < j.fire) r.jobs
    × All (λ (j : Job). r.soonest ≤ j.fire) r.jobs
    × (((r.jobs ≡ []) × (r.soonest ≡ zero_time))
        ⊎ ((fires_at r.soonest r.jobs ≡ true) × (0 < r.soonest)))
due_lem_example = due_lem every_minute no_draw 50 two_jobs 0 (omega arith, (omega arith, tt))

-- A schedule of the 30th of February, which is never.
abbrev never_job : Job
never_job = record {
  drill = record demo_drill { name = "mail"; schedule = "0 0 30 2 *" };
  fire = 0;
}

abbrev but_never : String → Time → Time
but_never spec t = if str_eq spec "0 0 30 2 *" then 0 else t + minute

due-wake_example :
    let r = due but_never no_draw 50 (two_jobs ++ never_job ∷ []) 0 in
    (drills_of r.ready ≡ due_drills 50 two_jobs ++ never_job.drill ∷ [])
    × (wake 50 r.soonest ≡ none)
due-wake_example = due-wake but_never no_draw 50 two_jobs never_job 0 (omega arith) refl refl

-- A run that passed at its headline level keeps its drill from being stale for a day.
run-stale_example :
    let db' = passing.1.db in
    ((result_of passing.0).status ≡ Result.pass
      → level_passed (headline_level demo_drill) (result_of passing.0).levels ≡ true
      → day + day ≤ day + day
      → stale (pos day) (headline_proof demo_drill db') (day + day) ≡ false)
    × ((result_of passing.0).status ≢ Result.pass
        → stale (pos day) (headline_proof demo_drill db') (day + day)
          ≡ stale (pos day) (headline_proof demo_drill empty_db) (day + day))
run-stale_example =
    run-stale no_faults demo_clock all_pass "host" demo_drill demo_source demo_options empty_db day
      (day + day) runs_lem.0 (omega arith) (omega arith)
