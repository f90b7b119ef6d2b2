-- ===== src/Scheduler/Due.antt =====
-- internal/scheduler/scheduler.go: jitter, advance, due and the dispatch of one round of Run.
-- `Schedule.Next` is the cron library's, and `rng() * float64(max)` the random generator's; both
-- are parameters. The generator is read by the number of the draw.
use redrill.Prelude.{
  ℕ, suc, ◌+◌, String, not, ◌||◌, Option, none, some, List, [], ◌∷◌, ◌++◌, if◌then◌else◌,
}
use redrill.Prelude.Int.{ℤ, pos, pos_part, ltb_ℤ}
use redrill.Clock.{Time, Duration, zero_time, after, before, is_zero, sub}
use redrill.Config.{Drill}
use redrill.Scheduler.Gate.{Gate, try_acquire}

-- job; the schedule is its text, which `next` reads.
pub record Job : Type 0 where
  pub drill : Drill
  pub fire : Time

-- What `due` has built: `draws` counts the draws from the generator.
pub record Round : Type 0 where
  pub ready : List Job
  pub jobs : List Job
  pub soonest : Time
  pub draws : ℕ

module _ (next : String → Time → Time) (draw : ℕ → ℕ → ℕ) where
  -- jitter: the delay, and the draws made after it
  abbrev pub jitter : ℤ → ℕ → ℕ × ℕ
  jitter max draws =
      if not (ltb_ℤ (pos 0) max) then (0, draws) else (draw draws (pos_part max), suc draws)

  -- advance
  unfoldable pub advance : Time → Job → ℕ → Job × ℕ
  advance now j draws =
      let (delay, draws') = jitter j.drill.jitter draws in
      (record j { fire = next j.drill.schedule now + delay }, draws')

  -- The body of due's loop, on one job.
  unfoldable pub visit : Time → Job → Round → Round
  unfolding advance
  visit now j r =
      let is_due = not (after j.fire now) in
      let moved = advance now j r.draws in
      let j' = if is_due then moved.0 else j in
      record {
        ready = if is_due then r.ready ++ j' ∷ [] else r.ready;
        jobs = r.jobs ++ j' ∷ [];
        soonest = if is_zero r.soonest || before j'.fire r.soonest then j'.fire else r.soonest;
        draws = if is_due then moved.1 else r.draws;
      }

  unfoldable pub visit_all : Time → List Job → Round → Round
  visit_all now [] r = r
  visit_all now (j ∷ js) r = visit_all now js (visit now j r)

  -- due
  unfoldable pub due : Time → List Job → ℕ → Round
  due now jobs draws =
      visit_all now jobs (record { ready = []; jobs = []; soonest = zero_time; draws = draws })

-- The time that Run waits for after a round, which is none if there is no next fire.
unfoldable pub wake : Time → Time → Option Duration
wake now soonest =
    if is_zero soonest
    then none
    else (let wait = sub soonest now in some (if ltb_ℤ wait (pos 0) then pos 0 else wait))

-- The dispatch of the ready jobs, in order: the drills started, and the gate.
unfoldable pub dispatch_all : List Job → Gate → List String × Gate
dispatch_all [] g = ([], g)
dispatch_all (j ∷ js) g =
    let (got, g') = try_acquire j.drill.name g in
    let (started, g'') = dispatch_all js g' in
    (if got then j.drill.name ∷ started else started, g'')
