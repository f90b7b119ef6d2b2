-- ===== src/Scheduler/Never.antt =====
-- A round of the scheduler where the schedule of a job has no next time: the cron library then
-- answers the zero time, and advance takes it for the fire of the job.
use redrill.Prelude.{ℕ, ◌≤◌, ◌≡◌, refl, String, false, List, [], ◌∷◌, ◌++◌, arith, ap, ◌∙◌, none}
use redrill.Prelude.Int.{pos, ltb_ℤ}
use redrill.Clock.{Time, zero_time}
use redrill.Scheduler.Due.{Job, Round, advance, visit, visit_all, due, wake}
use redrill.Scheduler.Fires.{drills_of, due_drills, visit_all-ready, due_drills-snoc}

module _ (next : String → Time → Time) (draw : ℕ → ℕ → ℕ) where
  visit_all-snoc :
      (now : Time) (js : List Job) (j : Job) (r : Round)
      → visit_all next draw now (js ++ j ∷ []) r
        ≡ visit next draw now j (visit_all next draw now js r)
  unfolding visit_all
  visit_all-snoc now [] j r = refl
  visit_all-snoc now (x ∷ js) j r = visit_all-snoc now js j (visit next draw now x r)

  visit-soonest :
      (now : Time) (j : Job) (r : Round)
      → j.fire ≤ now
      → next j.drill.schedule now ≡ zero_time
      → ltb_ℤ (pos 0) j.drill.jitter ≡ false
      → (visit next draw now j r).soonest ≡ zero_time
  unfolding visit advance
  visit-soonest now j r h e k = ground arith

  -- A job with no jitter that is due and whose schedule has no next time is made ready with the other
  -- jobs that are due; but if it is the last of the jobs, Run then has no time to wait for, so that it
  -- stops making rounds, whatever the fires of the other jobs are.
  pub due-wake :
      (now : Time) (js : List Job) (j : Job) (draws : ℕ)
      → j.fire ≤ now
      → next j.drill.schedule now ≡ zero_time
      → ltb_ℤ (pos 0) j.drill.jitter ≡ false
      → let r = due next draw now (js ++ j ∷ []) draws in
        (drills_of r.ready ≡ due_drills now js ++ j.drill ∷ []) × (wake now r.soonest ≡ none)
  unfolding due wake
  due-wake now js j draws h e k =
      let fresh : Round = record { ready = []; jobs = []; soonest = zero_time; draws = draws } in
      let last = visit_all-snoc now js j fresh in
      let before_it = visit_all next draw now js fresh in
      let zero_next : (visit_all next draw now (js ++ j ∷ []) fresh).soonest ≡ zero_time =
        ap (λ (r : Round). r.soonest) last ∙ visit-soonest now j before_it h e k in
      (
        (visit_all-ready next draw now (js ++ j ∷ []) fresh).0 ∙ due_drills-snoc now js j h,
        rw (zero_next) refl,
      )
