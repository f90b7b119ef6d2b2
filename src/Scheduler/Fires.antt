-- ===== src/Scheduler/Fires.antt =====
-- What a round of the scheduler promises of the fires.
use redrill.Prelude.{
  ℕ, ◌≤◌, ◌<◌, ◌≡◌, refl, String, Bool, true, false, not, ◌||◌, List, [], ◌∷◌, ◌++◌, ◌==◌,
  if◌then◌else◌, map, select, arith, All, ◌⊎◌, inl, inr, Bool-cases, ap, sym, ◌∙◌,
}
use mathlib.Core.List.{append-nil, append_assoc}
use redrill.Clock.{Time, zero_time, after, before, is_zero}
use redrill.Config.{Drill}
use redrill.Scheduler.Due.{Job, Round, advance, visit, visit_all, due}

abbrev pub drills_of : List Job → List Drill
drills_of = map (λ j. j.drill)

-- The drills of the jobs that are due, in order.
abbrev pub due_drills : Time → List Job → List Drill
due_drills now jobs = drills_of (select (λ j. not (after j.fire now)) jobs)

drills_of-snoc : (js : List Job) (j : Job) → drills_of (js ++ j ∷ []) ≡ drills_of js ++ j.drill ∷ []
drills_of-snoc [] j = refl
drills_of-snoc (x ∷ js) j = ap {B = List Drill} (λ r. x.drill ∷ r) (drills_of-snoc js j)

due_drills-cons :
    (now : Time) (j : Job) (js : List Job)
    → due_drills now (j ∷ js) ≡ due_drills now (j ∷ []) ++ due_drills now js
due_drills-cons now j js = ground arith

pub due_drills-snoc :
    (now : Time) (js : List Job) (j : Job)
    → j.fire ≤ now
    → due_drills now (js ++ j ∷ []) ≡ due_drills now js ++ j.drill ∷ []
due_drills-snoc now [] j h = ground arith
due_drills-snoc now (x ∷ js) j h = ground (arith, due_drills-snoc now js j h)

-- Some job fires at the time.
abbrev pub fires_at : Time → List Job → Bool
fires_at t [] = false
fires_at t (j ∷ js) = j.fire == t || fires_at t js

All-snoc_lem {ℓ κ} :
    {A : Type ℓ} (P : A → Type κ) (xs : List A) (x : A) → All P xs → P x → All P (xs ++ x ∷ [])
All-snoc_lem P [] x all p = (p, tt)
All-snoc_lem P (y ∷ xs) x all p = (all.0, All-snoc_lem P xs x all.1 p)

All-le :
    (a b : Time) (js : List Job)
    → b ≤ a
    → All (λ (j : Job). a ≤ j.fire) js
    → All (λ (j : Job). b ≤ j.fire) js
All-le a b [] h all = tt
All-le a b (j ∷ js) h all = (omega (arith, all.0), All-le a b js h all.1)

fires_at-snoc :
    (t : Time) (js : List Job) (j : Job)
    → fires_at t (js ++ j ∷ []) ≡ (fires_at t js || j.fire == t)
fires_at-snoc t [] j = ground arith
fires_at-snoc t (x ∷ js) j = ground (arith, fires_at-snoc t js j)

-- What holds of the jobs visited so far.
record Visited (now : Time) (r : Round) : Type 0 where
  pub later_than : All (λ (j : Job). now < j.fire) r.jobs
  pub least : All (λ (j : Job). r.soonest ≤ j.fire) r.jobs
  pub among :
      ((r.jobs ≡ []) × (r.soonest ≡ zero_time))
      ⊎ ((fires_at r.soonest r.jobs ≡ true) × (0 < r.soonest))

-- The fire that a visit leaves, and the soonest with it.
abbrev sooner : Time → Time → Time
sooner fire soonest = if is_zero soonest || before fire soonest then fire else soonest

module _ (next : String → Time → Time) (draw : ℕ → ℕ → ℕ) where
  visited : Time → Job → ℕ → Job
  visited now j draws = if not (after j.fire now) then (advance next draw now j draws).0 else j

  visited_later :
      (now : Time) (j : Job) (draws : ℕ)
      → now < next j.drill.schedule now
      → now < (visited now j draws).fire
  unfolding visited advance
  visited_later now j draws later = ground (arith, later)

  visit-Visited :
      (now : Time) (j : Job) (r : Round)
      → now < next j.drill.schedule now
      → Visited now r
      → Visited now (visit next draw now j r)
  unfolding visit visited
  visit-Visited now j r later v =
      let j' = visited now j r.draws in
      let h = visited_later now j r.draws later in
      let s = sooner j'.fire r.soonest in
      let low : s ≤ j'.fire = ground arith in
      record {
        later_than = All-snoc_lem (λ (i : Job). now < i.fire) r.jobs j' v.later_than h;
        least =
            All-snoc_lem (λ (i : Job). s ≤ i.fire) r.jobs j'
              (elim v.among [
                | inl (none_yet, z) ↦ rw none_yet tt
                | inr (there, p) ↦ All-le r.soonest s r.jobs (ground arith) v.least
              ])
              low;
        among = inr (
          elim v.among [
            | inl (none_yet, z) ↦ ground (arith, fires_at-snoc s r.jobs j')
            | inr (there, p) ↦ ground (arith, fires_at-snoc s r.jobs j')
          ],
          ground arith,
        );
      }

  visit_all-Visited :
      (now : Time) (js : List Job) (r : Round)
      → All (λ (j : Job). now < next j.drill.schedule now) js
      → Visited now r
      → Visited now (visit_all next draw now js r)
  unfolding visit_all
  visit_all-Visited now [] r later v = v
  visit_all-Visited now (j ∷ js) r later v =
      visit_all-Visited now js (visit next draw now j r) later.1 (visit-Visited now j r later.0 v)

  visited-drill : (now : Time) (j : Job) (draws : ℕ) → (visited now j draws).drill ≡ j.drill
  unfolding visited advance
  visited-drill now j draws = elim (Bool-cases (not (after j.fire now))) [
    | inl e ↦ rw (e, visited) refl
    | inr e ↦ rw (e, visited) refl
  ]

  -- One visit moves only the fire of its job, and makes ready exactly the due ones.
  visit-ready :
      (now : Time) (j : Job) (r : Round)
      → (drills_of (visit next draw now j r).ready ≡ drills_of r.ready ++ due_drills now (j ∷ []))
        × (drills_of (visit next draw now j r).jobs ≡ drills_of r.jobs ++ j.drill ∷ [])
  unfolding visit visited advance
  visit-ready now j r = (
    elim (Bool-cases (not (after j.fire now))) [
      | inl e ↦ ground (arith, drills_of-snoc r.ready (advance next draw now j r.draws).0)
      | inr e ↦ ground (arith, append-nil (drills_of r.ready))
    ],
    drills_of-snoc r.jobs (visited now j r.draws)
        ∙ ap {B = List Drill} (λ (d : Drill). drills_of r.jobs ++ d ∷ [])
            (visited-drill now j r.draws),
  )

  pub visit_all-ready :
      (now : Time) (js : List Job) (r : Round)
      → (drills_of (visit_all next draw now js r).ready ≡ drills_of r.ready ++ due_drills now js)
        × (drills_of (visit_all next draw now js r).jobs ≡ drills_of r.jobs ++ drills_of js)
  unfolding visit_all
  visit_all-ready now [] r =
      (sym (append-nil (drills_of r.ready)), sym (append-nil (drills_of r.jobs)))
  visit_all-ready now (j ∷ js) r =
      let ih = visit_all-ready now js (visit next draw now j r) in
      let one = visit-ready now j r in
      (
        cc (
          ih.0,
          one.0,
          append_assoc (drills_of r.ready) (due_drills now (j ∷ [])) (due_drills now js),
          due_drills-cons now j js,
        ),
        cc (ih.1, one.1, append_assoc (drills_of r.jobs) (j.drill ∷ []) (drills_of js)),
      )

  -- A round makes ready exactly the jobs whose fire is not after now, in order, and keeps every job;
  -- afterwards every job fires after now, so that a missed fire is not replayed, and the time to
  -- wait for is the least of the fires (zero if there is no job). The schedule of each job is assumed to
  -- have a next time, which is strictly after now.
  pub due_lem :
      (now : Time) (jobs : List Job) (draws : ℕ)
      → All (λ (j : Job). now < next j.drill.schedule now) jobs
      → let r = due next draw now jobs draws in
        (drills_of r.ready ≡ due_drills now jobs)
        × (drills_of r.jobs ≡ drills_of jobs)
        × All (λ (j : Job). now < j.fire) r.jobs
        × All (λ (j : Job). r.soonest ≤ j.fire) r.jobs
        × (((r.jobs ≡ []) × (r.soonest ≡ zero_time))
            ⊎ ((fires_at r.soonest r.jobs ≡ true) × (0 < r.soonest)))
  unfolding due
  due_lem now jobs draws later =
      let fresh : Round = record { ready = []; jobs = []; soonest = zero_time; draws = draws } in
      let v =
        visit_all-Visited now jobs fresh later
          (record { later_than = tt; least = tt; among = inl (refl, refl) }) in
      let kept = visit_all-ready now jobs fresh in (kept.0, kept.1, v.later_than, v.least, v.among)
