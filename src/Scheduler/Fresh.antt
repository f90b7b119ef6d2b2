-- ===== src/Scheduler/Fresh.antt =====
-- How long a run keeps its drill from being stale: orchestrate's proofs read by Stale.
use redrill.Prelude.{
  ℕ, ◌+◌, ◌≤◌, ◌<◌, ◌≡◌, ◌≢◌, refl, ap, ◌∙◌, String, true, false, Option, none, some, arith, eq_iff,
  max, if◌then◌else◌,
}
use redrill.Prelude.Int.{pos, max_int64}
use redrill.Clock.{Time, sub-le_iff_le}
use redrill.Config.{Drill, Source}
use redrill.Exec.Step.{StepSpec, StepReply}
use redrill.Store.Model.{Db, Result}
use redrill.Store.Action.{Faults, ok}
use redrill.Store.Proofs.{proof_of}
use redrill.Store.Monotone.{proven, later_of}
use redrill.Orchestrate.Model.{RunOptions, RunResult}
use redrill.Orchestrate.Run.{run, begin, is_pass_result}
use redrill.Orchestrate.Proofs.{level_passed, proof_after, run-proof_of}
use redrill.Scheduler.Staleness.{stale, headline_level}

-- The last proof that Stale is asked about: that of the drill's headline level.
abbrev pub headline_proof : Drill → Db → Time
headline_proof drill db = proven (proof_of drill.name (headline_level drill) db.drill_state)

later_of-stale :
    (m : ℕ) (o : Option Time) (t now : Time)
    → 0 < t
    → m < max_int64
    → now ≤ t + m
    → stale (pos m) (proven (later_of o t)) now ≡ false
unfolding stale
later_of-stale m none t now p k h = ground (arith, sub-le_iff_le now t m k)
later_of-stale m (some u) t now p k h = ground (arith, sub-le_iff_le now (max u t) m k)

not_passed {ℓ} :
    {A : Type ℓ} (x y : A) (r : Result) → r ≢ Result.pass → (if is_pass_result r then x else y) ≡ y
not_passed x y Result.unset h = refl
not_passed x y Result.pass h = absurd (h refl)
not_passed x y Result.fail h = refl
not_passed x y Result.error h = refl

-- After a run that passed and whose headline level passed, its drill is not stale until more than
-- the bound has passed since the run started; after a run that returned another verdict, it is stale
-- exactly when it was before. The bound is below the greatest duration, and the run starts after
-- the zero time.
pub run-stale :
    (f : Faults) (clock : ℕ → Time) (ex : StepSpec → StepReply) (host : String) (drill : Drill)
    (src : Source) (opts : RunOptions) (db : Db) (m : ℕ) (now : Time) {res : RunResult}
    → (run f clock ex host drill src opts (begin db)).0 ≡ ok res
    → 0 < clock 0
    → m < max_int64
    → let db' = (run f clock ex host drill src opts (begin db)).1.db in
      (res.status ≡ Result.pass
        → level_passed (headline_level drill) res.levels ≡ true
        → now ≤ clock 0 + m
        → stale (pos m) (headline_proof drill db') now ≡ false)
      × (res.status ≢ Result.pass
          → stale (pos m) (headline_proof drill db') now
            ≡ stale (pos m) (headline_proof drill db) now)
run-stale f clock ex host drill src opts db m now {res} e p k =
    let l = headline_level drill in
    let told = run-proof_of f clock ex host drill src opts db drill.name l e in
    (
      (λ passed at_level h.
          let noted : proof_after drill.name drill.name l (clock 0) res.levels db.drill_state
              ≡ later_of (proof_of drill.name l db.drill_state) (clock 0) =
            ground (arith, eq_iff drill.name drill.name) in
          rw (told, passed, noted)
            (later_of-stale m (proof_of drill.name l db.drill_state) (clock 0) now p k h)),
      λ other.
          let kept : proof_of drill.name l
                (run f clock ex host drill src opts (begin db)).1.db.drill_state
              ≡ proof_of drill.name l db.drill_state =
            told ∙ not_passed _ _ res.status other in
          ap (λ (o : Option Time). stale (pos m) (proven o) now) kept,
    )
