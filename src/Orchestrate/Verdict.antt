-- ===== src/Orchestrate/Verdict.antt =====
-- The verdict of a run, against a description by the statuses of its levels.
use redrill.Prelude.{◌≡◌, Bool, true, false, not, ◌&&◌, ◌||◌, List, [], ◌∷◌, arith, if◌then◌else◌}
use redrill.Store.Model.{Result}
use redrill.Orchestrate.Model.{
  LevelStatus, LevelOutcome, Tally, no_tally, count_status, tally, aggregate_run,
}

-- Some level has the status.
abbrev pub has_status : (LevelStatus → Bool) → List LevelOutcome → Bool
has_status p [] = false
has_status p (lv ∷ lvs) = p lv.status || has_status p lvs

abbrev pub is_pass : LevelStatus → Bool
is_pass LevelStatus.pass = true
is_pass _ = false

abbrev pub is_fail : LevelStatus → Bool
is_fail LevelStatus.fail = true
is_fail _ = false

abbrev pub is_error : LevelStatus → Bool
is_error LevelStatus.error = true
is_error _ = false

tally_lem :
    (t : Tally) (lvs : List LevelOutcome)
    → ((tally t lvs).ran
        ≡ (t.ran || has_status is_pass lvs || has_status is_fail lvs || has_status is_error lvs))
      × ((tally t lvs).failed ≡ (t.failed || has_status is_fail lvs))
      × ((tally t lvs).errored ≡ (t.errored || has_status is_error lvs))
unfolding tally
tally_lem t [] = (ground arith, ground arith, ground arith)
tally_lem t (lv ∷ lvs) =
    let ih = tally_lem (count_status lv.status t) lvs in (ground arith, ground arith, ground arith)

-- A run fails exactly when a level failed; it passes exactly when some level passed and none failed
-- or errored; otherwise (a level errored and none failed, or none was executed) it is an error. It
-- is never left without a verdict.
pub aggregate_run_lem :
    (lvs : List LevelOutcome)
    → aggregate_run lvs ≡ (
        if has_status is_fail lvs
        then Result.fail
        else if has_status is_pass lvs && not (has_status is_error lvs)
        then Result.pass
        else Result.error)
unfolding aggregate_run
aggregate_run_lem lvs = ground (arith, tally_lem no_tally lvs)
