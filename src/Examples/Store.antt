-- ===== src/Examples/Store.antt =====
-- Calls of the store.
use redrill.Prelude.{◌≤◌, ◌≡◌, ◌≢◌, refl, true, false, List, [], ◌∷◌, arith, select}
use redrill.Prelude.Int.{pos, ◌≤ℤ◌}
use redrill.Examples.{manual_run, passed_run}
use redrill.Store.Model.{Db, Result, Run, empty_db}
use redrill.Store.Action.{no_faults, Faults, ok, ◌>>=◌, delete_runs}
use redrill.Store.Runs.{create_run, finish_run, get_run}
use redrill.Store.Retention.{prune, kept_by_age}
use redrill.Store.Verdict.{finish_run-finish_run}
use redrill.Store.RoundTrip.{get_run-create_run, get_run-finish_run}
use redrill.Store.Keeping.{age_bound, count_bound, mine, others, take_bound, prune_lem}
use redrill.Store.Calls.{Call, create, finish, proof, bytes, delete, apply_all, calls-IsSound}
use redrill.Store.Invariant.{IsSound}
use redrill.Store.Monotone.{calls-NotBelow, last_proof, total}

-- The database of one run that is open, and of the same run finished.
abbrev one_open : Db
one_open = (create_run no_faults (manual_run 7) empty_db).1

abbrev one_done : Db
one_done = (finish_run no_faults (passed_run 9) one_open).1

abbrev the_run : Run
the_run = record (manual_run 7) { id = 1 }

calls_lem :
    ((create_run no_faults (manual_run 7) empty_db).0 ≡ ok 1)
    × ((get_run no_faults 1 one_open).0 ≡ ok the_run)
    × ((finish_run no_faults (passed_run 9) one_open).0 ≡ ok tt)
    × ((prune no_faults "photos" (pos 0) (pos 1) 9 one_done).0 ≡ ok 0)
unfolding create_run get_run finish_run prune ◌>>=◌
calls_lem = (refl, refl, refl, refl)

finish_run-finish_run_example :
    ((finish_run no_faults (passed_run 11) one_done).1.runs ≡ one_done.runs)
    × ((finish_run no_faults (passed_run 11) one_done).0 ≢ ok tt)
finish_run-finish_run_example =
    finish_run-finish_run no_faults (passed_run 9) (passed_run 11) one_open (λ e. ground (arith, e))
      refl calls_lem.2

get_run-create_run_example :
    (get_run no_faults 1 one_open).0
    ≡ ok (record {
      id = 1;
      drill = (manual_run 7).drill;
      trigger = (manual_run 7).trigger;
      started_at = (manual_run 7).started_at;
      finished_at = 0;
      result = Result.unset;
      level_reached = "";
      bytes_restored = pos 0;
      files_restored = pos 0;
      duration_ms = pos 0;
      executor = (manual_run 7).executor;
      snapshot = "";
      snapshot_time = 0;
    })
get_run-create_run_example = get_run-create_run no_faults (manual_run 7) empty_db calls_lem.0

get_run-finish_run_example :
    (get_run no_faults 1 one_done).0
    ≡ ok (record the_run {
      finished_at = 9;
      result = Result.pass;
      level_reached = "l1";
      bytes_restored = pos 0;
      files_restored = pos 3;
      duration_ms = pos 0;
      snapshot = "";
      snapshot_time = 0;
    })
get_run-finish_run_example =
    get_run-finish_run no_faults (passed_run 9) the_run one_open calls_lem.1 refl calls_lem.2

prune_lem_example :
    let db' = (prune no_faults "photos" (pos 0) (pos 1) 9 one_done).1 in
    (mine "photos" db'.runs
      ≡ select
          (kept_by_age (age_bound (pos 0) 9))
          (take_bound (count_bound (pos 1)) (mine "photos" one_done.runs)))
    × (others "photos" db'.runs ≡ others "photos" one_done.runs)
    × (db'.drill_state ≡ one_done.drill_state)
    × (db'.drill_counters ≡ one_done.drill_counters)
prune_lem_example = prune_lem no_faults "photos" (pos 0) (pos 1) 9 one_done calls_lem.3

abbrev some_calls : List Call
some_calls =
    create (manual_run 7)
    ∷ proof "photos" "l1" 7
    ∷ finish (passed_run 9)
    ∷ bytes "photos" (pos 100)
    ∷ delete "photos" (pos 1) (pos 0) 20
    ∷ []

-- Only a DELETE fails.
abbrev no_delete : Faults
no_delete delete_runs _ = true
no_delete _ _ = false

calls-IsSound_example : IsSound (apply_all no_delete some_calls empty_db)
calls-IsSound_example = calls-IsSound no_delete some_calls

calls-NotBelow_example :
    (last_proof "photos" "l1" empty_db
      ≤ last_proof "photos" "l1" (apply_all no_delete some_calls empty_db))
    × (total "photos" empty_db ≤ℤ total "photos" (apply_all no_delete some_calls empty_db))
calls-NotBelow_example = calls-NotBelow no_delete some_calls "photos" "l1" empty_db
