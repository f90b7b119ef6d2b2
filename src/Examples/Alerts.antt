-- ===== src/Examples/Alerts.antt =====
-- Alerts about the demo drill.
use redrill.Prelude.{
  ◌+◌, ◌≡◌, refl, String, Bool, some, true, false, not, ◌&&◌, List, [], ◌∷◌, str_eq, if◌then◌else◌,
  All, map, arith,
}
use redrill.Clock.{day}
use redrill.Config.{Drill}
use redrill.Examples.{demo_drill, manual_run}
use redrill.Store.Runs.{new_row}
use redrill.Store.Model.{Result, RunRow, Verdict, empty_db}
use redrill.Store.Action.{no_faults}
use redrill.Orchestrate.Model.{RunResult}
use redrill.Alerts.Model.{Event, Notification}
use redrill.Alerts.Watch.{Watch, is_marked, sweep_stale, sweep_drill, after_run, run_note}
use redrill.Alerts.Episodes.{is_overdue, stale_note, last_proof_of}
use redrill.Alerts.Sweeps.{alerts, begins, sweep_stale_lem, sweep_stale-sweep_stale}
use redrill.Alerts.Runs.{sweep_drill-after_run, after_run_lem}

abbrev all_events : Event → Bool
all_events e = true

abbrev two_drills : List Drill
two_drills = demo_drill ∷ record demo_drill { name = "mail" } ∷ []

-- A watch in which `photos` is marked and was never proven.
abbrev marked_watch : Watch
marked_watch = record { db = empty_db; stale = "photos" ∷ []; digest_mark = 0; sent = [] }

abbrev new_watch : Watch
new_watch = record marked_watch { stale = [] }

abbrev l1_result : RunResult
l1_result = record {
  run_id = 4;
  status = Result.pass;
  level_reached = "l1";
  levels = [];
  kept_sandbox = "";
}

sweep_stale_lem_example :
    let w' = sweep_stale no_faults all_events day two_drills marked_watch in
    (w'.sent ≡ alerts (begins all_events day ("photos" ∷ []) []) day [] two_drills [])
    × All (λ (d : Drill). is_marked d.name w'.stale ≡ is_overdue day d []) two_drills
sweep_stale_lem_example = sweep_stale_lem all_events day two_drills marked_watch refl

sweep_stale-sweep_stale_example :
    let w' = sweep_stale no_faults all_events day two_drills new_watch in
    (sweep_stale no_faults all_events (day + day) two_drills w').sent
    ≡ alerts
        (λ d. is_overdue (day + day) d [] && not (is_overdue day d []) && true)
        (day + day)
        []
        two_drills
        w'.sent
sweep_stale-sweep_stale_example =
    sweep_stale-sweep_stale all_events day (day + day) two_drills new_watch refl

sweep_drill-after_run_example :
    let told = run_note day demo_drill l1_result Event.recover (last_proof_of demo_drill []) ∷ [] in
    (sweep_drill no_faults all_events
      (day + 1)
      demo_drill
      (after_run no_faults all_events day demo_drill l1_result marked_watch)).sent
    ≡ (if is_overdue (day + 1) demo_drill []
        then stale_note (day + 1) demo_drill [] ∷ told
        else told)
sweep_drill-after_run_example =
    sweep_drill-after_run all_events day (day + 1) demo_drill l1_result marked_watch refl refl refl
      refl

-- A run of `photos` that passed after one that failed.
abbrev failed_row : RunRow
failed_row = record (new_row 3 (manual_run 5)) { drill = "photos"; result = some Verdict.fail }

abbrev passed_row : RunRow
passed_row = record failed_row { id = 4; result = some Verdict.pass }

abbrev recovering_watch : Watch
recovering_watch = record new_watch { db = record empty_db { runs = passed_row ∷ failed_row ∷ [] } }

after_run_lem_example :
    let w' = after_run no_faults (λ _. true) day demo_drill l1_result recovering_watch in
    let note_drill = λ (n : Notification). n.drill in
    (map note_drill w'.sent ≡ "photos" ∷ [])
    × ((name : String) → is_marked name w'.stale ≡ (if str_eq "photos" name then false else false))
after_run_lem_example =
    after_run_lem day demo_drill l1_result recovering_watch passed_row (failed_row ∷ []) refl refl
      (omega arith, tt)
