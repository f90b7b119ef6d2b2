-- ===== src/Alerts/Watch.antt =====
-- cmd/redrill/notify.go: the alerter. The map of drills is a list, in whatever order it is walked;
-- the notifier is the test of which events are enabled, and `sent` what Dispatch handed to the
-- sender, the latest first.
use redrill.Prelude.{
  ℕ, String, Bool, true, false, not, ◌&&◌, ◌||◌, Option, none, some, List, [], ◌∷◌, str_eq, ltb,
  if◌then◌else◌, select, first,
}
use redrill.Prelude.Int.{pos}
use redrill.Clock.{Time, zero_time, after}
use redrill.Config.{Drill}
use redrill.Store.Model.{Db, Result, Run}
use redrill.Store.Action.{Faults, Outcome, ok, err}
use redrill.Store.Runs.{list_runs}
use redrill.Store.Proofs.{get_proof}
use redrill.Orchestrate.Model.{RunResult}
use redrill.Scheduler.Staleness.{stale, headline_level}
use redrill.Alerts.Model.{Event, Notification, classify_run, diagnose}

-- alerter, with the database that it reads
pub record Watch : Type 0 where
  pub db : Db
  pub stale : List String
  pub digest_mark : Time
  pub sent : List Notification

-- a.stale[name]
abbrev pub is_marked : String → List String → Bool
is_marked name [] = false
is_marked name (n ∷ ns) = str_eq n name || is_marked name ns

-- delete(a.stale, name)
abbrev pub unmark : String → List String → List String
unmark name = select (λ n. not (str_eq n name))

abbrev pub proof_or_zero : Outcome (Option Time) → Time
proof_or_zero (ok (some at)) = at
proof_or_zero _ = zero_time

-- The newest finished run before an id.
abbrev pub is_finished_before : ℕ → Run → Bool
is_finished_before id r = ltb r.id id && elim r.result [ Result.unset ↦ false | _ ↦ true ]

abbrev pub result_before : ℕ → Outcome (List Run) → Result
result_before id (err e) = Result.unset
result_before id (ok runs) = elim (first (is_finished_before id) runs) [
  | none ↦ Result.unset
  | some r ↦ r.result
]

-- ev == EventFail || ev == EventError
abbrev pub is_problem : Event → Bool
is_problem Event.fail = true
is_problem Event.error = true
is_problem _ = false

-- The marks after a run: a passing run's drill is no longer marked.
abbrev pub marks_after : Result → String → List String → List String
marks_after Result.pass name marks = unmark name marks
marks_after _ name marks = marks

-- Dispatch
unfoldable pub dispatch : (Event → Bool) → Notification → Watch → Watch
dispatch enabled note w = if enabled note.event then record w { sent = note ∷ w.sent } else w

-- a.proof
unfoldable pub proof : Faults → String → String → Db → Time × Db
proof fails drill level db =
    if str_eq level ""
    then (zero_time, db)
    else (let (r, db') = get_proof fails drill level db in (proof_or_zero r, db'))

-- prevResult
unfoldable pub prev_result : Faults → String → ℕ → Db → Result × Db
prev_result fails drill id db =
    let (r, db') = list_runs fails drill (pos 2) db in (result_before id r, db')

-- The note that afterRun sends of an event.
abbrev pub run_note : Time → Drill → RunResult → Event → Time → Notification
run_note now d res ev proven =
    let (level, detail) = diagnose res.levels in
    let told = is_problem ev && not (str_eq detail "") in
    record {
      event = ev;
      drill = d.name;
      level = if told then level else res.level_reached;
      detail = if told then detail else "";
      last_proven = proven;
      max_proof_age = pos 0;
      now = now;
    }

module _ (fails : Faults) (enabled : Event → Bool) where
  -- The body of sweepStale's loop.
  unfoldable pub sweep_drill : Time → Drill → Watch → Watch
  unfolding dispatch
  sweep_drill now d w =
      let level = headline_level d in
      let (proven, db) = proof fails d.name level w.db in
      let is_stale = stale d.max_proof_age proven now in
      let already = is_marked d.name w.stale in
      let marked =
        if is_stale && not already
        then d.name ∷ w.stale
        else if not is_stale && already
        then unmark d.name w.stale
        else w.stale in
      let w' : Watch = record w { db = db; stale = marked } in
      if is_stale && not already
      then dispatch enabled
          (record {
            event = Event.stale;
            drill = d.name;
            level = level;
            detail = "";
            last_proven = proven;
            max_proof_age = d.max_proof_age;
            now = now;
          })
          w'
      else w'

  -- sweepStale
  unfoldable pub sweep_stale : Time → List Drill → Watch → Watch
  sweep_stale now [] w = w
  sweep_stale now (d ∷ ds) w = sweep_stale now ds (sweep_drill now d w)

  -- afterRun
  unfoldable pub after_run : Time → Drill → RunResult → Watch → Watch
  unfolding dispatch
  after_run now d res w =
      let was_stale = is_marked d.name w.stale in
      let (prev, db) = prev_result fails d.name res.run_id w.db in
      elim (classify_run prev res.status was_stale) [
        | none ↦ record w { db = db }
        | some ev ↦
            let (proven, db') = proof fails d.name (headline_level d) db in
            dispatch enabled (run_note now d res ev proven)
              (record w { db = db'; stale = marks_after res.status d.name w.stale })
      ]

-- The test of maybeDigest, and the mark it leaves; `next` is the digest schedule's.
unfoldable pub digest_due : (Time → Time) → Time → Watch → Bool × Watch
digest_due next now w =
    if not (after (next w.digest_mark) now)
    then (true, record w { digest_mark = now })
    else (false, w)
