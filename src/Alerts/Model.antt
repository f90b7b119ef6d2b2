-- ===== src/Alerts/Model.antt =====
-- internal/notify/notify.go: events, notifications and ClassifyRun; cmd/redrill/notify.go: diagnose
-- and formatEvidence.
use Prim.Native.String.{◌++◌ as str_append}
use redrill.Prelude.{
  String, Bool, true, false, not, ◌&&◌, ◌||◌, Option, none, some, List, [], ◌∷◌, str_eq,
  if◌then◌else◌, first,
}
use redrill.Clock.{Time, Duration}
use redrill.Checks.{Status, Evidence}
use redrill.Store.Model.{Result}
use redrill.Orchestrate.Model.{LevelOutcome}
use redrill.Orchestrate.Run.{is_bad}

-- Event
pub data Event : Type 0 where
  fail error recover stale : Event

-- Notification
pub record Notification : Type 0 where
  pub event : Event
  pub drill : String
  pub level : String
  pub detail : String
  pub last_proven : Time
  pub max_proof_age : Duration
  pub now : Time

-- prev == "fail" || prev == "error"
abbrev pub is_bad_result : Result → Bool
is_bad_result Result.fail = true
is_bad_result Result.error = true
is_bad_result _ = false

-- ClassifyRun; `none` is to stay silent
unfoldable pub classify_run : Result → Result → Bool → Option Event
classify_run prev Result.fail was_stale = some Event.fail
classify_run prev Result.error was_stale = some Event.error
classify_run prev Result.pass was_stale =
    if was_stale || is_bad_result prev then some Event.recover else none
classify_run prev Result.unset was_stale = none

-- ev.Status == Fail || ev.Status == Error
abbrev pub is_bad_evidence : Evidence → Bool
is_bad_evidence ev = elim ev.status [ Status.pass ↦ false | _ ↦ true ]

-- formatEvidence
unfoldable pub format_evidence : Evidence → String
format_evidence ev =
    let got = str_append ev.expected (str_append ", got " ev.actual) in
    if not (str_eq ev.target "") && not (str_eq ev.expected "")
    then str_append ev.kind (str_append " " (str_append ev.target (str_append ": expected " got)))
    else if not (str_eq ev.expected "")
    then str_append ev.kind (str_append ": expected " got)
    else str_append ev.kind (str_append ": " ev.actual)

-- What diagnose says of one bad level.
abbrev pub cause : LevelOutcome → String × String
cause lv = elim (first is_bad_evidence lv.evidence) [
  | some ev ↦ (lv.level, format_evidence ev)
  | none ↦ (lv.level, lv.summary)
]

-- diagnose: the level and the one-line cause
unfoldable pub diagnose : List LevelOutcome → String × String
diagnose [] = ("", "")
diagnose (lv ∷ lvs) = let rest = diagnose lvs in if is_bad lv.status then cause lv else rest
