-- ===== src/Store/Model.antt =====
-- internal/store/models.go, and the tables of internal/store/migrations/*.sql.
-- The table `runs` is the list of its rows, newest first (`ORDER BY id DESC`); any other table is
-- in the order of insertion.
use redrill.Prelude.{ℕ, String, Bool, false, ◌||◌, Option, List, [], ◌∷◌, ◌==◌}
use redrill.Prelude.Int.{ℤ}
use redrill.Clock.{Time}

-- Trigger; `unset` is the empty string
pub data Trigger : Type 0 where
  unset schedule manual api : Trigger

-- Result; `unset` is the empty string
pub data Result : Type 0 where
  unset pass fail error : Result

-- What the column `result` may hold beside NULL: CHECK (result IN ('pass', 'fail', 'error'))
pub data Verdict : Type 0 where
  pass fail error : Verdict

-- Run
pub record Run : Type 0 where
  pub id : ℕ
  pub drill : String
  pub trigger : Trigger
  pub started_at : Time
  pub finished_at : Time
  pub result : Result
  pub level_reached : String
  pub bytes_restored : ℤ
  pub files_restored : ℤ
  pub duration_ms : ℤ
  pub executor : String
  pub snapshot : String
  pub snapshot_time : Time

-- A row of `runs`: `none` is SQL's NULL in the three columns that may hold it.
pub record RunRow : Type 0 where
  pub id : ℕ
  pub drill : String
  pub trigger : Trigger
  pub started_at : Time
  pub finished_at : Option Time
  pub result : Option Verdict
  pub level_reached : String
  pub bytes_restored : ℤ
  pub files_restored : ℤ
  pub duration_ms : ℤ
  pub executor : String
  pub snapshot : String
  pub snapshot_time : Option Time

-- RunStep
pub record RunStep : Type 0 where
  pub run_id : ℕ
  pub idx : ℕ
  pub kind : String
  pub started_at : Time
  pub finished_at : Time
  pub status : String
  pub summary : String

-- Evidence
pub record EvidenceRow : Type 0 where
  pub run_id : ℕ
  pub idx : ℕ
  pub check_kind : String
  pub target : String
  pub expected : String
  pub actual : String
  pub status : String
  pub weak : Bool

-- Artifact
pub record Artifact : Type 0 where
  pub run_id : ℕ
  pub idx : ℕ
  pub name : String
  pub path : String
  pub bytes : ℤ

-- DrillState
pub record DrillState : Type 0 where
  pub drill : String
  pub level : String
  pub last_proven_at : Time

-- A row of `drill_counters`
pub record Counter : Type 0 where
  pub drill : String
  pub bytes_restored_total : ℤ

-- The database. `next_id` is the AUTOINCREMENT sequence: an id is never used again. `statements`
-- counts the statements sent so far, and names the one that the environment may make fail.
pub record Db : Type 0 where
  pub runs : List RunRow
  pub run_steps : List RunStep
  pub evidence : List EvidenceRow
  pub artifacts : List Artifact
  pub drill_state : List DrillState
  pub drill_counters : List Counter
  pub next_id : ℕ
  pub statements : ℕ

abbrev pub empty_db : Db
empty_db = record {
  runs = [];
  run_steps = [];
  evidence = [];
  artifacts = [];
  drill_state = [];
  drill_counters = [];
  next_id = 1;
  statements = 0;
}

-- Some run has the id: what a foreign key asks for.
abbrev pub has_run : List RunRow → ℕ → Bool
has_run [] id = false
has_run (row ∷ rows) id = row.id == id || has_run rows id
