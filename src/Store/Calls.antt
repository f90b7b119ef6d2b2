-- ===== src/Store/Calls.antt =====
-- The calls of the store as data: the database is sound after any sequence of them.
mod Kept
use redrill.Prelude.{
  ℕ, suc, ◌≡◌, true, Option, List, [], ◌∷◌, ◌++◌, arith, Bool-cases, inl, inr, String, ◌∙◌,
}
use redrill.Prelude.Int.{ℤ}
use redrill.Clock.{Time, Duration}
use redrill.Store.Model.{Run, RunStep, EvidenceRow, Artifact, Db, has_run, empty_db}
use redrill.Store.Action.{Statement, Faults, attempt}
use redrill.Store.Action.Keeps.{Keeps, keeps_rules, Keeps-attempt, Keeps-modify}
use redrill.Store.Runs.{
  new_row, finish_rows, abandon_rows, create_run, finish_missing, finish_run, mark_abandoned_runs,
}
use redrill.Store.Trail.{
  next_idx, step_keys, evidence_keys, artifact_keys, insert_owned, add_step, add_evidence,
  add_artifact,
}
use redrill.Store.Invariant.{
  IsSound, Below-finish_rows, has_run-finish_rows, Below-abandon_rows, has_run-abandon_rows,
  Below-prune_rows, All-select, All-snoc, with_runs-IsSound,
}
use redrill.Store.Proofs.{upsert_state, upsert_total, record_proof, add_bytes_restored}
use redrill.Store.Retention.{prune, delete_pruned}
use redrill.Store.Calls.Kept.{
  create_run-IsSound, finish_run-IsSound, mark_abandoned_runs-IsSound, add_step-IsSound,
  add_evidence-IsSound, add_artifact-IsSound, record_proof-IsSound, add_bytes_restored-IsSound,
  prune-IsSound,
}

-- A call that changes the database.
pub data Call : Type 0 where
  create : Run → Call
  finish : Run → Call
  abandon : Time → Call
  step : RunStep → Call
  evidence : EvidenceRow → Call
  artifact : Artifact → Call
  proof : String → String → Time → Call
  bytes : String → ℤ → Call
  delete : String → Duration → ℤ → Time → Call

module _ (fails : Faults) where
  -- The database after a call, whether it returned or failed.
  unfoldable pub apply : Call → Db → Db
  apply (create r) db = (create_run fails r db).1
  apply (finish r) db = (finish_run fails r db).1
  apply (abandon t) db = (mark_abandoned_runs fails t db).1
  apply (step st) db = (add_step fails st db).1
  apply (evidence e) db = (add_evidence fails e db).1
  apply (artifact a) db = (add_artifact fails a db).1
  apply (proof drill level at) db = (record_proof fails drill level at db).1
  apply (bytes drill n) db = (add_bytes_restored fails drill n db).1
  apply (delete drill age count now) db = (prune fails drill age count now db).1

  unfoldable pub apply_all : List Call → Db → Db
  apply_all [] db = db
  apply_all (c ∷ cs) db = apply_all cs (apply c db)

  pub apply-IsSound : (c : Call) (db : Db) → IsSound db → IsSound (apply c db)
  unfolding apply
  apply-IsSound (create r) db s = (create_run-IsSound fails r).at db s
  apply-IsSound (finish r) db s = (finish_run-IsSound fails r).at db s
  apply-IsSound (abandon t) db s = (mark_abandoned_runs-IsSound fails t).at db s
  apply-IsSound (step st) db s = (add_step-IsSound fails st).at db s
  apply-IsSound (evidence e) db s = (add_evidence-IsSound fails e).at db s
  apply-IsSound (artifact a) db s = (add_artifact-IsSound fails a).at db s
  apply-IsSound (proof drill level at) db s = (record_proof-IsSound fails drill level at).at db s
  apply-IsSound (bytes drill n) db s = (add_bytes_restored-IsSound fails drill n).at db s
  apply-IsSound (delete drill age count now) db s =
      (prune-IsSound fails drill age count now).at db s

  apply_all-IsSound : (cs : List Call) (db : Db) → IsSound db → IsSound (apply_all cs db)
  unfolding apply_all
  apply_all-IsSound [] db s = s
  apply_all-IsSound (c ∷ cs) db s = apply_all-IsSound cs (apply c db) (apply-IsSound c db s)

  -- Whatever calls are made of a new database, in whatever order, and whatever statements fail: the
  -- ids of the runs fall strictly from the newest to the oldest and are below the next id, and each
  -- step, piece of evidence and artifact belongs to a run that is there.
  pub calls-IsSound : (cs : List Call) → IsSound (apply_all cs empty_db)
  calls-IsSound cs = apply_all-IsSound cs empty_db (omega arith)
