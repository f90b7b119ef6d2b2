-- ===== src/Store/Calls/Kept.antt =====
-- Every call of the store keeps the database sound.
use redrill.Prelude.{
  ℕ, suc, ◌≡◌, true, Option, [], ◌∷◌, ◌++◌, arith, Bool-cases, inl, inr, String, ◌∙◌,
}
use redrill.Prelude.Int.{ℤ}
use redrill.Clock.{Time, Duration}
use redrill.Store.Model.{Run, RunStep, EvidenceRow, Artifact, Db, has_run}
use redrill.Store.Action.{Statement, Faults, attempt}
use redrill.Store.Action.Keeps.{Keeps, keeps_rules, Keeps-attempt, Keeps-modify}
use redrill.Store.Runs.{
  new_row, finish_rows, abandon_rows, create_run, finish_missing, finish_run, mark_abandoned_runs,
}
use redrill.Store.Trail.{
  next_idx, step_keys, evidence_keys, artifact_keys, insert_owned, add_step, add_evidence,
  add_artifact,
}
use redrill.Store.Invariant.{
  IsSound, Below-finish_rows, has_run-finish_rows, Below-abandon_rows, has_run-abandon_rows,
  Below-prune_rows, All-select, All-snoc, with_runs-IsSound,
}
use redrill.Store.Proofs.{upsert_state, upsert_total, record_proof, add_bytes_restored}
use redrill.Store.Retention.{prune, delete_pruned}

sent-IsSound : (db : Db) → IsSound db → IsSound (record db { statements = suc db.statements })
sent-IsSound db s = record {
  positive = s.positive;
  ids = s.ids;
  steps_owned = s.steps_owned;
  evidence_owned = s.evidence_owned;
  artifacts_owned = s.artifacts_owned;
}

attempt-IsSound : (f : Faults) (st : Statement) → Keeps IsSound (attempt f st)
attempt-IsSound f st = Keeps-attempt f st sent-IsSound

create-IsSound :
    (r : Run) (db : Db)
    → IsSound db
    → IsSound (record db { runs = new_row db.next_id r ∷ db.runs; next_id = suc db.next_id })
create-IsSound r db s =
    with_runs-IsSound db (new_row db.next_id r ∷ db.runs) (suc db.next_id) s (omega arith)
      (omega arith, s.ids) (λ id h. ground arith)

pub create_run-IsSound : (f : Faults) (r : Run) → Keeps IsSound (create_run f r)
unfolding create_run
create_run-IsSound f r =
    search (keeps_rules, attempt-IsSound, Keeps-modify, create-IsSound r) depth 12

finish-IsSound :
    (r : Run) (db : Db) → IsSound db → IsSound (record db { runs = finish_rows r db.runs })
finish-IsSound r db s =
    with_runs-IsSound db (finish_rows r db.runs) db.next_id s s.positive
      (Below-finish_rows db.next_id r db.runs s.ids) (λ id h. has_run-finish_rows r db.runs id ∙ h)

finish_missing-IsSound : (f : Faults) (r : Run) → Keeps IsSound (finish_missing f r)
finish_missing-IsSound f r = record { at = λ db s. sent-IsSound db s }

pub finish_run-IsSound : (f : Faults) (r : Run) → Keeps IsSound (finish_run f r)
unfolding finish_run
finish_run-IsSound f r =
    search (keeps_rules, attempt-IsSound, Keeps-modify, finish-IsSound r, finish_missing-IsSound)
      depth 12

abandon-IsSound :
    (t : Time) (db : Db) → IsSound db → IsSound (record db { runs = abandon_rows t db.runs })
abandon-IsSound t db s =
    with_runs-IsSound db (abandon_rows t db.runs) db.next_id s s.positive
      (Below-abandon_rows db.next_id t db.runs s.ids)
      (λ id h. has_run-abandon_rows t db.runs id ∙ h)

pub mark_abandoned_runs-IsSound : (f : Faults) (t : Time) → Keeps IsSound (mark_abandoned_runs f t)
unfolding mark_abandoned_runs
mark_abandoned_runs-IsSound f t =
    search (keeps_rules, attempt-IsSound, Keeps-modify, abandon-IsSound t) depth 12

insert_owned-IsSound :
    (run : ℕ) (st : Statement) (insert : Db → Db)
    → ((db : Db) → has_run db.runs run ≡ true → IsSound db → IsSound (insert db))
    → Keeps IsSound (insert_owned run st insert)
unfolding insert_owned
insert_owned-IsSound run st insert k = record {
  at = λ db s. elim (Bool-cases (has_run db.runs run)) [ inl e ↦ rw e (k db e s) | inr e ↦ rw e s ];
}

step-IsSound :
    (st : RunStep) (db : Db)
    → has_run db.runs st.run_id ≡ true
    → IsSound db
    → IsSound (record db {
      run_steps =
          db.run_steps ++ record st { idx = next_idx st.run_id (step_keys db.run_steps) } ∷ [];
    })
step-IsSound st db known s = record {
  positive = s.positive;
  ids = s.ids;
  steps_owned =
      All-snoc (λ (r : RunStep). has_run db.runs r.run_id) db.run_steps _ s.steps_owned known;
  evidence_owned = s.evidence_owned;
  artifacts_owned = s.artifacts_owned;
}

pub add_step-IsSound : (f : Faults) (st : RunStep) → Keeps IsSound (add_step f st)
unfolding add_step
add_step-IsSound f st =
    search (keeps_rules, attempt-IsSound, insert_owned-IsSound, step-IsSound st) depth 12

evidence-IsSound :
    (e : EvidenceRow) (db : Db)
    → has_run db.runs e.run_id ≡ true
    → IsSound db
    → IsSound (record db {
      evidence =
          db.evidence ++ record e { idx = next_idx e.run_id (evidence_keys db.evidence) } ∷ [];
    })
evidence-IsSound e db known s = record {
  positive = s.positive;
  ids = s.ids;
  steps_owned = s.steps_owned;
  evidence_owned =
      All-snoc (λ (r : EvidenceRow). has_run db.runs r.run_id) db.evidence _ s.evidence_owned known;
  artifacts_owned = s.artifacts_owned;
}

pub add_evidence-IsSound : (f : Faults) (e : EvidenceRow) → Keeps IsSound (add_evidence f e)
unfolding add_evidence
add_evidence-IsSound f e =
    search (keeps_rules, attempt-IsSound, insert_owned-IsSound, evidence-IsSound e) depth 12

prune-IsSound_rows :
    (drill : String) (cutoff : Option Time) (keep : Option ℕ) (db : Db)
    → IsSound db
    → IsSound (delete_pruned drill cutoff keep db)
prune-IsSound_rows drill cutoff keep db s = record {
  positive = s.positive;
  ids = Below-prune_rows db.next_id drill cutoff keep db.runs s.ids;
  steps_owned = All-select _ db.run_steps;
  evidence_owned = All-select _ db.evidence;
  artifacts_owned = All-select _ db.artifacts;
}

pub prune-IsSound :
    (f : Faults) (drill : String) (age : Duration) (count : ℤ) (now : Time)
    → Keeps IsSound (prune f drill age count now)
unfolding prune
prune-IsSound f drill age count now =
    search (keeps_rules, attempt-IsSound, Keeps-modify, prune-IsSound_rows) depth 14

artifact-IsSound :
    (a : Artifact) (db : Db)
    → has_run db.runs a.run_id ≡ true
    → IsSound db
    → IsSound (record db {
      artifacts =
          db.artifacts ++ record a { idx = next_idx a.run_id (artifact_keys db.artifacts) } ∷ [];
    })
artifact-IsSound a db known s = record {
  positive = s.positive;
  ids = s.ids;
  steps_owned = s.steps_owned;
  evidence_owned = s.evidence_owned;
  artifacts_owned =
      All-snoc (λ (r : Artifact). has_run db.runs r.run_id) db.artifacts _ s.artifacts_owned known;
}

pub add_artifact-IsSound : (f : Faults) (a : Artifact) → Keeps IsSound (add_artifact f a)
unfolding add_artifact
add_artifact-IsSound f a =
    search (keeps_rules, attempt-IsSound, insert_owned-IsSound, artifact-IsSound a) depth 12

state-IsSound :
    (drill level : String) (at : Time) (db : Db)
    → IsSound db
    → IsSound (record db { drill_state = upsert_state drill level at db.drill_state })
state-IsSound drill level at db s = record {
  positive = s.positive;
  ids = s.ids;
  steps_owned = s.steps_owned;
  evidence_owned = s.evidence_owned;
  artifacts_owned = s.artifacts_owned;
}

pub record_proof-IsSound :
    (f : Faults) (drill level : String) (at : Time) → Keeps IsSound (record_proof f drill level at)
unfolding record_proof
record_proof-IsSound f drill level at =
    search (keeps_rules, attempt-IsSound, Keeps-modify, state-IsSound drill level at) depth 12

counter-IsSound :
    (drill : String) (n : ℤ) (db : Db)
    → IsSound db
    → IsSound (record db { drill_counters = upsert_total drill n db.drill_counters })
counter-IsSound drill n db s = record {
  positive = s.positive;
  ids = s.ids;
  steps_owned = s.steps_owned;
  evidence_owned = s.evidence_owned;
  artifacts_owned = s.artifacts_owned;
}

pub add_bytes_restored-IsSound :
    (f : Faults) (drill : String) (n : ℤ) → Keeps IsSound (add_bytes_restored f drill n)
unfolding add_bytes_restored
add_bytes_restored-IsSound f drill n =
    search (keeps_rules, attempt-IsSound, Keeps-modify, counter-IsSound drill n) depth 12
