-- ===== src/Store/Trail.antt =====
-- internal/store/runs.go: the steps, evidence and artifacts of a run, numbered as they are added.
use redrill.Prelude.{ℕ, suc, List, [], ◌∷◌, ◌++◌, ◌==◌, if◌then◌else◌, max, select}
use redrill.Clock.{is_zero}
use redrill.Store.Model.{RunStep, EvidenceRow, Artifact, Db, has_run}
use redrill.Store.Action.{
  Statement, database, insert_step, insert_evidence, insert_artifact, query_run, required, Action,
  Faults, ok, err, gets, raise_if, attempt, ◌>>◌,
}

-- COALESCE(MAX(idx) + 1, 0) over the run and index of each row
abbrev pub next_idx : ℕ → List (ℕ × ℕ) → ℕ
next_idx run [] = 0
next_idx run ((r, i) ∷ rows) =
    let rest = next_idx run rows in if r == run then max (suc i) rest else rest

abbrev pub step_keys : List RunStep → List (ℕ × ℕ)
step_keys [] = []
step_keys (r ∷ rows) = (r.run_id, r.idx) ∷ step_keys rows

abbrev pub evidence_keys : List EvidenceRow → List (ℕ × ℕ)
evidence_keys [] = []
evidence_keys (r ∷ rows) = (r.run_id, r.idx) ∷ evidence_keys rows

abbrev pub artifact_keys : List Artifact → List (ℕ × ℕ)
artifact_keys [] = []
artifact_keys (r ∷ rows) = (r.run_id, r.idx) ∷ artifact_keys rows

-- REFERENCES runs (id): an insert that names no run is refused by the database.
unfoldable pub insert_owned : ℕ → Statement → (Db → Db) → Action Db (Unit {0})
insert_owned run st insert db =
    if has_run db.runs run then (ok tt, insert db) else (err (database st), db)

module _ (fails : Faults) where
  -- AddStep
  unfoldable pub add_step : RunStep → Action Db (Unit {0})
  add_step st = do
    raise_if (is_zero st.started_at) (required "started_at")
    attempt fails insert_step
    insert_owned st.run_id insert_step (λ db.
        let row = record st { idx = next_idx st.run_id (step_keys db.run_steps) } in
        record db { run_steps = db.run_steps ++ row ∷ [] })

  -- AddEvidence
  unfoldable pub add_evidence : EvidenceRow → Action Db (Unit {0})
  add_evidence e = do
    attempt fails insert_evidence
    insert_owned e.run_id insert_evidence (λ db.
        let row = record e { idx = next_idx e.run_id (evidence_keys db.evidence) } in
        record db { evidence = db.evidence ++ row ∷ [] })

  -- AddArtifact
  unfoldable pub add_artifact : Artifact → Action Db (Unit {0})
  add_artifact a = do
    attempt fails insert_artifact
    insert_owned a.run_id insert_artifact (λ db.
        let row = record a { idx = next_idx a.run_id (artifact_keys db.artifacts) } in
        record db { artifacts = db.artifacts ++ row ∷ [] })

  -- ListSteps, ListEvidence and ListArtifacts: `ORDER BY idx` is the order of insertion
  unfoldable pub list_steps : ℕ → Action Db (List RunStep)
  list_steps run = do
    attempt fails query_run
    gets (λ db. select (λ row. row.run_id == run) db.run_steps)

  unfoldable pub list_evidence : ℕ → Action Db (List EvidenceRow)
  list_evidence run = do
    attempt fails query_run
    gets (λ db. select (λ row. row.run_id == run) db.evidence)

  unfoldable pub list_artifacts : ℕ → Action Db (List Artifact)
  list_artifacts run = do
    attempt fails query_run
    gets (λ db. select (λ row. row.run_id == run) db.artifacts)
