-- ===== src/Orchestrate/Rows.antt =====
-- What a run does to the rows of `runs` beside its CreateRun and FinishRun: nothing but pruning.
use redrill.Prelude.{ℕ, Bool, List, [], ◌∷◌, String}
use redrill.Prelude.Int.{ℤ}
use redrill.Clock.{Time}
use redrill.Config.{Drill}
use redrill.Exec.Step.{StepSpec, StepReply}
use redrill.Store.Model.{Db, RunRow}
use redrill.Store.Action.{Faults}
use redrill.Store.Action.Keeps.{Keeps, keeps_rules, Keeps-bind, Keeps-pure, Keeps-if}
use redrill.Store.Proofs.{add_bytes_restored}
use redrill.Store.Frame.{
  NoRow, add_step-rows, add_evidence-rows, record_proof-rows, add_bytes_restored-rows,
  last_baseline_run-rows, prune-rows,
}
use redrill.Orchestrate.Model.{LevelOutcome}
use redrill.Orchestrate.Level.{World, on_db}
use redrill.Orchestrate.Run.{record_proofs, prune_retention, run_tail, ignore_error}
use redrill.Orchestrate.Rules.{Keeps-on_db, Keeps-ignore_error}
use redrill.Orchestrate.DbRules.{LevelRules}

module _ (p : RunRow → Bool) (f : Faults) (clock : ℕ → Time) (ex : StepSpec → StepReply) where
  -- No row of the world's database is such a row.
  abbrev pub Rows : World → Type 0
  Rows w = NoRow p w.db.runs

  pub rows_rules : LevelRules f (λ (db : Db). NoRow p db.runs)
  rows_rules = record {
    step_rule = add_step-rows p f;
    evidence_rule = add_evidence-rows p f;
    baseline_rule = last_baseline_run-rows p f;
  }

  record_proofs-Rows :
      (drill : String) (t : Time) (lvs : List LevelOutcome)
      → Keeps Rows (record_proofs f clock ex drill t lvs)
  unfolding record_proofs
  record_proofs-Rows drill t [] = Keeps-pure tt
  record_proofs-Rows drill t (lv ∷ lvs) =
      Keeps-bind _ _
        (Keeps-if _ _ _
          (Keeps-on_db {Q = λ (db : Db). NoRow p db.runs} _
            (record_proof-rows p f drill lv.level t))
          (Keeps-pure tt))
        (λ _. record_proofs-Rows drill t lvs)

  prune_retention-Rows :
      (drill : Drill) (t : Time) → Keeps Rows (prune_retention f clock ex drill t)
  unfolding prune_retention
  prune_retention-Rows drill t = Keeps-if _ _ _ (Keeps-pure tt) (
      Keeps-on_db {Q = λ (db : Db). NoRow p db.runs} _ (
        Keeps-ignore_error _
          (prune-rows p f drill.name drill.retention.max_age drill.retention.max_count t)))

  pub run_tail-Rows :
      (id : ℕ) (drill : Drill) (t end : Time) → Keeps Rows (run_tail f clock ex id drill t end)
  unfolding run_tail
  run_tail-Rows id drill t end =
      search (keeps_rules, counted, record_proofs-Rows, prune_retention-Rows) depth 10
    where
      counted : (n : ℤ) → Keeps Rows (on_db (ignore_error (add_bytes_restored f drill.name n)))
      counted n =
          Keeps-on_db {Q = λ (db : Db). NoRow p db.runs} _
            (Keeps-ignore_error _ (add_bytes_restored-rows p f _ _))
