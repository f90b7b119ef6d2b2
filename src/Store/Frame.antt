-- ===== src/Store/Frame.antt =====
-- The calls that write no run: what holds of every row of `runs` still holds after them. Prune only
-- takes rows away.
use redrill.Prelude.{
  ℕ, ◌≡◌, Bool, false, Option, List, [], ◌∷◌, arith, String, All, str_eq, if◌then◌else◌,
}
use redrill.Prelude.Int.{ℤ}
use redrill.Clock.{Time, Duration}
use redrill.Store.Model.{RunRow, RunStep, EvidenceRow, Db}
use redrill.Store.Action.{Statement, Faults, Action, attempt}
use redrill.Store.Action.Keeps.{Keeps, keeps_rules, Keeps-attempt, Keeps-modify}
use redrill.Store.Runs.{last_baseline_run}
use redrill.Store.Trail.{insert_owned, add_step, add_evidence}
use redrill.Store.Proofs.{record_proof, add_bytes_restored}
use redrill.Store.Retention.{one_less, prune_rows, delete_pruned, prune}

-- No run is such a row.
abbrev pub NoRow : (RunRow → Bool) → List RunRow → Type 0
NoRow p = All (λ row. p row ≡ false)

NoRow-prune_rows :
    (p : RunRow → Bool) (drill : String) (cutoff : Option Time) (keep : Option ℕ)
    (rows : List RunRow)
    → NoRow p rows
    → NoRow p (prune_rows drill cutoff keep rows)
NoRow-prune_rows p drill cutoff keep [] h = h
NoRow-prune_rows p drill cutoff keep (row ∷ rows) h =
    let left = if str_eq row.drill drill then one_less keep else keep in
    ground (arith, NoRow-prune_rows p drill cutoff left rows h.1)

module _ (p : RunRow → Bool) (f : Faults) where
  abbrev pub KeepsRows : {A : Type 0} → Action Db A → Type 0
  KeepsRows = Keeps (λ (db : Db). NoRow p db.runs)

  attempt-rows : (st : Statement) → KeepsRows (attempt f st)
  attempt-rows st = Keeps-attempt f st (λ db h. h)

  insert_owned-rows :
      (run : ℕ) (st : Statement) (insert : Db → Db)
      → ((db : Db) → NoRow p db.runs → NoRow p (insert db).runs)
      → KeepsRows (insert_owned run st insert)
  unfolding insert_owned
  insert_owned-rows run st insert k = record { at = λ db h. ground (arith, k db h) }

  pub add_step-rows : (st : RunStep) → KeepsRows (add_step f st)
  unfolding add_step
  add_step-rows st =
      search (keeps_rules, attempt-rows, insert_owned-rows, λ (db : Db) (h : NoRow p db.runs). h)

  pub add_evidence-rows : (e : EvidenceRow) → KeepsRows (add_evidence f e)
  unfolding add_evidence
  add_evidence-rows e = search (keeps_rules, attempt-rows, insert_owned-rows)

  pub record_proof-rows :
      (drill level : String) (at : Time) → KeepsRows (record_proof f drill level at)
  unfolding record_proof
  record_proof-rows drill level at = search (keeps_rules, attempt-rows, Keeps-modify)

  pub add_bytes_restored-rows : (drill : String) (n : ℤ) → KeepsRows (add_bytes_restored f drill n)
  unfolding add_bytes_restored
  add_bytes_restored-rows drill n = search (keeps_rules, attempt-rows, Keeps-modify)

  pub last_baseline_run-rows : (drill : String) → KeepsRows (last_baseline_run f drill)
  unfolding last_baseline_run
  last_baseline_run-rows drill = search (keeps_rules, attempt-rows)

  delete-rows :
      (drill : String) (cutoff : Option Time) (keep : Option ℕ) (db : Db)
      → NoRow p db.runs
      → NoRow p (delete_pruned drill cutoff keep db).runs
  delete-rows drill cutoff keep db h = NoRow-prune_rows p drill cutoff keep db.runs h

  pub prune-rows :
      (drill : String) (age : Duration) (count : ℤ) (now : Time)
      → KeepsRows (prune f drill age count now)
  unfolding prune
  prune-rows drill age count now =
      search (keeps_rules, attempt-rows, Keeps-modify, delete-rows) depth 12
