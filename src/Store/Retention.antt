-- ===== src/Store/Retention.antt =====
-- internal/store/retention.go: Prune deletes a drill's old runs, with their steps, evidence and
-- artifacts (ON DELETE CASCADE); proofs and counters are never pruned.
use redrill.Prelude.{
  ℕ, zero, suc, ◌-◌, String, Bool, true, false, not, ◌&&◌, ◌||◌, List, [], ◌∷◌, str_eq,
  if◌then◌else◌, select, length, Option, none, some,
}
use redrill.Prelude.Int.{ℤ, pos, negsuc, pos_part, ltb_ℤ}
use redrill.Clock.{Time, Duration, is_zero, before, add}
use redrill.Store.Model.{RunRow, RunStep, EvidenceRow, Artifact, Db, has_run}
use redrill.Store.Action.{
  delete_runs, read_affected, required, Action, Faults, pure, modify, gets, raise_if, attempt,
  ◌>>=◌, ◌>>◌,
}

-- -d
abbrev pub negate : Duration → Duration
negate (pos zero) = pos zero
negate (pos (suc n)) = negsuc n
negate (negsuc n) = pos (suc n)

-- The rows that a drill's DELETE spares, newest first: `cutoff` is the bound on `started_at`, if
-- one is set, and `keep` the bound on the number of runs, if one is set. The rows of other drills
-- stay.
abbrev pub kept_by_age : Option Time → RunRow → Bool
kept_by_age none row = true
kept_by_age (some cutoff) row = not (before row.started_at cutoff)

abbrev pub kept_by_count : Option ℕ → Bool
kept_by_count (some zero) = false
kept_by_count _ = true

abbrev pub one_less : Option ℕ → Option ℕ
one_less none = none
one_less (some zero) = some zero
one_less (some (suc n)) = some n

abbrev pub prune_rows : String → Option Time → Option ℕ → List RunRow → List RunRow
prune_rows drill cutoff keep [] = []
prune_rows drill cutoff keep (row ∷ rows) =
    let mine = str_eq row.drill drill in
    let rest = prune_rows drill cutoff (if mine then one_less keep else keep) rows in
    if mine
    then (if kept_by_age cutoff row && kept_by_count keep then row ∷ rest else rest)
    else row ∷ rest

-- The DELETE with its cascade.
abbrev pub delete_pruned : String → Option Time → Option ℕ → Db → Db
delete_pruned drill cutoff keep db =
    let runs = prune_rows drill cutoff keep db.runs in
    record db {
      runs = runs;
      run_steps = select (λ (r : RunStep). has_run runs r.run_id) db.run_steps;
      evidence = select (λ (r : EvidenceRow). has_run runs r.run_id) db.evidence;
      artifacts = select (λ (r : Artifact). has_run runs r.run_id) db.artifacts;
    }

module _ (fails : Faults) where
  -- Prune: how many runs it removed
  unfoldable pub prune : String → Duration → ℤ → Time → Action Db ℕ
  prune drill max_age max_count now =
      let age_on = ltb_ℤ (pos 0) max_age in
      let count_on = ltb_ℤ (pos 0) max_count in
      let cutoff : Option Time = if age_on then some (add now (negate max_age)) else none in
      let keep : Option ℕ = if count_on then some (pos_part max_count) else none in
      do
        raise_if (age_on && is_zero now) (required "now")
        if age_on || count_on
            then (do
              attempt fails delete_runs
              n ← gets (λ (db : Db). length db.runs)
              modify (delete_pruned drill cutoff keep)
              attempt fails read_affected
              gets (λ db. n - length db.runs))
            else pure 0
