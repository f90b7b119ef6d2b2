-- ===== src/Store/Invariant.antt =====
-- What holds of the database between two calls: ids fall from the newest run to the oldest and are
-- below the next one, and every step, piece of evidence and artifact belongs to a run.
use redrill.Prelude.{
  ℕ, ◌<◌, ◌≤◌, ◌≡◌, refl, Bool, true, Option, List, [], ◌∷◌, ◌++◌, arith, str_eq, if◌then◌else◌,
  select, All, Bool-cases, inl, inr, String,
}
use redrill.Clock.{Time}
use redrill.Store.Model.{Run, RunRow, RunStep, EvidenceRow, Artifact, Db, has_run}
use redrill.Store.Runs.{finish_rows, abandon_rows}
use redrill.Store.Retention.{prune_rows, one_less}

-- The ids fall along the list, all below a bound.
abbrev pub Below : ℕ → List RunRow → Type 0
Below n [] = Unit
Below n (row ∷ rows) = (row.id < n) × Below row.id rows

pub record IsSound (db : Db) : Type 0 where
  pub positive : 0 < db.next_id
  pub ids : Below db.next_id db.runs
  pub steps_owned : All (λ (r : RunStep). has_run db.runs r.run_id ≡ true) db.run_steps
  pub evidence_owned : All (λ (r : EvidenceRow). has_run db.runs r.run_id ≡ true) db.evidence
  pub artifacts_owned : All (λ (r : Artifact). has_run db.runs r.run_id ≡ true) db.artifacts

pub Below-le : (m n : ℕ) (rows : List RunRow) → m ≤ n → Below m rows → Below n rows
Below-le m n [] h b = tt
Below-le m n (row ∷ rows) h b = (omega arith, b.1)

pub Below-finish_rows :
    (n : ℕ) (r : Run) (rows : List RunRow) → Below n rows → Below n (finish_rows r rows)
Below-finish_rows n r [] b = tt
Below-finish_rows n r (row ∷ rows) b = ground (arith, Below-finish_rows row.id r rows b.1)

pub has_run-finish_rows :
    (r : Run) (rows : List RunRow) (id : ℕ) → has_run (finish_rows r rows) id ≡ has_run rows id
has_run-finish_rows r [] id = refl
has_run-finish_rows r (row ∷ rows) id = ground (arith, has_run-finish_rows r rows id)

pub Below-abandon_rows :
    (n : ℕ) (t : Time) (rows : List RunRow) → Below n rows → Below n (abandon_rows t rows)
Below-abandon_rows n t [] b = tt
Below-abandon_rows n t (row ∷ rows) b = ground (arith, Below-abandon_rows row.id t rows b.1)

pub has_run-abandon_rows :
    (t : Time) (rows : List RunRow) (id : ℕ) → has_run (abandon_rows t rows) id ≡ has_run rows id
has_run-abandon_rows t [] id = refl
has_run-abandon_rows t (row ∷ rows) id = ground (arith, has_run-abandon_rows t rows id)

pub Below-prune_rows :
    (n : ℕ) (drill : String) (cutoff : Option Time) (keep : Option ℕ) (rows : List RunRow)
    → Below n rows
    → Below n (prune_rows drill cutoff keep rows)
Below-prune_rows n drill cutoff keep [] b = tt
Below-prune_rows n drill cutoff keep (row ∷ rows) b =
    let left = if str_eq row.drill drill then one_less keep else keep in
    let rest = prune_rows drill cutoff left rows in
    let below : Below row.id rest = Below-prune_rows row.id drill cutoff left rows b.1 in
    ground (arith, Below-le row.id n rest (omega arith) below)

-- A weaker test keeps what it passed.
pub All-weaken {ℓ} :
    {A : Type ℓ} (p q : A → Bool) (xs : List A)
    → ((a : A) → p a ≡ true → q a ≡ true)
    → All (λ a. p a ≡ true) xs
    → All (λ a. q a ≡ true) xs
All-weaken p q [] h a = tt
All-weaken p q (x ∷ xs) h a = (h x a.0, All-weaken p q xs h a.1)

pub All-select {ℓ} : {A : Type ℓ} (p : A → Bool) (xs : List A) → All (λ a. p a ≡ true) (select p xs)
All-select p [] = tt
All-select p (x ∷ xs) = elim (Bool-cases (p x)) [
  | inl e ↦ rw e (e, All-select p xs)
  | inr e ↦ rw e (All-select p xs)
]

pub All-snoc {ℓ} :
    {A : Type ℓ} (p : A → Bool) (xs : List A) (a : A)
    → All (λ a. p a ≡ true) xs
    → p a ≡ true
    → All (λ a. p a ≡ true) (xs ++ a ∷ [])
All-snoc p [] a h e = (e, tt)
All-snoc p (x ∷ xs) a h e = (h.0, All-snoc p xs a h.1 e)

-- The runs may change where the ids of those that there were stay.
pub with_runs-IsSound :
    (db : Db) (rows : List RunRow) (n : ℕ)
    → IsSound db
    → 0 < n
    → Below n rows
    → ((id : ℕ) → has_run db.runs id ≡ true → has_run rows id ≡ true)
    → IsSound (record db { runs = rows; next_id = n })
with_runs-IsSound db rows n s h b keep = record {
  positive = h;
  ids = b;
  steps_owned = All-weaken _ _ db.run_steps (λ r. keep r.run_id) s.steps_owned;
  evidence_owned = All-weaken _ _ db.evidence (λ r. keep r.run_id) s.evidence_owned;
  artifacts_owned = All-weaken _ _ db.artifacts (λ r. keep r.run_id) s.artifacts_owned;
}
