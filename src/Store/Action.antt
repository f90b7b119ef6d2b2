-- ===== src/Store/Action.antt =====
-- A method of the store: it changes the database and returns a value or an error. What was written
-- before an error stays written. Which statements fail is the environment's choice, a function of
-- the statement's kind and number; a statement that fails changes nothing.
pub mod Keeps
use redrill.Prelude.{
  ℕ, suc, String, Bool, true, false, Option, none, some, ◌≡◌, refl, if◌then◌else◌,
}
use redrill.Store.Model.{Db}

-- The kinds of statements, by what they do.
pub data Statement : Type 0 where
  insert_run read_id finish_run read_affected probe_run query_run mark_abandoned : Statement
  insert_step insert_evidence insert_artifact upsert_proof query_proof upsert_counter delete_runs :
      Statement

-- An error: `database` is one that the database reports, `required` a field that is missing,
-- `not_found` and `already_finished` are those of `FinishRun` and `GetRun`, `usage` that of an
-- unconfigured level, `busy` that of a drill in flight; `panic` is a panic, which runs the deferred calls
-- as an error that is returned does.
pub data Err : Type 0 where
  database : Statement → Err
  required : String → Err
  not_found already_finished usage busy : Err
  panic : String → Err

pub data Outcome {ℓ} (A : Type ℓ) : Type ℓ where
  ok : A → Outcome A
  err : Err → Outcome A

abbrev pub Action : Type 0 → Type 0 → Type 0
Action S A = S → Outcome A × S

module _ {S A : Type 0} where
  pub pure : A → Action S A
  pure a s = (ok a, s)

  pub raise : Err → Action S A
  raise why s = (err why, s)

  pub gets : (S → A) → Action S A
  gets read s = (ok (read s), s)

  pub or_raise : Option A → Err → Action S A
  or_raise none e s = (err e, s)
  or_raise (some a) e s = (ok a, s)

module _ {S : Type 0} where
  pub modify : (S → S) → Action S (Unit {0})
  modify f s = (ok tt, f s)

  pub raise_if : Bool → Err → Action S (Unit {0})
  raise_if c e s = (if c then err e else ok tt, s)

-- The environment: whether the statement of that kind and number fails.
abbrev pub Faults : Type 0
Faults = Statement → ℕ → Bool

-- An environment in which no statement fails.
abbrev pub no_faults : Faults
no_faults _ _ = false

-- One statement is sent: it fails, or what follows may read and write the tables.
pub attempt : Faults → Statement → Action Db (Unit {0})
attempt fails st db = (
  if fails st db.statements then err (database st) else ok tt,
  record db { statements = suc db.statements },
)

module _ {S A B : Type 0} where
  abbrev pub continue : Outcome A → (A → Action S B) → Action S B
  continue (ok a) f s = f a s
  continue (err e) f s = (err e, s)

  infixl 5 ◌>>=◌ ◌>>◌
  -- Opening this opens the other actions too.
  unfoldable pub ◌>>=◌ : Action S A → (A → Action S B) → Action S B
  unfolding pure raise gets or_raise modify raise_if attempt
  ◌>>=◌ m f s = let (r, s') = m s in continue r f s'

  abbrev pub ◌>>◌ : Action S A → Action S B → Action S B
  m >> k = m >>= λ _. k
