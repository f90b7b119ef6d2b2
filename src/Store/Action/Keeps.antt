-- ===== src/Store/Action/Keeps.antt =====
-- Invariants of actions: one rule for each way to build an action, kept in a set that `search`
-- walks a `do` block with.
use redrill.Prelude.{suc, ◌≡◌, refl, Bool, true, false, Option, none, some, if◌then◌else◌}
use redrill.Store.Model.{Db}
use redrill.Store.Action.{
  Statement, Err, Outcome, ok, err, Action, Faults, pure, raise, gets, or_raise, modify, raise_if,
  attempt, continue, ◌>>=◌,
}

-- The action leaves a state of which `I` holds, if it is given one, also when it fails.
pub record Keeps {S A : Type 0} (I : S → Type 0) (act : Action S A) : Type 0 where
  pub at : (before : S) → I before → I (act before).1

-- Actions that leave the state alone.
module _ {S A : Type 0} {I : S → Type 0} where
  pub Keeps-or_raise : (found : Option A) (why : Err) → Keeps I (or_raise found why)
  unfolding or_raise
  Keeps-or_raise (some a) why = record { at = λ _ held. held }
  Keeps-or_raise none why = record { at = λ _ held. held }

  pub Keeps-pure : (value : A) → Keeps I (pure value)
  unfolding pure
  Keeps-pure value = record { at = λ _ held. held }

  pub Keeps-gets : (read : S → A) → Keeps I (gets read)
  unfolding gets
  Keeps-gets read = record { at = λ _ held. held }

  pub Keeps-raise : (why : Err) → Keeps I (raise {A = A} why)
  unfolding raise
  Keeps-raise why = record { at = λ _ held. held }

  pub Keeps-if :
      (test : Bool) (yea nay : Action S A)
      → Keeps I yea
      → Keeps I nay
      → Keeps I (if test then yea else nay)
  Keeps-if false yea nay ky kn = kn
  Keeps-if true yea nay ky kn = ky

module _ {S : Type 0} {I : S → Type 0} where
  pub Keeps-raise_if : (test : Bool) (why : Err) → Keeps I (raise_if test why)
  unfolding raise_if
  Keeps-raise_if test why = record { at = λ _ held. held }

  pub Keeps-modify :
      (change : S → S) → ((before : S) → I before → I (change before)) → Keeps I (modify change)
  unfolding modify
  Keeps-modify change kept = record { at = kept }

-- What follows a result, if all that may follow keeps `I`.
continue_state :
    {S A B : Type 0} (I : S → Type 0) (next : A → Action S B)
    → ((value : A) → Keeps I (next value))
    → (result : Outcome A) (after : S) → I after
    → I (continue result next after).1
continue_state I next kept (err why) after held = held
continue_state I next kept (ok value) after held = (kept value).at after held

module _ {S A B : Type 0} {I : S → Type 0} where
  pub Keeps-bind :
      (act : Action S A) (next : A → Action S B)
      → Keeps I act
      → ((value : A) → Keeps I (next value))
      → Keeps I (act >>= next)
  unfolding ◌>>=◌
  Keeps-bind act next first_kept rest_kept = record {
    at = λ before held.
        continue_state I next rest_kept (act before).0 (act before).1 (first_kept.at before held);
  }

continue_inv :
    {S A B : Type 0} (P : S → Type 0) (r : Outcome A) (f : A → Action S B) (s : S)
    → P s
    → ((a : A) → r ≡ ok a → P (f a s).1)
    → P (continue r f s).1
continue_inv P (ok a) f s h k = k a refl
continue_inv P (err e) f s h k = h

-- The state after `m >>= f`, from what `m` returned and left.
pub bind_inv :
    {S A B : Type 0} (P : S → Type 0) (m : Action S A) (f : A → Action S B) (s : S)
    → P (m s).1
    → ((a : A) → (m s).0 ≡ ok a → P (f a (m s).1).1)
    → P ((m >>= f) s).1
unfolding ◌>>=◌
bind_inv P m f s h k = continue_inv P (m s).0 f (m s).1 h k

-- What `m >>= f` went through when it returned.
pub bind_ok :
    {S A B : Type 0} (m : Action S A) (f : A → Action S B) (s : S) {b : B}
    → ((m >>= f) s).0 ≡ ok b
    → (a : A) × ((m s).0 ≡ ok a) × ((m >>= f) s ≡ f a (m s).1)
unfolding ◌>>=◌
bind_ok {A} {B} m f s {b} e = inverted (m s).0 refl e
  where
    inverted :
        (r : Outcome A)
        → (m s).0 ≡ r
        → (continue (m s).0 f (m s).1).0 ≡ ok b
        → (a : A) × ((m s).0 ≡ ok a) × (continue (m s).0 f (m s).1 ≡ f a (m s).1)
    inverted (ok a) p q = (a, p, rw p refl)
    inverted (err x) p q = cc (rw p at q)

-- A property that does not read the number of statements.
pub Keeps-attempt :
    {P : Db → Type 0} (fails : Faults) (st : Statement)
    → ((db : Db) → P db → P (record db { statements = suc db.statements }))
    → Keeps P (attempt fails st)
unfolding attempt
Keeps-attempt fails st k = record { at = λ db h. k db h }

pub ruleset keeps_rules =
    (Keeps-pure, Keeps-raise, Keeps-gets, Keeps-or_raise, Keeps-if, Keeps-raise_if, Keeps-bind)
