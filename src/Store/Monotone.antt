-- ===== src/Store/Monotone.antt =====
-- Proofs and restored bytes never fall, whatever is called: retention prunes neither.
use redrill.Prelude.{
  ◌≤◌, ◌≡◌, refl, Bool, true, false, ◌&&◌, Option, none, some, List, [], ◌∷◌, arith, String, str_eq,
  eq_iff, if◌then◌else◌, max,
}
use redrill.Prelude.Int.{ℤ, pos, negsuc, ◌≤ℤ◌, ltb_ℤ, ◌+ℤ◌}
use redrill.Clock.{Time, zero_time}
use redrill.Store.Model.{DrillState, Counter, Db}
use redrill.Store.Action.{Faults, ◌>>=◌}
use redrill.Store.Runs.{create_run, finish_run, mark_abandoned_runs}
use redrill.Store.Trail.{insert_owned, add_step, add_evidence, add_artifact}
use redrill.Store.Retention.{prune}
use redrill.Store.Proofs.{
  upsert_state, proof_of, upsert_total, total_of, record_proof, add_bytes_restored,
}
use redrill.Store.Calls.{Call, create, proof, bytes, apply, apply_all}

-- The last proof, or the zero time.
abbrev pub proven : Option Time → Time
proven none = zero_time
proven (some t) = t

abbrev pub later_of : Option Time → Time → Option Time
later_of none at = some at
later_of (some t) at = some (max t at)

abbrev same_key : String → String → String → String → Bool
same_key d l d' l' = str_eq d d' && str_eq l l'

-- A proof recorded moves its own drill and level to the later of the two times, and no other.
pub proof_of-upsert_state :
    (d l d' l' : String) (at : Time) (rows : List DrillState)
    → proof_of d' l' (upsert_state d l at rows)
      ≡ (if same_key d l d' l' then later_of (proof_of d l rows) at else proof_of d' l' rows)
proof_of-upsert_state d l d' l' at [] = refl
proof_of-upsert_state d l d' l' at (row ∷ rows) = ground (
  arith,
  proof_of-upsert_state d l d' l' at rows,
  eq_iff row.drill d,
  eq_iff row.level l,
  eq_iff d d',
  eq_iff l l',
  eq_iff row.drill d',
  eq_iff row.level l',
)

zero-+ℤ : (n : ℤ) → pos 0 +ℤ n ≡ n
zero-+ℤ (pos n) = ground arith
zero-+ℤ (negsuc n) = ground arith

pub total_of-upsert_total :
    (d d' : String) (n : ℤ) (rows : List Counter)
    → total_of d' (upsert_total d n rows)
      ≡ (if str_eq d d' then total_of d rows +ℤ n else total_of d' rows)
total_of-upsert_total d d' n [] = ground (arith, zero-+ℤ n)
total_of-upsert_total d d' n (row ∷ rows) =
    ground (
      arith,
      total_of-upsert_total d d' n rows,
      eq_iff row.drill d,
      eq_iff d d',
      eq_iff row.drill d',
    )

≤ℤ-+ℤ : (a b n : ℤ) → ltb_ℤ (pos 0) n ≡ true → a ≤ℤ b → a ≤ℤ b +ℤ n
≤ℤ-+ℤ a b n h k = ground arith

abbrev SameTables : Db → Db → Type 0
SameTables db db' = (db'.drill_state ≡ db.drill_state) × (db'.drill_counters ≡ db.drill_counters)

-- Only `proof` and `bytes` touch the two tables.
abbrev touches_proofs : Call → Bool
touches_proofs (proof _ _ _) = true
touches_proofs (bytes _ _) = true
touches_proofs _ = false

apply_frame :
    (fails : Faults) (c : Call) (db : Db)
    → touches_proofs c ≡ false
    → SameTables db (apply fails c db)
unfolding apply create_run finish_run mark_abandoned_runs insert_owned add_step add_evidence
    add_artifact prune ◌>>=◌
apply_frame fails (create r) db h = (ground arith, ground arith)
apply_frame fails c db h = (ground arith, ground arith)

-- A drill's last proof at a level, and its counter.
abbrev pub last_proof : String → String → Db → Time
last_proof drill level db = proven (proof_of drill level db.drill_state)

abbrev pub total : String → Db → ℤ
total drill db = total_of drill db.drill_counters

abbrev NotBelow : String → String → Db → Db → Type 0
NotBelow drill level db db' =
    (last_proof drill level db ≤ last_proof drill level db') × (total drill db ≤ℤ total drill db')

record_proof-NotBelow :
    (fails : Faults) (d l : String) (t : Time) (drill level : String) (db : Db)
    → NotBelow drill level db (record_proof fails d l t db).1
unfolding record_proof ◌>>=◌
record_proof-NotBelow fails d l t drill level db = (
  ground (
    arith,
    proof_of-upsert_state d l drill level t db.drill_state,
    eq_iff d drill,
    eq_iff l level,
  ),
  ground arith,
)

add_bytes_restored-NotBelow :
    (fails : Faults) (d : String) (n : ℤ) (drill level : String) (db : Db)
    → NotBelow drill level db (add_bytes_restored fails d n db).1
unfolding add_bytes_restored ◌>>=◌
add_bytes_restored-NotBelow fails d n drill level db = (
  ground arith,
  ground (
    arith,
    total_of-upsert_total d drill n db.drill_counters,
    eq_iff d drill,
    λ (h : ltb_ℤ (pos 0) n ≡ true).
        ≤ℤ-+ℤ (total_of drill db.drill_counters) (total_of drill db.drill_counters) n h
          (omega arith),
  ),
)

apply-NotBelow :
    (fails : Faults) (c : Call) (drill level : String) (db : Db)
    → NotBelow drill level db (apply fails c db)
unfolding apply
apply-NotBelow fails (proof d l t) drill level db = record_proof-NotBelow fails d l t drill level db
apply-NotBelow fails (bytes d n) drill level db =
    add_bytes_restored-NotBelow fails d n drill level db
apply-NotBelow fails c drill level db =
    let (p, q) = apply_frame fails c db refl in (rw p (omega arith), rw q (omega arith))

-- Whatever calls are made, retention included, and whatever statements fail: the last proof of a
-- drill at a level never moves back, and the bytes counted for it never fall.
pub calls-NotBelow :
    (fails : Faults) (cs : List Call) (drill level : String) (db : Db)
    → (last_proof drill level db ≤ last_proof drill level (apply_all fails cs db))
      × (total drill db ≤ℤ total drill (apply_all fails cs db))
unfolding apply_all
calls-NotBelow fails [] drill level db = (omega arith, omega arith)
calls-NotBelow fails (c ∷ cs) drill level db = omega (
  arith,
  apply-NotBelow fails c drill level db,
  calls-NotBelow fails cs drill level (apply fails c db),
)
