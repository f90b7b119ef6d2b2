-- ===== src/Store/Proofs.antt =====
-- internal/store/state.go: the time of the last proof of each drill and level; and the counters of
-- restored bytes of internal/store/runs.go.
use Prim.Native.String.{compare}
use text.Mathlib.Text.{is_le}
use redrill.Prelude.{
  String, Bool, ◌&&◌, ◌||◌, Option, none, some, List, [], ◌∷◌, str_eq, if◌then◌else◌, max, select,
}
use redrill.Prelude.Int.{ℤ, pos, ltb_ℤ, ◌+ℤ◌}
use redrill.Clock.{Time, is_zero}
use redrill.Store.Model.{DrillState, Counter, Db}
use redrill.Store.Action.{
  upsert_proof, query_proof, upsert_counter, required, Action, Faults, pure, modify, gets, raise_if,
  attempt, ◌>>◌,
}

abbrev pub is_state_of : String → String → DrillState → Bool
is_state_of drill level row = str_eq row.drill drill && str_eq row.level level

-- INSERT … ON CONFLICT(drill, level) DO UPDATE SET last_proven_at = MAX(…)
abbrev pub upsert_state : String → String → Time → List DrillState → List DrillState
upsert_state drill level at [] = record { drill = drill; level = level; last_proven_at = at } ∷ []
upsert_state drill level at (row ∷ rows) =
    if is_state_of drill level row
    then record row { last_proven_at = max row.last_proven_at at } ∷ rows
    else row ∷ upsert_state drill level at rows

-- SELECT last_proven_at … WHERE drill = ? AND level = ?
abbrev pub proof_of : String → String → List DrillState → Option Time
proof_of drill level [] = none
proof_of drill level (row ∷ rows) =
    if is_state_of drill level row then some row.last_proven_at else proof_of drill level rows

-- INSERT … ON CONFLICT(drill) DO UPDATE SET bytes_restored_total = bytes_restored_total + …
abbrev pub upsert_total : String → ℤ → List Counter → List Counter
upsert_total drill n [] = record { drill = drill; bytes_restored_total = n } ∷ []
upsert_total drill n (row ∷ rows) =
    if str_eq row.drill drill
    then record row { bytes_restored_total = row.bytes_restored_total +ℤ n } ∷ rows
    else row ∷ upsert_total drill n rows

abbrev pub total_of : String → List Counter → ℤ
total_of drill [] = pos 0
total_of drill (row ∷ rows) =
    if str_eq row.drill drill then row.bytes_restored_total else total_of drill rows

-- ORDER BY level, which compares bytes
abbrev pub insert_level : DrillState → List DrillState → List DrillState
insert_level row [] = row ∷ []
insert_level row (r ∷ rows) =
    if is_le (compare row.level r.level) then row ∷ r ∷ rows else r ∷ insert_level row rows

abbrev pub sort_levels : List DrillState → List DrillState
sort_levels [] = []
sort_levels (row ∷ rows) = insert_level row (sort_levels rows)

module _ (fails : Faults) where
  -- RecordProof
  unfoldable pub record_proof : String → String → Time → Action Db (Unit {0})
  record_proof drill level at = do
    raise_if (str_eq drill "" || str_eq level "") (required "drill and level")
    raise_if (is_zero at) (required "timestamp")
    attempt fails upsert_proof
    modify (λ db. record db { drill_state = upsert_state drill level at db.drill_state })

  -- GetProof; `none` when the level was never proven
  unfoldable pub get_proof : String → String → Action Db (Option Time)
  get_proof drill level = do
    attempt fails query_proof
    gets (λ db. proof_of drill level db.drill_state)

  -- ListProofs
  unfoldable pub list_proofs : String → Action Db (List DrillState)
  list_proofs drill = do
    attempt fails query_proof
    gets (λ db. sort_levels (select (λ row. str_eq row.drill drill) db.drill_state))

  -- AddBytesRestored
  unfoldable pub add_bytes_restored : String → ℤ → Action Db (Unit {0})
  add_bytes_restored drill n =
      if ltb_ℤ (pos 0) n
      then (do
        attempt fails upsert_counter
        modify (λ db. record db { drill_counters = upsert_total drill n db.drill_counters }))
      else pure tt

  -- BytesRestoredTotal
  unfoldable pub bytes_restored_total : String → Action Db ℤ
  bytes_restored_total drill = do
    attempt fails query_proof
    gets (λ db. total_of drill db.drill_counters)
