-- ===== src/Store/Keeping.antt =====
-- What Prune keeps of a drill's history, against a description by the sublist of that drill.
use redrill.Prelude.{
  ℕ, zero, suc, ◌≡◌, refl, not, Option, none, some, List, [], ◌∷◌, arith, String, str_eq,
  if◌then◌else◌, select, take, ap,
}
use redrill.Prelude.Int.{ℤ, pos, pos_part, ltb_ℤ}
use redrill.Clock.{Time, Duration, add}
use redrill.Store.Model.{RunRow, Db}
use redrill.Store.Action.{Faults, ok, ◌>>=◌}
use redrill.Store.Retention.{kept_by_age, one_less, prune_rows, prune, negate}

abbrev pub mine : String → List RunRow → List RunRow
mine drill = select (λ row. str_eq row.drill drill)

abbrev pub others : String → List RunRow → List RunRow
others drill = select (λ row. not (str_eq row.drill drill))

-- At most so many, the newest.
abbrev pub take_bound : Option ℕ → List RunRow → List RunRow
take_bound none rows = rows
take_bound (some n) rows = take n rows

mine-prune_rows :
    (drill : String) (cutoff : Option Time) (keep : Option ℕ) (rows : List RunRow)
    → mine drill (prune_rows drill cutoff keep rows)
      ≡ select (kept_by_age cutoff) (take_bound keep (mine drill rows))
mine-prune_rows drill cutoff none [] = refl
mine-prune_rows drill cutoff (some zero) [] = refl
mine-prune_rows drill cutoff (some (suc n)) [] = refl
mine-prune_rows drill cutoff none (row ∷ rows) =
    ground (arith, mine-prune_rows drill cutoff none rows)
mine-prune_rows drill cutoff (some zero) (row ∷ rows) =
    ground (arith, mine-prune_rows drill cutoff (some zero) rows)
mine-prune_rows drill cutoff (some (suc n)) (row ∷ rows) = ground (
  arith,
  mine-prune_rows drill cutoff (some n) rows,
  mine-prune_rows drill cutoff (some (suc n)) rows,
)

others-prune_rows :
    (drill : String) (cutoff : Option Time) (keep : Option ℕ) (rows : List RunRow)
    → others drill (prune_rows drill cutoff keep rows) ≡ others drill rows
others-prune_rows drill cutoff keep [] = refl
others-prune_rows drill cutoff keep (row ∷ rows) =
    let left = if str_eq row.drill drill then one_less keep else keep in
    ground (arith, others-prune_rows drill cutoff left rows)

-- The bounds that Prune reads from the configuration: a bound that is not positive is off.
abbrev pub age_bound : Duration → Time → Option Time
age_bound max_age now = if ltb_ℤ (pos 0) max_age then some (add now (negate max_age)) else none

abbrev pub count_bound : ℤ → Option ℕ
count_bound max_count = if ltb_ℤ (pos 0) max_count then some (pos_part max_count) else none

kept-none : (rows : List RunRow) → select (kept_by_age none) rows ≡ rows
kept-none [] = refl
kept-none (row ∷ rows) = ap (λ (l : List RunRow). row ∷ l) (kept-none rows)

-- When Prune returns, a drill is left with those of its newest runs, as many as the count bound
-- allows, that did not start before the age bound; the runs of the other drills, the proofs and the
-- counters are as they were.
pub prune_lem :
    (fails : Faults) (drill : String) (max_age : Duration) (max_count : ℤ) (now : Time) (db : Db)
    {n : ℕ}
    → (prune fails drill max_age max_count now db).0 ≡ ok n
    → let db' = (prune fails drill max_age max_count now db).1 in
      (mine drill db'.runs
        ≡ select
            (kept_by_age (age_bound max_age now))
            (take_bound (count_bound max_count) (mine drill db.runs)))
      × (others drill db'.runs ≡ others drill db.runs)
      × (db'.drill_state ≡ db.drill_state)
      × (db'.drill_counters ≡ db.drill_counters)
unfolding prune ◌>>=◌
prune_lem fails drill max_age max_count now db e = (
  ground (
    arith,
    mine-prune_rows drill (age_bound max_age now) (count_bound max_count) db.runs,
    kept-none (mine drill db.runs),
  ),
  ground (arith, others-prune_rows drill (age_bound max_age now) (count_bound max_count) db.runs),
  ground arith,
  ground arith,
)
