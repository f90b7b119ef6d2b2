-- ===== src/Scheduler/Staleness.antt =====
-- internal/scheduler/staleness.go: Stale and HeadlineLevel.
use redrill.Prelude.{
  ℕ, ◌+◌, ◌<◌, ◌≡◌, ◌↔◌, ◌⊎◌, inl, inr, Bool, true, false, not, String, arith, if◌then◌else◌,
  Bool-cases,
}
use redrill.Prelude.Int.{pos, ltb_ℤ, max_int64}
use redrill.Clock.{Time, Duration, is_zero, zero_time, sub, sub-le_iff_le}
use redrill.Config.{Drill, is_set}

-- Stale
unfoldable pub stale : Duration → Time → Time → Bool
stale max_proof_age last_proven now =
    if not (ltb_ℤ (pos 0) max_proof_age)
    then false
    else if is_zero last_proven
    then true
    else ltb_ℤ max_proof_age (sub now last_proven)

-- HeadlineLevel
unfoldable pub headline_level : Drill → String
headline_level d =
    if is_set d.levels.l3
    then "l3"
    else if is_set d.levels.l2
    then "l2"
    else if is_set d.levels.l1
    then "l1"
    else ""

-- With a positive bound below the greatest duration, a drill is stale exactly if it was never
-- proven or its proof is older than the bound; the saturating subtraction changes nothing.
pub stale_iff :
    (m : ℕ) (last now : Time)
    → 0 < m
    → m < max_int64
    → stale (pos m) last now ≡ true ↔ (last ≡ zero_time) ⊎ (last + m < now)
unfolding stale
stale_iff m last now h k = elim (Bool-cases (is_zero last)) [
  | inl z ↦ ((λ e. inl (ground arith)), λ e. ground arith)
  | inr z ↦ (
    (λ e. inr (ground (arith, sub-le_iff_le now last m k))),
    λ e. ground (arith, sub-le_iff_le now last m k),
  )
]
