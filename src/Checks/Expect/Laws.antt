-- ===== src/Checks/Expect/Laws.antt =====
-- How the age of a timestamp is judged.
use redrill.Prelude.{ℕ, ◌+◌, ◌≤◌, ◌<◌, ◌≡◌, ◌↔◌, String, Bool, true, false, some, arith}
use redrill.Prelude.Int.{pos, max_int64}
use redrill.Text.{trim_space}
use redrill.Checks.{Answer, got, broke}
use redrill.Checks.Expect.{
  Reader, age_lt, age_gt, evaluate, evaluate_age, first_time, time_layouts, future_skew_tolerance,
}

-- A verdict, and an error.
abbrev pub Passes : Answer Bool → Type 0
Passes a = a ≡ got true

abbrev pub is_broken : Answer Bool → Bool
is_broken (broke why) = true
is_broken (got b) = false

module _ (read : Reader) where
  -- A value that reads as a timestamp passes `age < D`, for a D that is positive, exactly if it is no more
  -- than five minutes after now and less than D before now; it passes `age > D` exactly if it is more than
  -- D before now; and it is an error for both, never a verdict, exactly if it is further in the future.
  -- D is less than the greatest duration, so that the saturating subtraction changes no verdict.
  pub evaluate-age :
      (actual : String) (now t d : ℕ)
      → first_time read time_layouts (trim_space actual) ≡ some t
      → 0 < d
      → d < max_int64
      → (Passes (evaluate read (age_lt (pos d)) actual now)
          ↔ (t ≤ now + future_skew_tolerance) × (now < t + d))
        × (Passes (evaluate read (age_gt (pos d)) actual now) ↔ (t + d < now))
        × ((is_broken (evaluate read (age_lt (pos d)) actual now) ≡ true)
            ↔ (now + future_skew_tolerance < t))
        × ((is_broken (evaluate read (age_gt (pos d)) actual now) ≡ true)
            ↔ (now + future_skew_tolerance < t))
  unfolding evaluate
  evaluate-age actual now t d h a b =
      rw (evaluate_age, h)
        (
          (λ p. (ground arith, ground arith), λ p. ground arith),
          (λ p. ground arith, λ p. ground arith),
          (λ p. ground arith, λ p. ground arith),
          (λ p. ground arith, λ p. ground arith),
        )
