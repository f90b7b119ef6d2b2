-- ===== src/Examples/Checks.antt =====
-- Patterns, expectations, durations and secrets.
use redrill.Prelude.{
  ◌≡◌, ◌≢◌, ◌↔◌, refl, String, Bool, true, not, ◌&&◌, ◌||◌, Option, none, some, [], ◌∷◌, ◌≤◌, ◌<◌,
  ◌+◌, ◌*◌, arith, str_eq,
}
use redrill.Prelude.Int.{pos}
use redrill.Clock.{Duration, day}
use redrill.Text.{trim_space, cut_suffix, atoi, digits, split_on}
use redrill.Redact.{Redaction, mem, add_env}
use redrill.Redact.Order.{mem-add_env}
use redrill.Checks.{got}
use redrill.Checks.Expect.{Reader, age_lt, age_gt, evaluate, future_skew_tolerance, is_negative}
use redrill.Checks.Expect.Laws.{Passes, is_broken, evaluate-age}
use redrill.Checks.Glob.{match_glob, match_segments}
use redrill.Checks.Glob.Spans.{Spans, Answers, match_segments-Answers}
use redrill.Checks.Glob.Validated.{Matches, parses, match_glob-Answers}
use redrill.Config.Units.{parse_duration, days_in, parse_duration-exact, parse_duration-wraps}
use redrill.Config.DrillRules.{valid_glob}
use redrill.Examples.World.{plain_reader}

-- A matcher of equal names, with `*` and `**` for any.
abbrev same_name : String → String → Option Bool
same_name p s = some (str_eq p "*" || str_eq p "**" || str_eq p s)

some-none : (b : Bool) → some b ≢ none
some-none b e = ground arith

-- A reader that finds an instant of this century.
abbrev this_year : Reader
this_year = record plain_reader { time = λ l s. some 63900000000000000000 }

evaluate-age_example :
    (Passes (evaluate this_year (age_lt (pos 5)) "1000" 63900000000000000003)
      ↔ (63900000000000000000 ≤ 63900000000000000003 + future_skew_tolerance)
        × (63900000000000000003 < 63900000000000000000 + 5))
    × (Passes (evaluate this_year (age_gt (pos 5)) "1000" 63900000000000000003)
        ↔ (63900000000000000000 + 5 < 63900000000000000003))
    × ((is_broken (evaluate this_year (age_lt (pos 5)) "1000" 63900000000000000003) ≡ true)
        ↔ (63900000000000000003 + future_skew_tolerance < 63900000000000000000))
    × ((is_broken (evaluate this_year (age_gt (pos 5)) "1000" 63900000000000000003) ≡ true)
        ↔ (63900000000000000003 + future_skew_tolerance < 63900000000000000000))
evaluate-age_example =
    evaluate-age this_year "1000" 63900000000000000003 63900000000000000000 5 refl (omega arith)
      (omega arith)

days_lem : days_in (λ s. none) (λ s. s) (trim_space " 8d") ≡ some (pos 8)
unfolding trim_space cut_suffix atoi digits
days_lem = refl

parse_duration-exact_example : parse_duration (λ s. none) (λ s. s) " 8d" ≡ got (pos (8 * day))
parse_duration-exact_example =
    parse_duration-exact (λ s. none) (λ s. s) " 8d" 8 days_lem (omega arith)

many_days_lem : days_in (λ s. none) (λ s. s) (trim_space "200000d") ≡ some (pos 200000)
unfolding trim_space cut_suffix atoi digits
many_days_lem = refl

parse_duration-wraps_example :
    (d : Duration) × (parse_duration (λ s. none) (λ s. s) "200000d" ≡ got d)
    × (is_negative d ≡ true)
parse_duration-wraps_example =
    parse_duration-wraps (λ s. none) (λ s. s) "200000d" 200000 many_days_lem (omega arith)
      (omega arith)

abbrev some_redaction : Redaction
some_redaction = record { looks_secret = λ n. str_eq n "PGPASSWORD"; replace = λ pairs s. s }

mem-add_env_example : mem "x" (add_env some_redaction "PGPASSWORD" "x" []) ≡ (
    mem "x" []
    || (str_eq "PGPASSWORD" "PGPASSWORD" && str_eq "x" "x" && not (str_eq (trim_space "x") "")))
mem-add_env_example = mem-add_env some_redaction "PGPASSWORD" "x" [] "x"

match_segments-Answers_example :
    Answers same_name
      (Spans same_name ("a" ∷ "**" ∷ "b" ∷ []) ("a" ∷ "x" ∷ "b" ∷ []))
      (match_segments same_name ("a" ∷ "**" ∷ "b" ∷ []) ("a" ∷ "x" ∷ "b" ∷ []))
match_segments-Answers_example =
    match_segments-Answers same_name ("a" ∷ "**" ∷ "b" ∷ []) ("a" ∷ "x" ∷ "b" ∷ [])
      (λ e s. some-none _, (λ e s. some-none _, (λ e s. some-none _, tt)))

glob_lem : valid_glob (parses same_name) "a/**/b" ≡ true
unfolding valid_glob split_on
glob_lem = refl

match_glob-Answers_example :
    Answers same_name (Matches same_name "a/**/b" "a/x/b") (match_glob same_name "a/**/b" "a/x/b")
match_glob-Answers_example =
    match_glob-Answers same_name (λ p s t n. some-none _) (λ s. some-none _) "a/**/b" "a/x/b"
      glob_lem
