-- ===== src/Config/Units.antt =====
-- internal/config/units.go: a duration as the configuration writes it. time.ParseDuration and `%q` are
-- parameters.
use Prim.Native.String.{◌++◌ as str_append}
use redrill.Prelude.{
  ℕ, ◌*◌, ◌≤◌, ◌<◌, ◌≡◌, refl, String, true, false, Option, none, some, str_eq, if◌then◌else◌,
  arith, inl, inr, Bool-cases, eq_iff, ◌∙◌, ap,
}
use redrill.Prelude.Int.{ℤ, pos}
use redrill.Clock.{Duration, of_days, day}
use redrill.Text.{trim_space, cut_suffix, atoi}
use redrill.Checks.{Answer, got, broke}
use redrill.Checks.Expect.{is_negative}

module _ (duration : String → Option Duration) (quote : String → String) where
  -- A duration that is not in whole days.
  abbrev pub plain_duration : String → Answer Duration
  plain_duration s = elim (duration s) [
    | none ↦
        broke (str_append "invalid duration " (str_append (quote s) " (want e.g. 30m, 36h, 8d)"))
    | some d ↦ if is_negative d then broke (str_append "negative duration " (quote s)) else got d
  ]

  -- The number before the suffix of days.
  abbrev pub days_in : String → Option ℤ
  days_in s = elim (cut_suffix "d" s) [ none ↦ none | some rest ↦ atoi rest ]

  -- parseDuration
  unfoldable pub parse_duration : String → Answer Duration
  unfolding of_days
  parse_duration text =
      let s = trim_space text in
      if str_eq s "" then broke "empty duration" else elim (days_in s) [
        | some n ↦
            if is_negative n
            then broke (str_append "negative duration " (quote s))
            else got (of_days n)
        | none ↦ plain_duration s
      ]

  of_days-exact : (n : ℕ) → n ≤ 106751 → of_days (pos n) ≡ pos (n * day)
  unfolding of_days
  of_days-exact n h = ground arith

  of_days-wrapped : (n : ℕ) → 106751 < n → n ≤ 213503 → is_negative (of_days (pos n)) ≡ true
  unfolding of_days
  of_days-wrapped n h k = ground arith

  days_in-empty : (s : String) → str_eq s "" ≡ true → days_in s ≡ none
  unfolding cut_suffix
  days_in-empty s e = let same : s ≡ "" = ground (arith, eq_iff s "") in rw (same) refl

  days_in-some : (s : String) (n : ℤ) → days_in s ≡ some n → str_eq s "" ≡ false
  days_in-some s n h = elim (Bool-cases (str_eq s "")) [
    | inl e ↦ (let none_there = days_in-empty s e in ground (arith, none_there, h))
    | inr e ↦ e
  ]

  not_negative : (n : ℕ) → is_negative (pos n) ≡ false
  not_negative n = ground arith

  parse_duration-of_days :
      (text : String) (n : ℕ)
      → days_in (trim_space text) ≡ some (pos n)
      → parse_duration text ≡ got (of_days (pos n))
  unfolding parse_duration
  parse_duration-of_days text n h = rw (parse_duration, days_in-some _ _ h, h, not_negative n) refl

  -- A duration written as a number of whole days, up to 106751 (about 292 years), is read as that many
  -- days.
  pub parse_duration-exact :
      (text : String) (n : ℕ)
      → days_in (trim_space text) ≡ some (pos n)
      → n ≤ 106751
      → parse_duration text ≡ got (pos (n * day))
  parse_duration-exact text n h k =
      parse_duration-of_days text n h ∙ ap (λ d. got d) (of_days-exact n k)

  -- A duration written as a number of whole days from 106752 to 213503 is accepted, though durations must
  -- not be negative, and read as a negative one.
  pub parse_duration-wraps :
      (text : String) (n : ℕ)
      → days_in (trim_space text) ≡ some (pos n)
      → 106751 < n
      → n ≤ 213503
      → (d : Duration) × (parse_duration text ≡ got d) × (is_negative d ≡ true)
  parse_duration-wraps text n h k l =
      (of_days (pos n), parse_duration-of_days text n h, of_days-wrapped n k l)
