-- ===== src/Checks/Expect.antt =====
-- internal/checks/expect.go: the predicates that a check expects of a value. What Go's strconv, big,
-- time, regexp and fmt make of a text is a parameter, the record Reader.
pub mod Laws
use Prim.Native.Nat.{compare, Ordering}
use Prim.Native.String.{len, slice, ◌++◌ as str_append}
use redrill.Prelude.{
  ℕ, suc, ◌*◌, String, Bool, true, false, not, ◌&&◌, ◌||◌, Option, none, some, List, [], ◌∷◌,
  str_eq, if◌then◌else◌,
}
use redrill.Prelude.Int.{ℤ, pos, negsuc, pos_part, neg_part, ltb_ℤ, ◌+ℤ◌}
use redrill.Clock.{Time, Duration, sub, minute, of_days}
use redrill.Text.{trim_space, fields, has_byte, cut_suffix, atoi}
use redrill.Store.Retention.{negate}
use redrill.Checks.{Answer, got, broke}

-- big.Rat: a fraction over a positive denominator, which is one more than `den_less_one`
pub record Rat : Type 0 where
  pub num : ℤ
  pub den_less_one : ℕ

-- Cmp, by cross multiplication
abbrev pub scale : ℤ → ℕ → ℕ × ℕ
scale n d = (pos_part n * suc d, neg_part n * suc d)

abbrev pub cmp : Rat → Rat → Ordering
cmp x y =
    let (xp, xn) = scale x.num y.den_less_one in
    let (yp, yn) = scale y.num x.den_less_one in
    compare (pos_part (pos xp +ℤ pos yn)) (pos_part (pos yp +ℤ pos xn))

-- strconv.ParseFloat succeeds; big.Rat's SetString; time.ParseDuration; regexp.Compile succeeds, and
-- MatchString of the pattern; time.Parse by layout; `%q`, and a duration rounded to seconds.
pub record Reader : Type 0 where
  pub is_float : String → Bool
  pub rat : String → Option Rat
  pub duration : String → Option Duration
  pub compiles : String → Bool
  pub matches : String → String → Bool
  pub time : String → String → Option Time
  pub quote : String → String
  pub rounded : Duration → String

-- Expectation, less the text it was read from; a regex is its anchored pattern.
pub data Expectation : Type 0 where
  gt ge eq ne : Rat → Expectation
  between : Rat → Rat → Expectation
  age_lt age_gt : Duration → Expectation
  matches : String → Expectation
  nonempty : Expectation

-- futureSkewTolerance
abbrev pub future_skew_tolerance : ℕ
future_skew_tolerance = 5 * minute

-- timeLayouts
abbrev pub time_layouts : List String
time_layouts =
    "2006-01-02T15:04:05.999999999Z07:00" ∷ "2006-01-02T15:04:05Z07:00"
    ∷ "2006-01-02 15:04:05.999999999Z07:00" ∷ "2006-01-02 15:04:05Z07:00"
    ∷ "2006-01-02 15:04:05.999999999Z07" ∷ "2006-01-02 15:04:05Z07"
    ∷ "2006-01-02 15:04:05.999999999" ∷ "2006-01-02 15:04:05" ∷ "2006-01-02" ∷ []

abbrev is_nonempty : Expectation → Bool
is_nonempty nonempty = true
is_nonempty _ = false

abbrev pub is_negative : Duration → Bool
is_negative d = ltb_ℤ d (pos 0)

module _ (read : Reader) where
  -- parseNumber
  unfoldable pub parse_number : String → Option Rat
  parse_number s =
      if has_byte b'/' s then none else if not (read.is_float s) then none else read.rat s

module _ (read : Reader) where
  -- parseDuration
  unfoldable pub parse_duration : String → Answer Duration
  parse_duration text =
      let s = trim_space text in
      let whole : Option ℤ = elim (cut_suffix "d" s) [ none ↦ none | some rest ↦ atoi rest ] in
      elim whole [
        | some n ↦
            if is_negative n
            then broke (str_append "negative duration " (read.quote s))
            else got (of_days n)
        | none ↦ elim (read.duration s) [
          | none ↦ broke (
              str_append "invalid duration "
                (str_append (read.quote s) " (want e.g. 30m, 36h, 8d)"))
          | some d ↦
              if is_negative d
              then broke (str_append "negative duration " (read.quote s))
              else got d
        ]
      ]

  abbrev complain : String → String → Answer Expectation
  complain raw why =
      broke (str_append "expect " (str_append (read.quote raw) (str_append ": " why)))

  -- The operator of a binary comparison.
  abbrev pub operator : String → Option (Rat → Expectation)
  operator op =
      if str_eq op ">"
      then some gt
      else if str_eq op ">="
      then some ge
      else if str_eq op "=="
      then some eq
      else if str_eq op "!="
      then some ne
      else none

  abbrev pub parse_binary : String → String → String → Answer Expectation
  parse_binary raw op operand = elim (operator op) [
    | none ↦ complain raw (str_append "unknown operator " (read.quote op))
    | some make ↦ elim (parse_number read operand) [
      | none ↦
          complain raw (str_append "operand " (str_append (read.quote operand) " is not a number"))
      | some n ↦ got (make n)
    ]
  ]

  abbrev pub parse_between : String → List String → Answer Expectation
  parse_between raw (low ∷ high ∷ []) = elim (parse_number read low) [
    | none ↦ complain raw "between requires two numbers"
    | some a ↦ elim (parse_number read high) [
      | none ↦ complain raw "between requires two numbers"
      | some b ↦ got (between a b)
    ]
  ]
  parse_between raw other = complain raw "between requires two numbers"

  abbrev pub parse_age : String → List String → Answer Expectation
  parse_age raw (op ∷ text ∷ []) =
      if str_eq op "<" || str_eq op ">"
      then elim (parse_duration text) [
        | broke why ↦ complain raw why
        | got d ↦ got (if str_eq op "<" then age_lt d else age_gt d)
      ]
      else complain raw "want `age < DURATION` or `age > DURATION`"
  parse_age raw other = complain raw "want `age < DURATION` or `age > DURATION`"

  -- The pattern of `matches`: what follows the word, anchored.
  abbrev pub parse_matches : String → List String → Answer Expectation
  parse_matches raw [] = complain raw "matches requires a regex"
  parse_matches raw (_ ∷ _) =
      let pat = trim_space (slice raw (len "matches") (len raw)) in
      let anchored = str_append "\\A(?:" (str_append pat ")\\z") in
      if read.compiles anchored then got (matches anchored) else complain raw "invalid regex"

  abbrev pub parse_other : String → String → List String → Answer Expectation
  parse_other raw op (operand ∷ []) = parse_binary raw op operand
  parse_other raw op others = complain raw "unrecognized predicate"

  abbrev pub parse_fields : String → List String → Answer Expectation
  parse_fields raw [] = broke "expect: empty predicate"
  parse_fields raw (word ∷ operands) =
      if str_eq word "nonempty"
      then elim operands [ [] ↦ got nonempty | _ ∷ _ ↦ complain raw "nonempty takes no operand" ]
      else if str_eq word "matches"
      then parse_matches raw operands
      else if str_eq word "between"
      then parse_between raw operands
      else if str_eq word "age"
      then parse_age raw operands
      else parse_other raw word operands

  -- ParseExpect
  unfoldable pub parse_expect : String → Answer Expectation
  unfolding parse_duration parse_number
  parse_expect s =
      let raw = trim_space s in
      if str_eq raw "" then broke "expect: empty predicate" else parse_fields raw (fields raw)

module _ (read : Reader) where
  abbrev coerce_error : String → String
  coerce_error why = str_append "cannot coerce actual value: " why

  -- compareNumber; the predicates of other kinds have no number.
  unfoldable pub compare_number : Expectation → Rat → Bool
  compare_number (gt a) n = elim (cmp n a) [ Ordering.gt ↦ true | _ ↦ false ]
  compare_number (ge a) n = elim (cmp n a) [ Ordering.lt ↦ false | _ ↦ true ]
  compare_number (eq a) n = elim (cmp n a) [ Ordering.eq ↦ true | _ ↦ false ]
  compare_number (ne a) n = elim (cmp n a) [ Ordering.eq ↦ false | _ ↦ true ]
  compare_number (between a b) n =
      elim (cmp n a) [ Ordering.lt ↦ false | _ ↦ true ]
      && elim (cmp n b) [ Ordering.gt ↦ false | _ ↦ true ]
  compare_number _ n = false

  -- The first layout that reads the text.
  abbrev pub first_time : List String → String → Option Time
  first_time [] s = none
  first_time (layout ∷ layouts) s =
      let rest = first_time layouts s in elim (read.time layout s) [ none ↦ rest | some t ↦ some t ]

  -- The number that a value is read as: toNumber.
  abbrev pub evaluate_number : Expectation → String → Answer Bool
  evaluate_number e actual = elim (parse_number read (trim_space actual)) [
    | none ↦ broke (coerce_error (str_append (read.quote actual) " is not a number"))
    | some n ↦ got (compare_number e n)
  ]

  -- The age of a timestamp, toTime and the test of Evaluate.
  abbrev pub evaluate_age : (Duration → Bool) → String → Time → Answer Bool
  evaluate_age test actual now = elim (first_time time_layouts (trim_space actual)) [
    | none ↦
        broke (coerce_error (str_append (read.quote (trim_space actual)) " is not a timestamp"))
    | some t ↦
        let age = sub now t in
        if ltb_ℤ age (negate (pos future_skew_tolerance))
        then broke (
            coerce_error (
              str_append "timestamp " (
                str_append (read.quote (trim_space actual)) (
                  str_append " is in the future (by "
                    (str_append (read.rounded (negate age)) ")")))))
        else got (test (if is_negative age then pos 0 else age))
  ]

  -- Evaluate
  unfoldable pub evaluate : Expectation → String → Time → Answer Bool
  unfolding compare_number
  evaluate nonempty actual now = got (not (str_eq (trim_space actual) ""))
  evaluate (matches pat) actual now = got (read.matches pat actual)
  evaluate (gt a) actual now = evaluate_number (gt a) actual
  evaluate (ge a) actual now = evaluate_number (ge a) actual
  evaluate (eq a) actual now = evaluate_number (eq a) actual
  evaluate (ne a) actual now = evaluate_number (ne a) actual
  evaluate (between a b) actual now = evaluate_number (between a b) actual
  evaluate (age_lt d) actual now = evaluate_age (λ age. ltb_ℤ age d) actual now
  evaluate (age_gt d) actual now = evaluate_age (λ age. ltb_ℤ d age) actual now
