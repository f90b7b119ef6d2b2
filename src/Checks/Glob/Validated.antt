-- ===== src/Checks/Glob/Validated.antt =====
-- A pattern that the configuration accepts is matched without error.
use redrill.Prelude.{
  ◌≡◌, ◌≢◌, refl, sym, String, Bool, true, false, Option, none, some, List, [], ◌∷◌, str_eq, eq_iff,
  if◌then◌else◌, arith, Bool-cases, inl, inr,
}
use mathlib.Core.Path.{subst}
use redrill.Text.{split_on, has_byte, split_on-single}
use redrill.Config.{is_set}
use redrill.Config.DrillRules.{all_parse, valid_glob}
use redrill.Checks.Glob.{match_glob, last_of}
use redrill.Checks.Glob.Spans.{Spans, Answers, WellFormed, match_segments-Answers}

module _ (match_one : String → String → Option Bool) where
  -- How validGlob asks whether a segment is well formed.
  abbrev pub parses : String → Bool
  parses seg = is_set (match_one seg "probe")

  -- What matchGlob's comment says of a pattern and a relative path.
  abbrev pub Matches : String → String → Type 0
  Matches pattern rel =
      if has_byte b'/' pattern
      then Spans match_one (split_on b'/' pattern) (split_on b'/' rel)
      else match_one pattern (last_of rel (split_on b'/' rel)) ≡ some true

  module _ (one_error : (p s t : String) → match_one p s ≢ none → match_one p t ≢ none)
      (stars_parse : (s : String) → match_one "**" s ≢ none) where
    all_parse-WellFormed :
        (segs : List String) → all_parse parses segs ≡ true → WellFormed match_one segs
    all_parse-WellFormed [] h = tt
    all_parse-WellFormed (p ∷ ps) h = (
      (λ e s. one_error p "probe" s (λ n. ground (arith, e, n))),
      all_parse-WellFormed ps (ground arith),
    )

    single-Answers :
        (p s : String)
        → match_one p s ≢ none
        → Answers match_one (match_one p s ≡ some true) (match_one p s)
    single-Answers p s n = decided (match_one p s) n
      where
        decided : (r : Option Bool) → r ≢ none → Answers match_one (r ≡ some true) r
        decided (some true) h = refl
        decided (some false) h = λ e. ground (arith, e)
        decided none h = h refl

    no_error : (p s : String) → all_parse parses (p ∷ []) ≡ true → match_one p s ≢ none
    no_error p s h = elim (Bool-cases (str_eq p "**")) [
      | inl e ↦
          subst (λ (q : String). match_one q s ≢ none) (sym ((eq_iff p "**").0 e)) (stars_parse s)
      | inr e ↦ one_error p "probe" s (λ n. ground (arith, e, n))
    ]

    -- On a pattern that validGlob accepts, matchGlob returns no error, and yes exactly if the path
    -- matches: by its last segment if the pattern has no slash, else segment by segment, `**`
    -- spanning any number of them. It is assumed that path.Match refuses a pattern whatever the
    -- name, and never refuses `**`.
    pub match_glob-Answers :
        (pattern rel : String)
        → valid_glob parses pattern ≡ true
        → Answers match_one (Matches pattern rel) (match_glob match_one pattern rel)
    unfolding match_glob valid_glob
    match_glob-Answers pattern rel h = elim (Bool-cases (has_byte b'/' pattern)) [
      | inl e ↦
          rw (e, match_glob)
            (match_segments-Answers match_one (split_on b'/' pattern) (split_on b'/' rel)
              (all_parse-WellFormed (split_on b'/' pattern) h))
      | inr e ↦
          rw (e, match_glob)
            (single-Answers pattern (last_of rel (split_on b'/' rel)) (
              no_error pattern (last_of rel (split_on b'/' rel))
                (rw (split_on-single b'/' pattern e) at h)))
    ]
