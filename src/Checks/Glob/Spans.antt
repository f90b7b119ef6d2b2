-- ===== src/Checks/Glob/Spans.antt =====
-- What it means for a path to match a pattern with `**`, and that matchSegments decides it.
use redrill.Prelude.{
  ◌≡◌, ◌≢◌, refl, ◌⊎◌, inl, inr, String, Bool, true, false, Option, none, some, List, [], ◌∷◌,
  str_eq, arith, Bool-cases, All,
}
use redrill.Checks.Glob.{first_tail, match_segments}

module _ (match_one : String → String → Option Bool) where
  -- A segment of the pattern matches one segment of the path; `**` spans any number of them.
  pub data Spans : List String → List String → Type 0 where
    done : Spans [] []
    segment :
        {p s : String} {ps ss : List String}
        → str_eq p "**" ≡ false
        → match_one p s ≡ some true
        → Spans ps ss
        → Spans (p ∷ ps) (s ∷ ss)
    leave :
        {p : String} {ps ss : List String} → str_eq p "**" ≡ true → Spans ps ss → Spans (p ∷ ps) ss
    span :
        {p s : String} {ps ss : List String}
        → str_eq p "**" ≡ true
        → Spans (p ∷ ps) ss
        → Spans (p ∷ ps) (s ∷ ss)

  -- An answer without error that is right about a question.
  abbrev pub Answers : Type 0 → Option Bool → Type 0
  Answers G (some true) = G
  Answers G (some false) = ¬ G
  Answers G none = ⊥

  -- No segment but `**` is a malformed pattern.
  abbrev pub WellFormed : List String → Type 0
  WellFormed = All (λ p. str_eq p "**" ≡ false → (s : String) → match_one p s ≢ none)

  span_all : {p : String} (ss : List String) → str_eq p "**" ≡ true → Spans (p ∷ []) ss
  span_all [] e = leave e done
  span_all (s ∷ ss) e = span e (span_all ss e)

  no_segments : {p : String} {ps : List String} → str_eq p "**" ≡ false → ¬ Spans (p ∷ ps) []
  no_segments e (leave h d) = ground (arith, e, h)

  segment_inv :
      {p s : String} {ps ss : List String}
      → str_eq p "**" ≡ false
      → Spans (p ∷ ps) (s ∷ ss)
      → (match_one p s ≡ some true) × Spans ps ss
  segment_inv e (segment h m d) = (m, d)
  segment_inv e (leave h d) = ground (arith, e, h)
  segment_inv e (span h d) = ground (arith, e, h)

  span_inv :
      {p s : String} {ps ss : List String}
      → str_eq p "**" ≡ true
      → Spans (p ∷ ps) (s ∷ ss)
      → Spans ps (s ∷ ss) ⊎ Spans (p ∷ ps) ss
  span_inv e (segment h m d) = ground (arith, e, h)
  span_inv e (leave h d) = inl d
  span_inv e (span h d) = inr d

  leave_inv :
      {p : String} {ps : List String} → str_eq p "**" ≡ true → Spans (p ∷ ps) [] → Spans ps []
  leave_inv e (leave h d) = d

  carried : {G H : Type 0} (r : Option Bool) → (G → H) → (H → G) → Answers G r → Answers H r
  carried (some true) f g a = f a
  carried (some false) f g a = λ h. a (g h)
  carried none f g a = a

  -- An answer of no is followed by a second question.
  or_else :
      {G H K : Type 0} (r rest : Option Bool)
      → (G → K)
      → (H → K)
      → (K → G ⊎ H)
      → Answers G r
      → Answers H rest
      → Answers K (elim r [ some false ↦ rest | answer ↦ answer ])
  or_else (some true) rest f g k a b = f a
  or_else none rest f g k a b = a
  or_else (some false) rest f g k a b =
      carried rest g (λ x. elim (k x) [ inl y ↦ absurd (a y) | inr y ↦ y ]) b

  -- An answer of yes is followed by a second question.
  and_then :
      {H K : Type 0} (r rest : Option Bool)
      → r ≢ none
      → (r ≡ some true → H → K)
      → (K → (r ≡ some true) × H)
      → Answers H rest
      → Answers K (elim r [ some true ↦ rest | answer ↦ answer ])
  and_then (some true) rest n f g b = carried rest (f refl) (λ k. (g k).1) b
  and_then (some false) rest n f g b = λ k. ground (arith, g k)
  and_then none rest n f g b = n refl

  -- The tails of a path, tried in turn.
  tails-Answers :
      (p : String) (ps : List String) (try : List String → Option Bool)
      → str_eq p "**" ≡ true
      → ((ss : List String) → Answers (Spans ps ss) (try ss))
      → (ss : List String) → Answers (Spans (p ∷ ps) ss) (first_tail try ss)
  unfolding first_tail
  tails-Answers p ps try e right [] = carried (try []) (leave e) (leave_inv e) (right [])
  tails-Answers p ps try e right (s ∷ ss) =
      or_else (try (s ∷ ss)) (first_tail try ss) (leave e) (span e) (span_inv e) (right (s ∷ ss))
        (tails-Answers p ps try e right ss)

  -- One segment of the pattern against the path, `rest` being the answer about what follows.
  segment-Answers :
      (p : String) (ps segs : List String) (rest : List String → Option Bool)
      → str_eq p "**" ≡ false
      → ((s : String) → match_one p s ≢ none)
      → ((ss : List String) → Answers (Spans ps ss) (rest ss))
      → Answers (Spans (p ∷ ps) segs) (elim segs [
        | [] ↦ some false
        | s ∷ ss ↦ elim (match_one p s) [ some true ↦ rest ss | answer ↦ answer ]
      ])
  segment-Answers p ps [] rest e valid right = no_segments e
  segment-Answers p ps (s ∷ ss) rest e valid right =
      and_then (match_one p s) (rest ss) (valid s) (segment e) (segment_inv e) (right ss)

  -- On a pattern with no malformed segment, matchSegments returns without error, and yes exactly if
  -- the path matches.
  pub match_segments-Answers :
      (ps : List String) (segs : List String)
      → WellFormed ps
      → Answers (Spans ps segs) (match_segments match_one ps segs)
  unfolding match_segments
  match_segments-Answers [] [] v = done
  match_segments-Answers [] (s ∷ ss) v = λ d. elim d [ ]
  match_segments-Answers (p ∷ []) segs v = elim (Bool-cases (str_eq p "**")) [
    | inl e ↦ rw (e, match_segments) (span_all segs e)
    | inr e ↦
        rw (e, match_segments)
          (segment-Answers p [] segs (match_segments match_one []) e (v.0 e)
            (λ ss. match_segments-Answers [] ss tt))
  ]
  match_segments-Answers (p ∷ q ∷ ps) segs v = elim (Bool-cases (str_eq p "**")) [
    | inl e ↦
        rw (e, match_segments)
          (tails-Answers p (q ∷ ps) (match_segments match_one (q ∷ ps)) e
            (λ ss. match_segments-Answers (q ∷ ps) ss v.1) segs)
    | inr e ↦
        rw (e, match_segments)
          (segment-Answers p (q ∷ ps) segs (match_segments match_one (q ∷ ps)) e (v.0 e)
            (λ ss. match_segments-Answers (q ∷ ps) ss v.1))
  ]
