-- ===== src/Checks/Glob.antt =====
-- internal/checks/filecount.go: matchGlob and matchSegments, and validGlob of internal/config/check.go.
-- `path.Match` on one segment is a parameter: `none` is ErrBadPattern.
pub mod Spans
pub mod Validated
use redrill.Prelude.{
  ℕ, ◌≡◌, ◌≢◌, refl, sym, ◌∙◌, ap, ◌↔◌, ◌⊎◌, inl, inr, String, Bool, true, false, not, ◌&&◌, ◌||◌,
  Option, none, some, List, [], ◌∷◌, str_eq, eq_iff, if◌then◌else◌, arith, Option-cases, Bool-cases,
}
use redrill.Text.{split_on, has_byte}

-- The last segment of a relative path: path.Base.
abbrev pub last_of : String → List String → String
last_of s [] = s
last_of s (t ∷ ts) = last_of t ts

-- The first `true`, or the first error, among the tails of a list, the whole list included.
unfoldable pub first_tail : (List String → Option Bool) → List String → Option Bool
first_tail try [] = try []
first_tail try (s ∷ ss) = elim (try (s ∷ ss)) [ some false ↦ first_tail try ss | answer ↦ answer ]

module _ (match_one : String → String → Option Bool) where
  -- matchSegments
  unfoldable pub match_segments : List String → List String → Option Bool
  unfolding first_tail
  match_segments [] [] = some true
  match_segments [] (s ∷ ss) = some false
  match_segments (p ∷ []) segs = elim (str_eq p "**") [
    | true ↦ some true
    | false ↦ elim segs [
      | [] ↦ some false
      | s ∷ ss ↦ elim (match_one p s) [ some true ↦ match_segments [] ss | answer ↦ answer ]
    ]
  ]
  match_segments (p ∷ q ∷ ps) segs = elim (str_eq p "**") [
    | true ↦ first_tail (match_segments (q ∷ ps)) segs
    | false ↦ elim segs [
      | [] ↦ some false
      | s ∷ ss ↦ elim (match_one p s) [ some true ↦ match_segments (q ∷ ps) ss | answer ↦ answer ]
    ]
  ]

  -- matchGlob
  unfoldable pub match_glob : String → String → Option Bool
  match_glob pattern rel =
      if has_byte b'/' pattern
      then match_segments (split_on b'/' pattern) (split_on b'/' rel)
      else match_one pattern (last_of rel (split_on b'/' rel))
