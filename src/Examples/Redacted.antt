-- ===== src/Examples/Redacted.antt =====
-- A replacer that reads a text from its start, and two secrets of which one begins with the other.
use Prim.Native.String.{len, ◌++◌ as str_append}
use Prim.Native.String.append.{nil, cons}
use redrill.Prelude.{
  ℕ, zero, suc, ◌<◌, ◌≡◌, refl, ap, String, true, false, none, some, List, [], ◌∷◌, str_eq, eq_iff,
  arith, inl, inr, ◌⊎◌, Bool-cases,
}
use redrill.Text.{has_prefix}
use redrill.Redact.{Redaction, mem, redact, placeholder}
use redrill.Redact.Order.{first_match, redact-longest}

abbrev letters : String → ℕ
letters String.[] = 0
letters (String.◌∷◌ c s) = suc (letters s)

-- The letters after the first.
abbrev letters_left : String → ℕ
letters_left String.[] = 0
letters_left (String.◌∷◌ c s) = letters s

-- The text after some letters that are skipped; a text that is matched is replaced and skipped.
abbrev replaced : List (String × String) → ℕ → String → String
replaced pairs n String.[] = ""
replaced pairs (suc n) (String.◌∷◌ c s) = replaced pairs n s
replaced pairs zero (String.◌∷◌ c s) = elim (first_match pairs (String.◌∷◌ c s)) [
  | none ↦ String.◌∷◌ c (replaced pairs 0 s)
  | some (old, new) ↦ str_append new (replaced pairs (letters_left old) s)
]

skipped :
    (pairs : List (String × String)) (old rest : String)
    → replaced pairs (letters old) (str_append old rest) ≡ replaced pairs 0 rest
skipped pairs String.[] rest = rw (nil rest) refl
skipped pairs (String.◌∷◌ c old) rest = rw (cons c old rest) (skipped pairs old rest)

replaced_first :
    (pairs : List (String × String)) (old new rest : String)
    → str_eq old "" ≡ false
    → first_match pairs (str_append old rest) ≡ some (old, new)
    → replaced pairs 0 (str_append old rest) ≡ str_append new (replaced pairs 0 rest)
replaced_first pairs String.[] new rest e f = ground arith
replaced_first pairs (String.◌∷◌ c old) new rest e f =
    let g : first_match pairs (String.◌∷◌ c (str_append old rest)) ≡ some (String.◌∷◌ c old, new) =
      rw⁻¹ (cons c old rest) f in
    rw (cons c old rest, replaced, g) (ap (λ t. str_append new t) (skipped pairs old rest))

abbrev some_redaction : Redaction
some_redaction = record { looks_secret = λ n. true; replace = λ pairs text. replaced pairs 0 text }

only_longer :
    (u : String)
    → mem u ("ab" ∷ "abc" ∷ []) ≡ true
    → has_prefix u (str_append "abc" "d") ≡ true
    → (str_eq u "abc" ≡ true) ⊎ (len u < len "abc")
only_longer u m p = elim (Bool-cases (str_eq u "ab")) [
  | inl e ↦ let same : u ≡ "ab" = ground (arith, eq_iff u "ab") in inr (rw (same) (omega arith))
  | inr e ↦ inl (ground arith)
]

redact-longest_example :
    redact some_redaction ("ab" ∷ "abc" ∷ []) (str_append "abc" "d")
    ≡ str_append placeholder (redact some_redaction ("ab" ∷ "abc" ∷ []) "d")
redact-longest_example =
    redact-longest some_redaction replaced_first ("ab" ∷ "abc" ∷ []) "abc" "d" refl refl only_longer
