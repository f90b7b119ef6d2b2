-- ===== src/Redact.antt =====
-- internal/redact/redact.go: the secrets that a step has registered, and the text without them. The
-- regular expression of names that bear secrets, and strings.NewReplacer, are parameters.
pub mod Order
use Prim.Native.String.{len}
use redrill.Prelude.{
  ℕ, ◌≤◌, ◌≡◌, refl, String, Bool, true, false, not, ◌||◌, List, [], ◌∷◌, map, All, str_eq,
  if◌then◌else◌, ltb, leb, arith,
}
use redrill.Text.{trim_space}

-- What names look secret, and what a text becomes by replacing pairs, earlier pairs first.
pub record Redaction : Type 0 where
  pub looks_secret : String → Bool
  pub replace : List (String × String) → String → String

-- Placeholder
abbrev pub placeholder : String
placeholder = "[REDACTED]"

abbrev pub mem : String → List String → Bool
mem s [] = false
mem s (t ∷ ts) = str_eq s t || mem s ts

-- AddSecret; the map is the list of its keys.
unfoldable pub add_secret : String → List String → List String
add_secret value secrets =
    if str_eq (trim_space value) ""
    then secrets
    else if mem value secrets
    then secrets
    else value ∷ secrets

-- AddEnv
unfoldable pub add_env : Redaction → String → String → List String → List String
unfolding add_secret
add_env red name value secrets = if red.looks_secret name then add_secret value secrets else secrets

-- The order of replacerLocked: longest first, by the bytes of the UTF-8, which `len` counts.
abbrev pub insert : String → List String → List String
insert s [] = s ∷ []
insert s (t ∷ ts) = let rest = insert s ts in if ltb (len s) (len t) then t ∷ rest else s ∷ t ∷ ts

unfoldable pub longest_first : List String → List String
longest_first [] = []
longest_first (s ∷ ss) = insert s (longest_first ss)

-- Redact
unfoldable pub redact : Redaction → List String → String → String
unfolding longest_first
redact red [] s = s
redact red (x ∷ xs) s = red.replace (map (λ v. (v, placeholder)) (longest_first (x ∷ xs))) s
