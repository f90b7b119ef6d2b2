-- ===== src/Redact/Order.antt =====
-- What the redactor replaces where several secrets begin, and which texts become secrets.
use Prim.Native.String.{len, ◌++◌ as str_append}
use Prim.Native.String.append.{cons}
use redrill.Prelude.{
  ℕ, ◌≤◌, ◌<◌, ◌≡◌, ◌∙◌, refl, sym, String, true, false, ◌||◌, ◌&&◌, not, Option, none, some, List,
  [], ◌∷◌, All, map, str_eq, eq_iff, ltb, arith, inl, inr, ◌⊎◌, Bool-cases, if◌then◌else◌,
}
use redrill.Text.{trim_space, has_prefix}
use redrill.Redact.{Redaction, mem, insert, longest_first, redact, placeholder, add_secret, add_env}

-- Each secret is at least as long as those after it.
abbrev Descending : List String → Type 0
Descending [] = Unit
Descending (s ∷ ss) = All (λ t. len t ≤ len s) ss × Descending ss

All-insert :
    (n : ℕ) (s : String) (ss : List String)
    → len s ≤ n
    → All (λ t. len t ≤ n) ss
    → All (λ t. len t ≤ n) (insert s ss)
All-insert n s [] h a = (h, tt)
All-insert n s (t ∷ ts) h a = elim (Bool-cases (ltb (len s) (len t))) [
  | inl e ↦ rw (e) (a.0, All-insert n s ts h a.1)
  | inr e ↦ rw (e) (h, a)
]

All-weaken :
    (m n : ℕ) (ss : List String) → m ≤ n → All (λ t. len t ≤ m) ss → All (λ t. len t ≤ n) ss
All-weaken m n [] h a = tt
All-weaken m n (s ∷ ss) h a = (omega (arith, a.0), All-weaken m n ss h a.1)

insert-Descending : (s : String) (ss : List String) → Descending ss → Descending (insert s ss)
insert-Descending s [] d = (tt, tt)
insert-Descending s (t ∷ ts) d = elim (Bool-cases (ltb (len s) (len t))) [
  | inl e ↦ rw (e) (All-insert (len t) s ts (ground arith) d.0, insert-Descending s ts d.1)
  | inr e ↦
      rw (e) (let h : len t ≤ len s = ground arith in ((h, All-weaken (len t) (len s) ts h d.0), d))
]

longest_first-Descending : (ss : List String) → Descending (longest_first ss)
unfolding longest_first
longest_first-Descending [] = tt
longest_first-Descending (s ∷ ss) =
    insert-Descending s (longest_first ss) (longest_first-Descending ss)

mem-insert : (x s : String) (ss : List String) → mem x (insert s ss) ≡ (str_eq x s || mem x ss)
mem-insert x s [] = refl
mem-insert x s (t ∷ ts) = ground (arith, mem-insert x s ts)

mem-longest_first : (x : String) (ss : List String) → mem x (longest_first ss) ≡ mem x ss
unfolding longest_first
mem-longest_first x [] = refl
mem-longest_first x (s ∷ ss) =
    ground (arith, mem-insert x s (longest_first ss), mem-longest_first x ss)

-- The first of the pairs whose old text begins a text.
abbrev pub first_match : List (String × String) → String → Option (String × String)
first_match [] text = none
first_match (p ∷ ps) text = if has_prefix p.0 text then some p else first_match ps text

abbrev redacted_pairs : List String → List (String × String)
redacted_pairs = map (λ v. (v, placeholder))

mem-All :
    (n : ℕ) (v : String) (ss : List String) → All (λ t. len t ≤ n) ss → mem v ss ≡ true → len v ≤ n
mem-All n v [] a e = ground arith
mem-All n v (s ∷ ss) a e = elim (Bool-cases (str_eq v s)) [
  | inl same ↦ ground (arith, eq_iff v s, a.0)
  | inr other ↦ mem-All n v ss a.1 (ground arith)
]

-- In a list with the longest first, the longest one that begins a text is the first that does.
first_match-longest :
    (v text : String) (ss : List String)
    → Descending ss
    → mem v ss ≡ true
    → has_prefix v text ≡ true
    → ((u : String)
        → mem u ss ≡ true
        → has_prefix u text ≡ true
        → (str_eq u v ≡ true) ⊎ (len u < len v))
    → first_match (redacted_pairs ss) text ≡ some (v, placeholder)
first_match-longest v text [] d m p longest = ground arith
first_match-longest v text (s ∷ ss) d m p longest = elim (Bool-cases (has_prefix s text)) [
  | inr e ↦
      let there : mem v ss ≡ true = ground (arith, eq_iff v s) in
      rw (e) (first_match-longest v text ss d.1 there p (λ u k h. longest u (ground (arith, k)) h))
  | inl e ↦ elim (longest s (ground (arith, eq_iff s s)) e) [
    | inl same ↦ let t : s ≡ v = ground (arith, eq_iff s v) in rw (e, t) refl
    | inr less ↦ ground (arith, mem-All (len s) v ss d.0, eq_iff v s, less)
  ]
]

has_prefix-append : (v rest : String) → has_prefix v (str_append v rest) ≡ true
has_prefix-append String.[] rest = refl
has_prefix-append (String.◌∷◌ c v) rest =
    rw (cons c v rest) (ground (arith, has_prefix-append v rest))

-- Where a secret begins that is longer than every other secret that begins there, the redactor replaces it
-- whole by the placeholder and goes on after it, whatever the order in which the secrets were
-- registered: a secret that begins with another is not left in part. Of strings.NewReplacer it is assumed
-- that it replaces, where the first old text in the order of its arguments is found, that text, and
-- then goes on after it.
pub redact-longest :
    (red : Redaction)
    → ((pairs : List (String × String)) (old new rest : String)
        → str_eq old "" ≡ false
        → first_match pairs (str_append old rest) ≡ some (old, new)
        → red.replace pairs (str_append old rest) ≡ str_append new (red.replace pairs rest))
    → (ss : List String) (v rest : String) → str_eq v "" ≡ false
    → mem v ss ≡ true
    → ((u : String)
        → mem u ss ≡ true
        → has_prefix u (str_append v rest) ≡ true
        → (str_eq u v ≡ true) ⊎ (len u < len v))
    → redact red ss (str_append v rest) ≡ str_append placeholder (redact red ss rest)
unfolding redact
redact-longest red in_order [] v rest some_text m longest = ground arith
redact-longest red in_order (s ∷ ss) v rest some_text m longest =
    let sorted = longest_first (s ∷ ss) in
    in_order (redacted_pairs sorted) v placeholder rest some_text (
      first_match-longest v (str_append v rest) sorted (longest_first-Descending (s ∷ ss))
        (mem-longest_first v (s ∷ ss) ∙ m) (has_prefix-append v rest)
        (λ u k. longest u (sym (mem-longest_first u (s ∷ ss)) ∙ k)))

-- After a variable of the environment is registered, the secrets are those that there were, and its
-- value if its name looks secret and the value is not blank.
pub mem-add_env :
    (red : Redaction) (name value : String) (ss : List String) (x : String)
    → mem x (add_env red name value ss) ≡ (
        mem x ss || (red.looks_secret name && str_eq x value && not (str_eq (trim_space value) "")))
unfolding add_env add_secret
mem-add_env red name value ss x = ground (arith, eq_iff x value)
