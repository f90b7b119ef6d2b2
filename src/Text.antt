-- ===== src/Text.antt =====
-- The functions of Go's `strings`, `strconv` and `path` that the program calls, on the native texts.
-- A separator is one ASCII character, given by its number.
use Prim.Native.Char.{Char, code}
use Prim.Native.String.{String, len, slice}
use redrill.Prelude.{
  ℕ, zero, suc, ◌+◌, ◌-◌, ◌*◌, ◌≡◌, refl, Bool, true, false, ◌&&◌, ◌||◌, Option, none, some, List,
  [], ◌∷◌, str_eq, leb, ◌==◌, if◌then◌else◌, arith,
}
use redrill.Prelude.Int.{ℤ, pos, negsuc, max_int64}

-- One character before the first of some texts.
abbrev pub push : Char → List String → List String
push c [] = (String.◌∷◌ c String.[]) ∷ []
push c (s ∷ ss) = String.◌∷◌ c s ∷ ss

-- strings.Split
unfoldable pub split_on : ℕ → String → List String
split_on k String.[] = "" ∷ []
split_on k (String.◌∷◌ c s) =
    let rest = split_on k s in if code c == k then "" ∷ rest else push c rest

-- strings.Contains, of a separator
unfoldable pub has_byte : ℕ → String → Bool
has_byte k String.[] = false
has_byte k (String.◌∷◌ c s) = code c == k || has_byte k s

-- A text without the separator is one piece.
pub split_on-single : (k : ℕ) (s : String) → has_byte k s ≡ false → split_on k s ≡ s ∷ []
unfolding split_on has_byte
split_on-single k String.[] h = refl
split_on-single k (String.◌∷◌ c s) h = ground (arith, split_on-single k s)

-- unicode.IsSpace
abbrev pub is_space_code : ℕ → Bool
is_space_code n =
    leb 9 n && leb n 13
    || n == 32
    || n == 133
    || n == 160
    || n == 5760
    || leb 8192 n && leb n 8202
    || n == 8232
    || n == 8233
    || n == 8239
    || n == 8287
    || n == 12288

abbrev pub is_space : Char → Bool
is_space c = is_space_code (code c)

abbrev pub trim_left : String → String
trim_left String.[] = ""
trim_left (String.◌∷◌ c s) = let rest = trim_left s in if is_space c then rest else String.◌∷◌ c s

abbrev pub trim_right : String → String
trim_right String.[] = ""
trim_right (String.◌∷◌ c s) =
    let rest = trim_right s in if is_space c && str_eq rest "" then "" else String.◌∷◌ c rest

-- strings.TrimSpace
unfoldable pub trim_space : String → String
trim_space s = trim_right (trim_left s)

-- strings.CutSuffix: what is before the suffix, if the text has it
unfoldable pub cut_suffix : String → String → Option String
cut_suffix t String.[] = if str_eq t "" then some "" else none
cut_suffix t (String.◌∷◌ c s) =
    let rest = cut_suffix t s in
    if str_eq (String.◌∷◌ c s) t
    then some ""
    else elim rest [ none ↦ none | some r ↦ some (String.◌∷◌ c r) ]

-- The word that a text begins with, empty before a space, and the words after it.
abbrev pub add_word : String × List String → List String
add_word (w, ws) = if str_eq w "" then ws else w ∷ ws

abbrev pub words : String → String × List String
words String.[] = ("", [])
words (String.◌∷◌ c s) =
    let (w, ws) = words s in if is_space c then ("", add_word (w, ws)) else (String.◌∷◌ c w, ws)

-- strings.Fields
unfoldable pub fields : String → List String
fields s = add_word (words s)

-- The number that digits spell, with what was read before them.
unfoldable pub digits : ℕ → String → Option ℕ
digits n String.[] = some n
digits n (String.◌∷◌ c s) =
    let rest = digits (10 * n + (code c - b'0')) s in
    if leb b'0' (code c) && leb (code c) b'9' then rest else none

-- An `int64` from a sign and a number, if it is in range.
abbrev pub signed : Bool → Option ℕ → Option ℤ
signed neg none = none
signed false (some n) = if leb n max_int64 then some (pos n) else none
signed true (some zero) = some (pos 0)
signed true (some (suc n)) = if leb n max_int64 then some (negsuc n) else none

abbrev pub digits_of : String → Option ℕ
digits_of s = if str_eq s "" then none else digits 0 s

-- strconv.Atoi
unfoldable pub atoi : String → Option ℤ
unfolding digits
atoi String.[] = none
atoi (String.◌∷◌ c s) =
    if code c == b'-'
    then signed true (digits_of s)
    else if code c == b'+'
    then signed false (digits_of s)
    else signed false (digits_of (String.◌∷◌ c s))

-- The first line of a text, up to the character 10.
abbrev pub before_newline : String → String
before_newline String.[] = ""
before_newline (String.◌∷◌ c s) =
    let rest = before_newline s in if code c == 10 then "" else String.◌∷◌ c rest

-- What is before the first of a character, and what is after the last, if there is one.
unfoldable pub before_byte : ℕ → String → String
before_byte k String.[] = ""
before_byte k (String.◌∷◌ c s) =
    let rest = before_byte k s in if code c == k then "" else String.◌∷◌ c rest

unfoldable pub after_last : ℕ → String → Option String
after_last k String.[] = none
after_last k (String.◌∷◌ c s) = elim (after_last k s) [
  | some r ↦ some r
  | none ↦ if code c == k then some s else none
]

-- The digits that a text begins with: the regular expression `^(\d+)`, empty where it does not match.
unfoldable pub leading_digits : String → String
leading_digits String.[] = ""
leading_digits (String.◌∷◌ c s) =
    let rest = leading_digits s in
    if leb b'0' (code c) && leb (code c) b'9' then String.◌∷◌ c rest else ""

-- The value of strconv.Atoi on digits, its error ignored: 0 for none, the greatest `int` past it.
unfoldable pub clamped : String → ℕ
unfolding digits
clamped s = elim (digits_of s) [ none ↦ 0 | some n ↦ if leb n max_int64 then n else max_int64 ]

-- strings.Trim by a set of characters, or strings.TrimRight if the left is kept.
abbrev pub drop_while : (ℕ → Bool) → String → String
drop_while p String.[] = ""
drop_while p (String.◌∷◌ c s) =
    let rest = drop_while p s in if p (code c) then rest else String.◌∷◌ c s

abbrev pub drop_end : (ℕ → Bool) → String → String
drop_end p String.[] = ""
drop_end p (String.◌∷◌ c s) =
    let rest = drop_end p s in if p (code c) && str_eq rest "" then "" else String.◌∷◌ c rest

unfoldable pub trim_of : Bool → (ℕ → Bool) → String → String
trim_of both p s = drop_end p (if both then drop_while p s else s)

-- strings.Cut at a character
unfoldable pub cut : ℕ → String → Option (String × String)
cut k String.[] = none
cut k (String.◌∷◌ c s) =
    let rest = cut k s in
    if code c == k
    then some ("", s)
    else elim rest [ none ↦ none | some (a, b) ↦ some (String.◌∷◌ c a, b) ]

-- strings.FieldsFunc
abbrev pub words_by : (ℕ → Bool) → String → String × List String
words_by sep String.[] = ("", [])
words_by sep (String.◌∷◌ c s) =
    let (w, ws) = words_by sep s in
    if sep (code c) then ("", add_word (w, ws)) else (String.◌∷◌ c w, ws)

unfoldable pub fields_by : (ℕ → Bool) → String → List String
fields_by sep s = add_word (words_by sep s)

-- strings.HasPrefix and strings.Contains
abbrev pub has_prefix : String → String → Bool
has_prefix String.[] s = true
has_prefix (String.◌∷◌ c t) String.[] = false
has_prefix (String.◌∷◌ c t) (String.◌∷◌ d s) = code c == code d && has_prefix t s

-- strings.TrimPrefix
abbrev pub trim_prefix : String → String → String
trim_prefix t s = if has_prefix t s then slice s (len t) (len s) else s

unfoldable pub contains : String → String → Bool
contains t String.[] = has_prefix t ""
contains t (String.◌∷◌ c s) = has_prefix t (String.◌∷◌ c s) || contains t s

split_slash : split_on b'/' "a/**/b" ≡ "a" ∷ "**" ∷ "b" ∷ []
unfolding split_on
split_slash = refl

atoi_neg : atoi "-12" ≡ some (negsuc 11)
unfolding atoi
atoi_neg = refl

fields_two : fields "  age <  8d " ≡ "age" ∷ "<" ∷ "8d" ∷ []
unfolding fields
fields_two = refl

cut_d : cut_suffix "d" "8d" ≡ some "8"
unfolding cut_suffix
cut_d = refl
