-- ===== src/Exec/Secrets.antt =====
-- internal/exec/exec.go and io.go: the secrets of a source, and the command that runs an engine. Files,
-- the environment and url.Parse are parameters.
use Prim.Native.String.{◌++◌ as str_append}
use redrill.Prelude.{
  String, Bool, true, false, not, ◌&&◌, ◌||◌, Option, none, some, List, [], ◌∷◌, ◌++◌, str_eq, ◌==◌,
  if◌then◌else◌,
}
use redrill.Prelude.Int.{ℤ, pos, negsuc, leb_ℤ}
use redrill.Text.{trim_space, split_on, has_prefix, trim_prefix, cut, trim_of}
use redrill.Checks.{Answer, got, broke}

module _ (read_file : String → Answer String) (getenv : String → String) where
  -- resolveSecret
  unfoldable pub resolve_secret : String → String → Answer String
  unfolding trim_of
  resolve_secret file env =
      if not (str_eq file "")
      then elim (read_file file) [
        | broke why ↦ broke (str_append "read secret file " (str_append file (str_append ": " why)))
        | got b ↦ got (trim_of false (λ n. n == 13 || n == 10) b)
      ]
      else if not (str_eq env "")
      then got (getenv env)
      else got ""

abbrev pub set_key : String → String → List (String × String) → List (String × String)
set_key k v [] = (k, v) ∷ []
set_key k v ((j, u) ∷ rest) =
    let further = set_key k v rest in if str_eq j k then (k, v) ∷ rest else (j, u) ∷ further

-- A line of an environment file: its key and value, if it sets one.
abbrev pub env_line : String → Option (String × String)
env_line text =
    let line = trim_space text in
    if str_eq line "" || has_prefix "#" line
    then none
    else elim (cut b'=' (trim_prefix "export " line)) [
      | none ↦ none
      | some (k, v) ↦
          if str_eq (trim_space k) ""
          then none
          else some (trim_space k, trim_of true (λ n. n == 34 || n == 39) (trim_space v))
    ]

abbrev pub env_lines : List String → List (String × String) → List (String × String)
env_lines [] env = env
env_lines (l ∷ ls) env = elim (env_line l) [
  | none ↦ env_lines ls env
  | some (k, v) ↦ env_lines ls (set_key k v env)
]

-- parseEnvFile
unfoldable pub parse_env_file : String → List (String × String)
parse_env_file s = env_lines (split_on 10 s) []

-- IOPolicy, less the bandwidth
pub record IoPolicy : Type 0 where
  pub nice_cpu : ℤ
  pub io_class : String

-- ioClassNum
unfoldable pub io_class_num : String → ℤ
io_class_num cls =
    if str_eq cls "idle" then pos 3 else if str_eq cls "best-effort" then pos 2 else negsuc 0

abbrev pub is_zero_int : ℤ → Bool
is_zero_int n = leb_ℤ n (pos 0) && leb_ℤ (pos 0) n

-- wraps
unfoldable pub wraps : IoPolicy → Bool
unfolding io_class_num
wraps p = not (is_zero_int p.nice_cpu) || leb_ℤ (pos 0) (io_class_num p.io_class)

module _ (itoa : ℤ → String) where
  abbrev pub io_prefix : IoPolicy → List String
  io_prefix p =
      (if is_zero_int p.nice_cpu then [] else "nice" ∷ "-n" ∷ itoa p.nice_cpu ∷ [])
      ++ (if leb_ℤ (pos 0) (io_class_num p.io_class)
          then "ionice" ∷ "-c" ∷ itoa (io_class_num p.io_class) ∷ []
          else [])

  abbrev prefixed : List String → String → List String → String × List String
  prefixed [] name args = (name, args)
  prefixed (w ∷ ws) name args = (w, ws ++ name ∷ args)

  -- decorate
  unfoldable pub decorate : IoPolicy → String → List String → String × List String
  unfolding io_class_num
  decorate p name args = prefixed (io_prefix p) name args
