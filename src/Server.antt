-- ===== src/Server.antt =====
-- internal/server/auth.go and server.go: who may call the HTTP API. Files, the environment, the lines of
-- bufio.Scanner and bcrypt are parameters; a map of users is an association list.
pub mod Closed
use Prim.Native.String.{◌++◌ as str_append, ◌∷◌ as cons_char, len, slice}
use redrill.Prelude.{
  ℕ, ◌+◌, String, Bool, true, false, not, ◌&&◌, ◌||◌, Option, none, some, List, [], ◌∷◌, ◌++◌,
  str_eq, ◌==◌, if◌then◌else◌,
}
use redrill.Text.{trim_space, has_prefix, cut, fields_by}
use redrill.Checks.{Answer, got, broke}

abbrev pub Users : Type 0
Users = List (String × String)

-- What the environment, the file system and bcrypt give: the lines of a file and the error that ends
-- them, a variable, the lines of a text, the hash of a password, and whether a password has a hash.
pub record Host : Type 0 where
  pub read_file : String → Answer (List String × Option String)
  pub getenv : String → String
  pub lines : String → List String
  pub hash_password : String → Answer String
  pub has_hash : String → String → Bool

-- isBcrypt
unfoldable pub is_bcrypt : String → Bool
is_bcrypt hash = has_prefix "$2a$" hash || has_prefix "$2b$" hash || has_prefix "$2y$" hash

abbrev pub set_user : String → String → Users → Users
set_user user hash [] = (user, hash) ∷ []
set_user user hash ((u, h) ∷ rest) =
    let further = set_user user hash rest in
    if str_eq u user then (u, hash) ∷ rest else (u, h) ∷ further

-- A line of an entry: nothing, a name and what follows the colon, or no entry.
abbrev pub entry : String → Answer (Option (String × String))
entry text =
    let t = trim_space text in
    if str_eq t "" || has_prefix "#" t then got none else elim (cut b':' t) [
      | none ↦ broke "not an entry"
      | some (user, rest) ↦
          if str_eq user "" || str_eq rest "" then broke "not an entry" else got (some (user, rest))
    ]

-- The entries of some lines, each with what `hash_of` makes of it.
abbrev pub add_entries : (String → Answer String) → List String → Users → Answer Users
add_entries hash_of [] users = got users
add_entries hash_of (l ∷ ls) users = elim (entry l) [
  | broke why ↦ broke why
  | got none ↦ add_entries hash_of ls users
  | got (some (user, rest)) ↦ elim (hash_of rest) [
    | broke why ↦ broke why
    | got hash ↦ add_entries hash_of ls (set_user user hash users)
  ]
]

-- No user is an error.
abbrev pub some_users : String → Answer Users → Answer Users
some_users why (broke e) = broke e
some_users why (got []) = broke why
some_users why (got (u ∷ us)) = got (u ∷ us)

-- The settings that New reads, empty where they are not set.
pub record Settings : Type 0 where
  pub basic_auth_file : String
  pub basic_auth_env : String
  pub api_keys_env : String
  pub auth_scope : String

-- The credentials of a server: auth and apiKeys, nil where they are not configured.
pub record Credentials : Type 0 where
  pub users : Option Users
  pub keys : Option (List String)

-- A request: its two headers, and the pair that BasicAuth reads.
pub record Request : Type 0 where
  pub authorization : String
  pub x_api_key : String
  pub basic : Option (String × String)

module _ (host : Host) where
  abbrev pub after_scan : Option String → Answer Users → Answer Users
  after_scan e (broke why) = broke why
  after_scan none (got users) = got users
  after_scan (some why) (got users) = broke why

  -- loadHtpasswd
  unfoldable pub load_htpasswd : String → Answer Users
  unfolding is_bcrypt
  load_htpasswd path = elim (host.read_file path) [
    | broke why ↦ broke why
    | got (lines, fault) ↦ some_users "no usable entries" (
        after_scan fault
          (add_entries (λ h. if is_bcrypt h then got h else broke "unsupported hash") lines []))
  ]

  -- basicAuthFromEnv
  unfoldable pub basic_auth_from_env : String → Answer Users
  basic_auth_from_env content =
      some_users "no user:password entries" (add_entries host.hash_password (host.lines content) [])

  -- apiKeysFromEnv
  unfoldable pub api_keys_from_env : String → Answer (List String)
  api_keys_from_env content =
      elim (fields_by (λ n. n == 10 || n == 13 || n == b',' || n == 32 || n == 9) content) [
        | [] ↦ broke "no keys"
        | k ∷ ks ↦ got (k ∷ ks)
      ]

  -- valid
  unfoldable pub valid : List String → String → Bool
  valid [] token = false
  valid (k ∷ ks) token = not (str_eq token "") && (str_eq k token || valid ks token)

  abbrev pub file_users : String → Answer (Option Users)
  file_users path =
      if str_eq path ""
      then got none
      else elim (load_htpasswd path) [ broke why ↦ broke why | got us ↦ got (some us) ]

  abbrev pub merge : Users → Users → Users
  merge [] users = users
  merge ((u, h) ∷ rest) users = merge rest (set_user u h users)

  abbrev pub joined : Option Users → Users → Users
  joined none env = env
  joined (some us) env = merge env us

  abbrev pub env_users : String → Option Users → Answer (Option Users)
  env_users name users =
      if str_eq name ""
      then got users
      else if str_eq (trim_space (host.getenv name)) ""
      then broke "basic_auth_env is empty or unset"
      else elim (basic_auth_from_env (host.getenv name)) [
        | broke why ↦ broke why
        | got env ↦ got (some (joined users env))
      ]

  abbrev pub env_keys : String → Answer (Option (List String))
  env_keys name =
      if str_eq name ""
      then got none
      else if str_eq (trim_space (host.getenv name)) ""
      then broke "api_keys_env is empty or unset"
      else elim (api_keys_from_env (host.getenv name)) [
        | broke why ↦ broke why
        | got ks ↦ got (some ks)
      ]

  -- The credentials that New loads.
  unfoldable pub new_credentials : Settings → Answer Credentials
  unfolding load_htpasswd basic_auth_from_env api_keys_from_env
  new_credentials cfg = elim (file_users cfg.basic_auth_file) [
    | broke why ↦ broke why
    | got from_file ↦ elim (env_users cfg.basic_auth_env from_file) [
      | broke why ↦ broke why
      | got users ↦ elim (env_keys cfg.api_keys_env) [
        | broke why ↦ broke why
        | got keys ↦ got (record { users = users; keys = keys })
      ]
    ]
  ]

  -- bearerToken
  unfoldable pub bearer_token : Request → String
  bearer_token r =
      if has_prefix "Bearer " r.authorization
      then trim_space (slice r.authorization 7 (len r.authorization))
      else trim_space r.x_api_key

  abbrev pub hash_of_user : String → Users → Option String
  hash_of_user user [] = none
  hash_of_user user ((u, h) ∷ rest) = if str_eq u user then some h else hash_of_user user rest

  -- check
  unfoldable pub check : Users → String → String → Bool
  check users user pass = elim (hash_of_user user users) [
    | none ↦ false
    | some h ↦ host.has_hash h pass
  ]

  abbrev pub by_key : Credentials → Request → Bool
  by_key c r = elim c.keys [ none ↦ false | some ks ↦ valid ks (bearer_token r) ]

  abbrev pub by_password : Credentials → Request → Bool
  by_password c r = elim c.users [
    | none ↦ false
    | some us ↦ elim r.basic [ none ↦ false | some (user, pass) ↦ check us user pass ]
  ]

  -- authenticate
  unfoldable pub authenticate : Credentials → Request → Bool
  unfolding valid bearer_token check
  authenticate c r = by_key c r || by_password c r

  -- requireAuth: whether the handler is called
  unfoldable pub require_auth : Credentials → Request → Bool
  unfolding authenticate
  require_auth c r = elim c.users [
    | none ↦ elim c.keys [ none ↦ true | some ks ↦ authenticate c r ]
    | some us ↦ authenticate c r
  ]

-- The routes of Handler.
pub data Route : Type 0 where
  healthz metrics drills drill_runs one_run trigger ui : Route

module _ (host : Host) where
  -- Handler and gateExtra: whether the handler of a route is called
  unfoldable pub admits : Credentials → String → Route → Request → Bool
  unfolding require_auth
  admits c scope healthz r = true
  admits c scope metrics r = if str_eq scope "all" then require_auth host c r else true
  admits c scope ui r = if str_eq scope "all" then require_auth host c r else true
  admits c scope drills r = require_auth host c r
  admits c scope drill_runs r = require_auth host c r
  admits c scope one_run r = require_auth host c r
  admits c scope trigger r = require_auth host c r
