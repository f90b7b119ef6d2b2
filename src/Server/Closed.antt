-- ===== src/Server/Closed.antt =====
-- A server that is to ask for credentials does.
use redrill.Prelude.{
  ◌≡◌, refl, String, Bool, true, false, not, ◌&&◌, ◌||◌, Option, none, some, List, [], ◌∷◌, str_eq,
  arith,
}
use redrill.Text.{trim_space}
use redrill.Config.{is_set}
use redrill.Checks.{got}
use redrill.Server.{
  Host, Settings, Credentials, Request, Users, Route, healthz, metrics, ui, drills, drill_runs,
  one_run, trigger, check, new_credentials, valid, bearer_token, authenticate, require_auth, admits,
}

-- Whether a setting asks for credentials.
abbrev pub is_asked : Settings → Bool
is_asked cfg =
    not
      (str_eq cfg.basic_auth_file "" && str_eq cfg.basic_auth_env "" && str_eq cfg.api_keys_env "")

-- A request without credentials.
abbrev pub anonymous : Request
anonymous = record { authorization = ""; x_api_key = ""; basic = none }

-- Whether a route needs credentials: those of the API, and all but the liveness probe with the scope `all`.
abbrev pub is_guarded : String → Route → Bool
is_guarded scope healthz = false
is_guarded scope metrics = str_eq scope "all"
is_guarded scope ui = str_eq scope "all"
is_guarded scope _ = true

module _ (host : Host) where
  -- What New loads has users or keys, if a setting asks for them.
  new_credentials-set :
      (cfg : Settings) (c : Credentials)
      → new_credentials host cfg ≡ got c
      → is_asked cfg ≡ true
      → (is_set c.users || is_set c.keys) ≡ true
  unfolding new_credentials
  new_credentials-set cfg c e h = ground arith

  no_token : (ks : List String) → valid host ks "" ≡ false
  unfolding valid
  no_token [] = refl
  no_token (k ∷ ks) = refl

  key_test :
      (keys : Option (List String))
      → (elim keys [ none ↦ false | some ks ↦ valid host ks "" ]) ≡ false
  key_test none = refl
  key_test (some ks) = no_token ks

  password_test :
      (users : Option Users)
      → (elim users [
        | none ↦ false
        | some us ↦ elim anonymous.basic [
          | none ↦ false
          | some (user, pass) ↦ check host us user pass
        ]
      ])
        ≡ false
  password_test none = refl
  password_test (some us) = refl

  anonymous-refused : (c : Credentials) → authenticate host c anonymous ≡ false
  unfolding authenticate bearer_token trim_space
  anonymous-refused c = rw (key_test c.keys, password_test c.users) refl

  require_auth-anonymous :
      (c : Credentials)
      → (is_set c.users || is_set c.keys) ≡ true
      → require_auth host c anonymous ≡ false
  unfolding require_auth
  require_auth-anonymous c h = let refused = anonymous-refused c in ground (arith, refused)

  guarded-anonymous :
      (c : Credentials) (scope : String) (route : Route)
      → require_auth host c anonymous ≡ false
      → is_guarded scope route ≡ true
      → admits host c scope route anonymous ≡ false
  unfolding admits
  guarded-anonymous c scope healthz r g = ground arith
  guarded-anonymous c scope metrics r g = ground arith
  guarded-anonymous c scope ui r g = ground arith
  guarded-anonymous c scope drills r g = r
  guarded-anonymous c scope drill_runs r g = r
  guarded-anonymous c scope one_run r g = r
  guarded-anonymous c scope trigger r g = r

  -- If a setting asks for credentials and the server starts, then a request without credentials reaches no
  -- handler of a route that needs them: the API's, and with the scope `all` every one but the liveness
  -- probe.
  pub admits-anonymous :
      (cfg : Settings) (c : Credentials) (route : Route)
      → new_credentials host cfg ≡ got c
      → is_asked cfg ≡ true
      → is_guarded cfg.auth_scope route ≡ true
      → admits host c cfg.auth_scope route anonymous ≡ false
  admits-anonymous cfg c route e h g =
      guarded-anonymous c cfg.auth_scope route
        (require_auth-anonymous c (new_credentials-set cfg c e h)) g
