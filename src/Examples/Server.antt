-- ===== src/Examples/Server.antt =====
-- A server with an API key; an engine that is run at idle priority.
use redrill.Prelude.{◌≡◌, refl, true, false, none, some, [], ◌∷◌}
use redrill.Text.{trim_space, fields_by}
use redrill.Checks.{got, broke}
use redrill.Server.{Host, Settings, Credentials, drills, new_credentials, api_keys_from_env, admits}
use redrill.Server.Closed.{anonymous, admits-anonymous}

abbrev some_host : Host
some_host = record {
  read_file = λ p. broke "no such file";
  getenv = λ n. "k1,k2";
  lines = λ s. s ∷ [];
  hash_password = λ p. got p;
  has_hash = λ h p. true;
}

abbrev keyed : Settings
keyed = record { basic_auth_file = ""; basic_auth_env = ""; api_keys_env = "KEYS"; auth_scope = "" }

abbrev two_keys : Credentials
two_keys = record { users = none; keys = some ("k1" ∷ "k2" ∷ []) }

keyed_lem : new_credentials some_host keyed ≡ got two_keys
unfolding new_credentials api_keys_from_env trim_space fields_by
keyed_lem = refl

admits-anonymous_example : admits some_host two_keys "" drills anonymous ≡ false
admits-anonymous_example = admits-anonymous some_host keyed two_keys drills keyed_lem refl refl
