-- ===== src/Config.antt =====
-- internal/config/drill.go, internal/config/check.go and internal/config/source.go: the parts of
-- the configuration that the engine reads. A pointer field is an `Option`.
pub mod Validate
pub mod DrillRules
pub mod Checked
pub mod Units
use redrill.Prelude.{String, Bool, Option, List, ◌||◌, true, false}
use redrill.Prelude.Int.{ℤ}
use redrill.Clock.{Duration}

-- Retention
pub record Retention : Type 0 where
  pub max_age : Duration
  pub max_count : ℤ

-- L1
pub record L1 : Type 0 where
  pub native_check : Option Bool
  pub snapshot_max_age : Option Duration
  pub size_anomaly_pct : Option ℤ
  pub read_data_subset_pct : Option ℤ
  pub file_min_bytes : Option ℤ
  pub compression_test : Option Bool
  pub max_age : Option Duration

-- Sample
pub record Sample : Type 0 where
  pub files : ℤ
  pub newest : ℤ

-- Restore
pub record Restore : Type 0 where
  pub mode : String
  pub scope : String
  pub sample : Option Sample
  pub include_paths : List String

-- FileCountCheck
pub record FileCountCheck : Type 0 where
  pub glob : String
  pub min_size : ℤ
  pub expect : String

-- SQLCheck
pub record SqlCheck : Type 0 where
  pub query : String
  pub expect : String

-- Check: one field for each kind's payload, read by `kind`.
pub record Check : Type 0 where
  pub kind : String
  pub path : String
  pub hash_match : Bool
  pub newest_file_max_age : Duration
  pub file_count_tolerance_pct : ℤ
  pub min_total_bytes : ℤ
  pub sql : Option SqlCheck
  pub sql_no_error : String
  pub exec : String
  pub file_count : Option FileCountCheck
  pub tcp_port : ℤ
  pub entropy_anomaly : Bool

-- L2
pub record L2 : Type 0 where
  pub restore : Restore
  pub checks : List Check

-- Sandbox
pub record Sandbox : Type 0 where
  pub image : String
  pub env : List (String × String)
  pub network : String
  pub memory : ℤ
  pub timeout : Duration

-- L3
pub record L3 : Type 0 where
  pub extract_path : String
  pub sandbox : Sandbox
  pub load : String
  pub checks : List Check

-- Levels
pub record Levels : Type 0 where
  pub l1 : Option L1
  pub l2 : Option L2
  pub l3 : Option L3

-- Drill
pub record Drill : Type 0 where
  pub name : String
  pub source : String
  pub schedule : String
  pub jitter : Duration
  pub max_proof_age : Duration
  pub timeout : Duration
  pub levels : Levels
  pub retention : Retention

-- Source, the fields that the engine's steps read
pub record Source : Type 0 where
  pub name : String
  pub type : String
  pub repo : String
  pub binary : String
  pub path : String
  pub pattern : String
  pub pick : String
  pub passphrase_file : String
  pub passphrase_env : String
  pub ssh_key_file : String
  pub password_file : String
  pub password_env : String
  pub env_file : String

-- A pointer that is set: `p != nil`.
abbrev pub is_set {ℓ} : {A : Type ℓ} → Option A → Bool
is_set (Option.some _) = true
is_set Option.none = false

-- A pointer to a Boolean that is set and true: `p != nil && *p`.
abbrev pub is_on : Option Bool → Bool
is_on (Option.some b) = b
is_on Option.none = false

-- L1.hasVerdictCheck
unfoldable pub has_verdict_check : L1 → Bool
has_verdict_check l =
    is_on l.native_check
    || is_set l.snapshot_max_age
    || is_set l.file_min_bytes
    || is_on l.compression_test
    || is_set l.max_age
