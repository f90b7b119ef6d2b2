-- ===== src/Config/DrillRules.antt =====
-- internal/config/drill.go and internal/config/check.go: validate of checks, of the second and third
-- levels and of a drill. An error is the path it is reported at. `parses` is
-- whether path.Match takes a pattern.
use Prim.Native.String.{◌++◌ as str_append}
use redrill.Prelude.{
  ℕ, suc, String, Bool, true, false, not, ◌&&◌, ◌||◌, Option, none, some, List, [], ◌∷◌, ◌++◌,
  str_eq, if◌then◌else◌,
}
use redrill.Prelude.Int.{ℤ, pos, ltb_ℤ}
use redrill.Text.{split_on}
use redrill.Config.{L2, L3, Drill, Check, Sample, FileCountCheck, SqlCheck, is_set}
use redrill.Config.Validate.{add_if, is_repo, validate_l1}

abbrev pub is_nil {ℓ} : {A : Type ℓ} → List A → Bool
is_nil [] = true
is_nil (_ ∷ _) = false

abbrev pub is_negative : ℤ → Bool
is_negative n = ltb_ℤ n (pos 0)

-- The kinds of checkCatalog: at the second level only, at the third only; `exec` is at both.
abbrev pub is_member : String → List String → Bool
is_member s [] = false
is_member s (x ∷ xs) = str_eq x s || is_member s xs

abbrev pub l2_kinds : List String
l2_kinds =
    "path_exists" ∷ "path_absent" ∷ "canary_file" ∷ "hash_match" ∷ "newest_file_max_age"
    ∷ "file_count_tolerance_pct" ∷ "min_total_bytes" ∷ "file_count" ∷ "entropy_anomaly" ∷ "exec"
    ∷ []

abbrev pub l3_kinds : List String
l3_kinds = "sql" ∷ "sql_no_error" ∷ "tcp" ∷ "exec" ∷ []

-- spec.levels[level]
abbrev pub is_valid_at : String → String → Bool
is_valid_at level kind =
    str_eq level "l2" && is_member kind l2_kinds || str_eq level "l3" && is_member kind l3_kinds

abbrev pub glob_of : Option FileCountCheck → String
glob_of none = ""
glob_of (some fc) = fc.glob

abbrev pub has_no_expect : Option FileCountCheck → Bool
has_no_expect none = false
has_no_expect (some fc) = str_eq fc.expect ""

abbrev pub has_no_query : Option SqlCheck → Bool
has_no_query none = true
has_no_query (some q) = str_eq q.query ""

abbrev pub has_no_sql_expect : Option SqlCheck → Bool
has_no_sql_expect none = false
has_no_sql_expect (some q) = str_eq q.expect ""

abbrev pub is_bad_sample : Option Sample → (Sample → ℤ) → Bool
is_bad_sample none field = false
is_bad_sample (some s) field = is_negative (field s)

module _ (parses : String → Bool) where
  -- validGlob
  abbrev pub all_parse : List String → Bool
  all_parse [] = true
  all_parse (seg ∷ segs) = (str_eq seg "**" || parses seg) && all_parse segs

  unfoldable pub valid_glob : String → Bool
  valid_glob pattern = all_parse (split_on b'/' pattern)

  -- The rows' validate functions of checkCatalog.
  unfoldable pub validate_kind : String → String → String → Check → List String
  unfolding valid_glob
  validate_kind path level src_type c =
      let k = c.kind in
      add_if
        ((str_eq k "path_exists" || (str_eq k "path_absent" || str_eq k "canary_file"))
          && str_eq c.path "")
        path
      ++ (add_if (str_eq k "hash_match" && (str_eq level "l2" && str_eq src_type "dumpdir")) path
          ++ (add_if
                (str_eq k "file_count_tolerance_pct"
                  && (is_negative c.file_count_tolerance_pct
                      || ltb_ℤ (pos 100) c.file_count_tolerance_pct))
                path
              ++ (add_if
                    (str_eq k "file_count"
                      && (str_eq (glob_of c.file_count) ""
                          || not (valid_glob (glob_of c.file_count))))
                    path
                  ++ (add_if (str_eq k "file_count" && has_no_expect c.file_count) path
                      ++ (add_if (str_eq k "sql" && has_no_query c.sql) path
                          ++ (add_if (str_eq k "sql" && has_no_sql_expect c.sql) path
                              ++ (add_if (str_eq k "sql_no_error" && str_eq c.sql_no_error "") path
                                  ++ (add_if
                                        (str_eq k "tcp"
                                          && (ltb_ℤ c.tcp_port (pos 1)
                                              || ltb_ℤ (pos 65535) c.tcp_port))
                                        path
                                      ++ add_if (str_eq k "exec" && str_eq c.exec "") path))))))))

  -- Check.validate
  unfoldable pub validate_check : String → String → String → Check → List String
  validate_check path level src_type c =
      add_if (not (is_valid_at level c.kind)) path ++ validate_kind path level src_type c

  -- The loop over a level's checks; `at` makes the path of the check with a number (checkPath).
  unfoldable pub validate_checks : (ℕ → String) → String → String → ℕ → List Check → List String
  validate_checks at level src_type i [] = []
  validate_checks at level src_type i (c ∷ cs) =
      validate_check (at i) level src_type c ++ validate_checks at level src_type (suc i) cs

  -- The hash_match checks of a mounted restore.
  unfoldable pub mount_hash_matches : (ℕ → String) → ℕ → List Check → List String
  mount_hash_matches at i [] = []
  mount_hash_matches at i (c ∷ cs) =
      add_if (str_eq c.kind "hash_match") (at i) ++ mount_hash_matches at (suc i) cs

  module _ (number : ℕ → String) where
    -- checkPath
    abbrev pub check_path : String → ℕ → String
    check_path path i = str_append path (str_append ".checks[" (str_append (number i) "]"))

    -- L2.validate
    unfoldable pub validate_l2 : String → String → L2 → List String
    validate_l2 path src_type l =
        let r = l.restore in
        let restore = str_append path ".restore" in
        let scope = str_append path ".restore.scope" in
        let copied =
          add_if (not (is_member r.scope ("" ∷ "sample" ∷ "full" ∷ []))) scope
          ++ (add_if
                (not (str_eq r.scope "full") && (not (is_set r.sample) && is_nil r.include_paths))
                restore
              ++ (add_if (is_bad_sample r.sample (λ s. s.files))
                    (str_append path ".restore.sample.files")
                  ++ add_if (is_bad_sample r.sample (λ s. s.newest))
                      (str_append path ".restore.sample.newest"))) in
        let mounted =
          add_if (str_eq src_type "dumpdir") (str_append path ".restore.mode")
          ++ (add_if (not (is_member r.scope ("" ∷ "full" ∷ []))) scope
              ++ (add_if (is_set r.sample || not (is_nil r.include_paths)) restore
                  ++ mount_hash_matches (check_path path) 0 l.checks)) in
        (if is_member r.mode ("" ∷ "copy" ∷ [])
          then copied
          else if str_eq r.mode "mount"
          then mounted
          else str_append path ".restore.mode" ∷ [])
        ++ validate_checks (check_path path) "l2" src_type 0 l.checks

    -- L3.validate
    unfoldable pub validate_l3 : String → String → L3 → List String
    validate_l3 path src_type l =
        add_if (str_eq l.sandbox.image "") (str_append path ".sandbox.image")
        ++ (add_if (not (is_member l.sandbox.network ("" ∷ "none" ∷ [])))
              (str_append path ".sandbox.network")
            ++ (add_if (not (is_member l.load ("" ∷ "auto" ∷ "pg_restore" ∷ "psql" ∷ [])))
                  (str_append path ".load")
                ++ (add_if (is_repo src_type && str_eq l.extract_path "")
                      (str_append path ".extract_path")
                    ++ (add_if (is_nil l.checks) (str_append path ".checks")
                        ++ validate_checks (check_path path) "l3" src_type 0 l.checks))))

    -- Drill.validate
    unfoldable pub validate_drill : String → String → Drill → List String
    validate_drill path src_type d =
        let no_level =
          not (is_set d.levels.l1) && (not (is_set d.levels.l2) && not (is_set d.levels.l3)) in
        add_if no_level (str_append path ".levels")
        ++ (add_if (is_negative d.retention.max_count) (str_append path ".retention.max_count")
            ++ (elim d.levels.l1 [
              | none ↦ []
              | some l ↦ validate_l1 (str_append path ".levels.l1") src_type l
            ]
                ++ (elim d.levels.l2 [
                  | none ↦ []
                  | some l ↦ validate_l2 (str_append path ".levels.l2") src_type l
                ]
                    ++ elim d.levels.l3 [
                      | none ↦ []
                      | some l ↦ validate_l3 (str_append path ".levels.l3") src_type l
                    ])))
