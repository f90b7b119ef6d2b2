-- ===== src/Config/Validate.antt =====
-- internal/config/drill.go: which errors validate finds in a drill's levels. An error is the path it
-- is reported at; its message is left out. The validation of a single check is the parameter `check`,
-- from the path, the level and the source's type.
use Prim.Native.String.{◌++◌ as str_append}
use redrill.Prelude.{
  String, Bool, false, not, ◌&&◌, ◌||◌, Option, none, some, List, [], ◌∷◌, ◌++◌, str_eq,
  if◌then◌else◌,
}
use redrill.Prelude.Int.{ℤ, pos, ltb_ℤ}
use redrill.Config.{L1, is_set, is_on, has_verdict_check}

-- es.add under a condition
abbrev pub add_if : Bool → String → List String
add_if c path = if c then path ∷ [] else []

abbrev pub is_repo : String → Bool
is_repo src_type = str_eq src_type "borg" || str_eq src_type "restic"

-- A percentage that is set and outside its range.
abbrev pub is_outside : Option ℤ → ℤ → Bool
is_outside none low = false
is_outside (some p) low = ltb_ℤ p low || ltb_ℤ (pos 100) p

-- L1.validate
unfoldable pub validate_l1 : String → String → L1 → List String
validate_l1 path src_type l =
    let dump = str_eq src_type "dumpdir" in
    let repo = is_repo src_type in
    add_if (dump && is_set l.native_check) (str_append path ".native_check")
    ++ (add_if (dump && is_set l.snapshot_max_age) (str_append path ".snapshot_max_age")
        ++ (add_if (dump && is_set l.size_anomaly_pct) (str_append path ".size_anomaly_pct")
            ++ (add_if (repo && is_set l.file_min_bytes) (str_append path ".file_min_bytes")
                ++ (add_if (repo && is_set l.compression_test) (str_append path ".compression_test")
                    ++ (add_if (repo && is_set l.max_age) (str_append path ".max_age")
                        ++ (add_if (is_set l.read_data_subset_pct && not (str_eq src_type "restic"))
                              (str_append path ".read_data_subset_pct")
                            ++ (add_if (is_outside l.read_data_subset_pct (pos 1))
                                  (str_append path ".read_data_subset_pct")
                                ++ (add_if
                                      (is_set l.read_data_subset_pct && not (is_on l.native_check))
                                      (str_append path ".read_data_subset_pct")
                                    ++ (add_if (is_outside l.size_anomaly_pct (pos 0))
                                          (str_append path ".size_anomaly_pct")
                                        ++ add_if (not (has_verdict_check l)) path)))))))))
