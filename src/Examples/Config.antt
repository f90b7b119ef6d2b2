-- ===== src/Examples/Config.antt =====
-- The demo drill validates; a sampled restore.
use redrill.Prelude.{ℕ, ◌≡◌, refl, String, Bool, true, false, ◌||◌, some, List, [], ◌∷◌}
use redrill.Prelude.Int.{pos}
use redrill.Examples.{demo_drill, demo_l2}
use redrill.Config.{L1, L3, Drill, is_set, has_verdict_check}
use redrill.Config.Validate.{validate_l1}
use redrill.Config.DrillRules.{
  validate_drill, validate_l2, validate_l3, validate_checks, is_nil, is_negative,
}
use redrill.Config.Checked.{validate_drill-Checked}
use redrill.Exec.Sample.{FileEntry}

abbrev any_pattern : String → Bool
any_pattern s = true

abbrev no_digits : ℕ → String
no_digits n = "0"

abbrev full_drill : Drill
full_drill = record demo_drill {
  levels = record (demo_drill.levels) {
    l2 =
        some
          (record demo_l2 { restore = record (demo_l2.restore) { mode = "copy"; scope = "full" } });
  };
}

full_drill_lem : validate_drill any_pattern no_digits "drills[0]" "restic" full_drill ≡ []
unfolding validate_drill validate_l1 validate_l2 validate_l3 validate_checks has_verdict_check
full_drill_lem = refl

validate_drill-Checked_example :
    ((is_set full_drill.levels.l1 || (is_set full_drill.levels.l2 || is_set full_drill.levels.l3))
      ≡ true)
    × ((l : L1) → full_drill.levels.l1 ≡ some l → has_verdict_check l ≡ true)
    × ((l : L3) → full_drill.levels.l3 ≡ some l → is_nil l.checks ≡ false)
    × (is_negative full_drill.retention.max_count ≡ false)
validate_drill-Checked_example =
    validate_drill-Checked any_pattern no_digits "drills[0]" "restic" full_drill full_drill_lem

abbrev some_files : List FileEntry
some_files =
    record { path = "etc/hosts"; size = pos 10; mtime = 3; is_file = true }
    ∷ record { path = "home"; size = pos 0; mtime = 4; is_file = false }
    ∷ record { path = "home/a"; size = pos 7; mtime = 9; is_file = true }
    ∷ []

abbrev in_order : ℕ → ℕ → List ℕ
in_order seed n = 0 ∷ 1 ∷ []
