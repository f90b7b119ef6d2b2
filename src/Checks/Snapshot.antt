-- ===== src/Checks/Snapshot.antt =====
-- internal/checks/snapshot.go: SnapshotMaxAge and SizeAnomaly. What Go's fmt and time packages print,
-- and the sentence that compares sizes as floating-point numbers, are parameters.
use Prim.Native.String.{◌++◌ as str_append}
use redrill.Prelude.{String, true, false, List, [], ◌∷◌, if◌then◌else◌}
use redrill.Prelude.Int.{ℤ, leb_ℤ}
use redrill.Clock.{Time, Duration, is_zero, sub}
use redrill.Checks.{Status, Evidence}

-- How values are printed: `%d`, `%s` of a duration, and `%s` of one rounded to seconds.
pub record Texts : Type 0 where
  pub of_int : ℤ → String
  pub of_duration : Duration → String
  pub of_rounded : Duration → String
  pub of_sizes : ℤ → List ℤ → String → String

module _ (texts : Texts) where
  -- SnapshotMaxAge.Run
  unfoldable pub snapshot_max_age : Time → Duration → Time → Evidence
  snapshot_max_age newest max now =
      if is_zero newest
      then record {
        kind = "snapshot_max_age";
        target = "";
        expected = str_append "newest age <= " (texts.of_duration max);
        actual = "no snapshots to age-check";
        status = Status.error;
        weak = false;
      }
      else record {
        kind = "snapshot_max_age";
        target = "newest snapshot";
        expected = str_append "newest age <= " (texts.of_duration max);
        actual = str_append "age " (texts.of_rounded (sub now newest));
        status = if leb_ℤ (sub now newest) max then Status.pass else Status.fail;
        weak = false;
      }

  -- SizeAnomaly.Run
  unfoldable pub size_anomaly : ℤ → List ℤ → ℤ → Evidence
  size_anomaly latest trailing pct = record {
    kind = "size_anomaly";
    target = "";
    expected = str_append "latest within " (str_append (texts.of_int pct) "% of trailing avg");
    actual = elim trailing [
      | [] ↦ "insufficient history"
      | size ∷ sizes ↦ texts.of_sizes latest (size ∷ sizes) (texts.of_int pct)
    ];
    status = Status.pass;
    weak = true;
  }
