-- ===== src/Exec/Repository.antt =====
-- internal/exec/exec.go: the first level on a borg or restic repository (runBorgL1, runResticL1).
-- The driver, internal/driver, is a record of what it answers.
use Prim.Native.String.{◌++◌ as str_append}
use redrill.Prelude.{
  String, Bool, true, false, ◌||◌, Option, none, some, List, [], ◌∷◌, ◌++◌, if◌then◌else◌, take,
}
use redrill.Prelude.Int.{ℤ, pos}
use redrill.Clock.{Time, zero_time}
use redrill.Config.{L1, is_set, is_on}
use redrill.Checks.{Status, Evidence, Answer, got, broke}
use redrill.Checks.Snapshot.{Texts, snapshot_max_age, size_anomaly}
use redrill.Exec.Step.{StepSpec, StepResult}
use redrill.Exec.Verdict.{aggregate, summarize, new_result, error_step}

-- driver.Snapshot
pub record Snapshot : Type 0 where
  pub id : String
  pub time : Time
  pub size : ℤ

-- driver.Report
pub record Report : Type 0 where
  pub ok : Bool
  pub summary : String

-- A driver made for a source: the errors of reading its secrets and of Validate, its NativeCheck by
-- the percentage of data to read, its snapshots newest first, and the size of each.
pub record Repository : Type 0 where
  pub name : String
  pub secret_error : Option String
  pub validate_error : Option String
  pub native_check : ℤ → Answer Report
  pub snapshots : Answer (List Snapshot)
  pub size_of : String → Option ℤ

-- The driver's answer about the sizes: the latest, and up to seven before it that are known.
abbrev pub known_sizes : (String → Option ℤ) → List Snapshot → List ℤ
known_sizes size_of [] = []
known_sizes size_of (s ∷ ss) =
    let rest = known_sizes size_of ss in elim (size_of s.id) [ none ↦ rest | some n ↦ n ∷ rest ]

-- snapSizes
unfoldable pub snap_sizes : (String → Option ℤ) → List Snapshot → Option (ℤ × List ℤ)
snap_sizes size_of [] = none
snap_sizes size_of (s ∷ ss) = elim (size_of s.id) [
  | none ↦ none
  | some n ↦ some (n, known_sizes size_of (take 7 ss))
]

abbrev pub newest_time : List Snapshot → Time
newest_time [] = zero_time
newest_time (s ∷ ss) = s.time

-- Whether the snapshots are listed.
abbrev pub wants_archives : L1 → Bool
wants_archives l = is_set l.snapshot_max_age || is_set l.size_anomaly_pct

module _ (texts : Texts) (redact : String → String) where
  -- redactEvidence
  abbrev pub redact_evidence : Evidence → Evidence
  redact_evidence ev = record ev {
    target = redact ev.target;
    expected = redact ev.expected;
    actual = redact ev.actual;
  }

  -- nativeCheckEvidence
  unfoldable pub native_check_evidence : Repository → ℤ → Evidence
  native_check_evidence d pct =
      let ev : Evidence = record {
        kind = "native_check";
        target = "repository";
        expected = str_append d.name " check passed";
        actual = "";
        status = Status.pass;
        weak = false;
      } in
      redact_evidence (elim (d.native_check pct) [
        | broke why ↦ record ev { status = Status.error; actual = why }
        | got rep ↦ record ev {
          status = if rep.ok then Status.pass else Status.fail;
          actual = rep.summary;
        }
      ])

  abbrev list_error : String → String → Evidence
  list_error kind why = record {
    kind = kind;
    target = "repository";
    expected = "";
    actual = why;
    status = Status.error;
    weak = false;
  }

  -- listErrorEvidence
  unfoldable pub list_error_evidence : L1 → String → List Evidence
  list_error_evidence l why =
      (if is_set l.snapshot_max_age then list_error "snapshot_max_age" why ∷ [] else [])
      ++ (if is_set l.size_anomaly_pct then list_error "size_anomaly" why ∷ [] else [])

  abbrev no_sizes : ℤ → Evidence
  no_sizes pct = record {
    kind = "size_anomaly";
    target = "repository";
    expected = str_append "latest within " (str_append (texts.of_int pct) "% of trailing avg");
    actual = "snapshot sizes unavailable — no signal";
    status = Status.pass;
    weak = true;
  }

  -- snapshotAgeAndSize
  unfoldable pub snapshot_age_and_size :
      (String → Option ℤ) → List Snapshot → L1 → Time → List Evidence
  unfolding snap_sizes
  snapshot_age_and_size size_of snaps l now =
      elim l.snapshot_max_age [
        | none ↦ []
        | some max ↦ redact_evidence (snapshot_max_age texts (newest_time snaps) max now) ∷ []
      ]
      ++ elim l.size_anomaly_pct [
        | none ↦ []
        | some pct ↦
            redact_evidence (elim (snap_sizes size_of snaps) [
              | none ↦ no_sizes pct
              | some (latest, trailing) ↦ size_anomaly texts latest trailing pct
            ])
            ∷ []
      ]

  -- archiveChecks: the evidence, and the newest snapshot's name and time
  unfoldable pub archive_checks : Repository → L1 → Time → List Evidence × (String × Time)
  unfolding list_error_evidence snapshot_age_and_size
  archive_checks d l now = elim d.snapshots [
    | broke why ↦ (list_error_evidence l (redact why), ("", zero_time))
    | got snaps ↦ (
      snapshot_age_and_size d.size_of snaps l now,
      elim snaps [ [] ↦ ("", zero_time) | s ∷ _ ↦ (s.id, s.time) ],
    )
  ]

  -- The evidence of the native check.
  abbrev pub native_evidence : Repository → L1 → ℤ → List Evidence
  native_evidence d l pct = if is_on l.native_check then native_check_evidence d pct ∷ [] else []

  abbrev finish_l1 : StepResult → StepResult
  finish_l1 res = elim res.evidence [
    | [] ↦ error_step res "no L1 checks produced evidence"
    | _ ∷ _ ↦ record res {
      status = aggregate res.evidence;
      summary = redact (summarize texts (aggregate res.evidence) res.evidence);
    }
  ]

  -- runBorgL1 and runResticL1, by the percentage that the native check is asked to read.
  unfoldable pub run_repo_l1 : (L1 → ℤ) → Repository → StepSpec → StepResult
  unfolding native_check_evidence archive_checks aggregate summarize
  run_repo_l1 pct_of d step =
      let res = new_result step in
      elim d.secret_error [
        | some why ↦ error_step res why
        | none ↦ elim d.validate_error [
          | some why ↦ error_step res (redact why)
          | none ↦ elim step.l1 [
            | none ↦ error_step res "no L1 config in step"
            | some l ↦
                let (evs, pinned) = archive_checks d l step.now in
                let first = native_evidence d l (pct_of l) in
                finish_l1 (
                  if wants_archives l
                  then record res {
                    evidence = first ++ evs;
                    snapshot = pinned.0;
                    snapshot_time = pinned.1;
                  }
                  else record res { evidence = first })
          ]
        ]
      ]

-- The percentage: borg reads none, restic what the configuration says.
abbrev pub borg_pct : L1 → ℤ
borg_pct l = pos 0

abbrev pub restic_pct : L1 → ℤ
restic_pct l = elim l.read_data_subset_pct [ none ↦ pos 0 | some p ↦ p ]
