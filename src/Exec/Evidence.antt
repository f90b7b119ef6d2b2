-- ===== src/Exec/Evidence.antt =====
-- A first level that passes has proved something: config's validation and the executor together.
use redrill.Prelude.{
  ◌≡◌, refl, sym, ap, ◌∙◌, String, Bool, true, false, not, ◌&&◌, ◌||◌, some, List, [], ◌∷◌, ◌++◌,
  arith, if◌then◌else◌, ◌⊎◌, inl, inr, All,
}
use redrill.Prelude.Int.{ℤ}
use redrill.Clock.{Time}
use redrill.Config.{L1, is_set, is_on, has_verdict_check}
use redrill.Config.Validate.{validate_l1, is_repo}
use redrill.Checks.{Status, Evidence, is_pass, is_fail, is_error}
use redrill.Checks.Snapshot.{Texts, snapshot_max_age, size_anomaly}
use redrill.Exec.Step.{StepSpec}
use redrill.Exec.Repository.{
  Repository, run_repo_l1, archive_checks, native_check_evidence, snapshot_age_and_size,
  list_error_evidence, native_evidence, wants_archives, snap_sizes,
}
use redrill.Exec.Verdict.{aggregate, has_evidence}

-- Some evidence passed that is not weak.
abbrev pub has_proof : List Evidence → Bool
has_proof [] = false
has_proof (ev ∷ evs) = is_pass ev.status && not ev.weak || has_proof evs

-- The fields that a validated first level of a repository leaves unset, and what it then has.
validate_l1-repo :
    (path src_type : String) (l : L1)
    → is_repo src_type ≡ true
    → validate_l1 path src_type l ≡ []
    → (is_on l.native_check || is_set l.snapshot_max_age) ≡ true
unfolding validate_l1 has_verdict_check
validate_l1-repo path src_type l r e = ground arith

-- A step that passes has evidence, and none of it failed or errored.
aggregate-pass :
    (evs : List Evidence)
    → aggregate evs ≡ Status.pass
    → (has_evidence is_fail evs ≡ false) × (has_evidence is_error evs ≡ false)
unfolding aggregate
aggregate-pass evs e = (ground arith, ground arith)

both_false : (b c : Bool) → (b || c) ≡ false → (b ≡ false) × (c ≡ false)
both_false b c e = (ground arith, ground arith)

abbrev pub IsPassed : Evidence → Type 0
IsPassed ev = ev.status ≡ Status.pass

none_bad : (st : Status) → is_fail st ≡ false → is_error st ≡ false → st ≡ Status.pass
none_bad Status.pass f e = refl
none_bad Status.fail f e = ground arith
none_bad Status.error f e = ground arith

all_pass :
    (evs : List Evidence)
    → has_evidence is_fail evs ≡ false
    → has_evidence is_error evs ≡ false
    → All IsPassed evs
all_pass [] f e = tt
all_pass (ev ∷ evs) f e =
    let (f0, f1) = both_false _ _ f in
    let (e0, e1) = both_false _ _ e in (none_bad ev.status f0 e0, all_pass evs f1 e1)

-- Evidence whose verdict is a pass has passed, all of it.
pub aggregate-all_pass : (evs : List Evidence) → aggregate evs ≡ Status.pass → All IsPassed evs
aggregate-all_pass evs e = let clean = aggregate-pass evs e in all_pass evs clean.0 clean.1

has_proof-append : (xs ys : List Evidence) → has_proof (xs ++ ys) ≡ (has_proof xs || has_proof ys)
has_proof-append [] ys = refl
has_proof-append (x ∷ xs) ys = ground (arith, has_proof-append xs ys)

has_evidence-append :
    (test : Status → Bool) (xs ys : List Evidence)
    → has_evidence test (xs ++ ys) ≡ (has_evidence test xs || has_evidence test ys)
has_evidence-append test [] ys = refl
has_evidence-append test (x ∷ xs) ys = ground (arith, has_evidence-append test xs ys)

either_true : (b c : Bool) → (b || c) ≡ true → (b ≡ true) ⊎ (c ≡ true)
either_true true c e = inl refl
either_true false c e = inr e

one_true : (b c : Bool) → (b ≡ true) ⊎ (c ≡ true) → (b || c) ≡ true
one_true b c (inl e) = ground arith
one_true b c (inr e) = ground arith

module _ (texts : Texts) (redact : String → String) where
  -- A native check, and a check of the newest snapshot's age, is evidence that is not weak.
  native-proof :
      (d : Repository) (l : L1) (pct : ℤ)
      → is_on l.native_check ≡ true
      → let evs = native_evidence texts redact d l pct in
        has_evidence is_fail evs ≡ false → has_evidence is_error evs ≡ false → has_proof evs ≡ true
  unfolding native_check_evidence
  native-proof d l pct on nf ne = ground arith

  archive-proof :
      (d : Repository) (l : L1) (now : Time)
      → is_set l.snapshot_max_age ≡ true
      → let evs = (archive_checks texts redact d l now).0 in
        has_evidence is_fail evs ≡ false → has_evidence is_error evs ≡ false → has_proof evs ≡ true
  unfolding archive_checks list_error_evidence snapshot_age_and_size snapshot_max_age size_anomaly
      snap_sizes
  archive-proof d l now set nf ne = ground arith

  archived :
      (d : Repository) (l : L1) (now : Time)
      → is_set l.snapshot_max_age ≡ true
      → let evs : List Evidence =
          if wants_archives l then (archive_checks texts redact d l now).0 else [] in
        has_evidence is_fail evs ≡ false → has_evidence is_error evs ≡ false → has_proof evs ≡ true
  archived d l now set = rw (wants_archives, set) (archive-proof d l now set)

  -- What the step's evidence is, when it passes.
  passing-evidence :
      (pct_of : L1 → ℤ) (d : Repository) (step : StepSpec) (l : L1)
      → step.l1 ≡ some l
      → let res = run_repo_l1 texts redact pct_of d step in
        res.status ≡ Status.pass
        → (res.evidence ≡ (
            native_evidence texts redact d l (pct_of l)
            ++ (if wants_archives l then (archive_checks texts redact d l step.now).0 else [])))
          × (aggregate res.evidence ≡ Status.pass)
  unfolding run_repo_l1
  passing-evidence pct_of d step l s p = (ground arith, ground arith)

  -- A first level of a borg or restic repository whose configuration is valid and whose step passes
  -- has evidence that passed and is not weak, and none that failed or errored.
  pub run_repo_l1-proof :
      (path src_type : String) (pct_of : L1 → ℤ) (d : Repository) (step : StepSpec) (l : L1)
      → step.l1 ≡ some l
      → is_repo src_type ≡ true
      → validate_l1 path src_type l ≡ []
      → let res = run_repo_l1 texts redact pct_of d step in
        res.status ≡ Status.pass
        → (has_proof res.evidence ≡ true)
          × (has_evidence is_fail res.evidence ≡ false)
          × (has_evidence is_error res.evidence ≡ false)
  run_repo_l1-proof path src_type pct_of d step l s r v p =
      let res = run_repo_l1 texts redact pct_of d step in
      let told = passing-evidence pct_of d step l s p in
      let clean = aggregate-pass res.evidence told.1 in
      let first = native_evidence texts redact d l (pct_of l) in
      let rest : List Evidence =
        if wants_archives l then (archive_checks texts redact d l step.now).0 else [] in
      let joined = (λ (test : Status → Bool) (h : has_evidence test res.evidence ≡ false).
        both_false (has_evidence test first) (has_evidence test rest)
          (sym (ap (has_evidence test) told.0 ∙ has_evidence-append test first rest) ∙ h)) in
      let proved : has_proof first ≡ true ⊎ has_proof rest ≡ true =
        elim (either_true _ _ (validate_l1-repo path src_type l r v)) [
          | inl on ↦ inl (
              native-proof d l (pct_of l) on (joined is_fail clean.0).0 (joined is_error clean.1).0)
          | inr set ↦
              inr (archived d l step.now set (joined is_fail clean.0).1 (joined is_error clean.1).1)
        ] in
      (ap has_proof told.0 ∙ has_proof-append first rest ∙ one_true _ _ proved, clean.0, clean.1)
