-- ===== src/Checks/Tree.antt =====
-- internal/checks/l2.go, filecount.go and execcheck.go: the checks of a restored tree. What
-- the operating system answers about the tree, and floating-point numbers, are parameters.
use Prim.Native.String.{◌++◌ as str_append}
use redrill.Prelude.{
  ℕ, suc, String, Bool, true, false, not, Option, none, some, List, [], ◌∷◌, str_eq, ◌==◌,
  if◌then◌else◌,
}
use redrill.Prelude.Int.{ℤ, pos, ltb_ℤ, leb_ℤ}
use redrill.Clock.{Time, Duration, is_zero, sub}
use redrill.Checks.{Status, Evidence, Answer, got, broke}
use redrill.Checks.Snapshot.{Texts}
use redrill.Checks.Expect.{Reader, parse_expect, evaluate}
use redrill.Checks.Glob.{match_glob}
use redrill.Checks.Sandboxed.{new_evidence, conclude, judge, first_line}

-- An entry that filepath.WalkDir visits: the error of the visit, whether it is a directory or a regular
-- file, its name, its path relative to the root, its size and modification time if Info succeeds, and
-- of its first bytes whether they are near random, with the entropy as printed.
pub record Entry : Type 0 where
  pub fault : Option String
  pub is_dir : Bool
  pub is_regular : Bool
  pub name : String
  pub rel : Answer String
  pub info : Answer (ℤ × Time)
  pub entropy : Answer (Bool × String)

-- What a shell does with a command: it starts and exits with a code and an output, it does not start,
-- or the context is done.
pub data Shell : Type 0 where
  exited : ℕ → String → Shell
  not_run : String → Shell
  canceled : String → Shell

-- A restored tree: whether a path is there, its entries in the order of the walk, a command run in it,
-- and the hash of a file.
pub record Tree : Type 0 where
  pub exists : String → Answer Bool
  pub entries : List Entry
  pub shell : String → Shell
  pub hash : String → Answer String

-- What fmt prints of the numbers, and whether a difference is within some percent of a count as
-- floating-point numbers.
pub record TreeTexts : Type 0 where
  pub of_texts : Texts
  pub exit : ℕ → String
  pub within_pct : ℤ → ℤ → ℤ → Bool
  pub of_delta : ℤ → ℤ → String
  pub lower : String → String
  pub of_anomaly : ℕ → ℕ → String → String
  pub of_example : String → String → String

-- pathEvidence
unfoldable pub path_evidence : String → Tree → String → Bool → Bool → Evidence
path_evidence kind tree path absent weak =
    let ev : Evidence = record (new_evidence kind path (if absent then "absent" else "present")) {
      weak = weak;
    } in
    elim (tree.exists path) [
      | broke why ↦ conclude ev Status.error (str_append "stat: " why)
      | got exists ↦
          let seen = if exists then "present" else "absent" in
          if exists
          then conclude ev (if absent then Status.fail else Status.pass) seen
          else conclude ev (if absent then Status.pass else Status.fail) seen
    ]

module _ (say : TreeTexts) where
  abbrev texts : Texts
  texts = say.of_texts

  -- NewestFileMaxAge.Run
  unfoldable pub newest_file_max_age : Time → Duration → Time → Evidence
  newest_file_max_age newest max now =
      let ev =
        new_evidence "newest_file_max_age" ""
          (str_append "newest file age <= " (texts.of_duration max)) in
      if is_zero newest
      then conclude ev Status.error "no files restored to age-check"
      else conclude ev (if leb_ℤ (sub now newest) max then Status.pass else Status.fail)
          (str_append "age " (texts.of_rounded (sub now newest)))

  -- MinTotalBytes.Run
  unfoldable pub min_total_bytes : ℤ → ℤ → Evidence
  min_total_bytes total min =
      let ev =
        new_evidence "min_total_bytes" ""
          (str_append ">= " (str_append (texts.of_int min) " bytes restored")) in
      conclude ev (if leb_ℤ min total then Status.pass else Status.fail)
        (str_append (texts.of_int total) " bytes")

  -- FileCountTolerance.Run
  unfoldable pub file_count_tolerance : ℤ → ℤ → ℤ → Evidence
  file_count_tolerance count prev pct =
      let ev =
        new_evidence "file_count_tolerance_pct" ""
          (str_append "within " (str_append (texts.of_int pct) "% of previous proven count")) in
      if leb_ℤ prev (pos 0)
      then conclude ev Status.pass (str_append (texts.of_int count) " files (no baseline yet)")
      else conclude ev (if say.within_pct count prev pct then Status.pass else Status.fail)
          (say.of_delta count prev)

  -- HashMatch.Run: the manifest's entries, in the order of the iteration
  abbrev pub mismatch : Tree → Evidence → List (String × String) → Evidence
  mismatch tree ev [] = conclude ev Status.pass "all files match manifest"
  mismatch tree ev ((path, want) ∷ rest) =
      let next = mismatch tree ev rest in
      elim (tree.hash path) [
        | broke why ↦
            conclude ev Status.error (str_append "hash " (str_append path (str_append ": " why)))
        | got h ↦
            if str_eq h want
            then next
            else conclude ev Status.fail (str_append path ": hash mismatch")
      ]

  unfoldable pub hash_match : Tree → ℕ → List (String × String) → Evidence
  hash_match tree count [] =
      conclude (new_evidence "hash_match" "" "engine-verified bytes") Status.pass
        "verified by the engine on extract (no independent manifest exposed)"
  hash_match tree count (f ∷ fs) =
      mismatch tree
        (new_evidence "hash_match" ""
          (str_append (texts.of_int (pos count)) " files match manifest"))
        (f ∷ fs)

  -- ExecScript.Run
  unfoldable pub exec_script : Tree → String → Evidence
  unfolding first_line
  exec_script tree command =
      let ev = new_evidence "exec" command "exit 0" in
      let told = λ (n : ℕ) (out : String).
        str_append (say.exit n)
          (if str_eq (first_line out) "" then "" else str_append ": " (first_line out)) in
      elim (tree.shell command) [
        | canceled why ↦ conclude ev Status.error (str_append "exec: " why)
        | not_run why ↦ conclude ev Status.error (str_append "exec: " why)
        | exited n out ↦ conclude ev (if n == 0 then Status.pass else Status.fail) (told n out)
      ]

  module _ (match_one : String → String → Option Bool) where
    -- The count of FileCount.Run, or the error that ends the walk.
    abbrev pub counted : Bool → Answer ℕ → Answer ℕ
    counted b (broke why) = broke why
    counted true (got n) = got (suc n)
    counted false (got n) = got n

    abbrev pub matched : String → ℤ → Entry → Answer Bool
    matched glob min_size e = elim e.rel [
      | broke why ↦ broke why
      | got rel ↦ elim (match_glob match_one glob rel) [
        | none ↦ broke "syntax error in pattern"
        | some false ↦ got false
        | some true ↦ elim e.info [
          | broke why ↦ broke why
          | got (size, t) ↦ got (not (ltb_ℤ size min_size))
        ]
      ]
    ]

    abbrev pub count_files : String → ℤ → List Entry → Answer ℕ
    count_files glob min_size [] = got 0
    count_files glob min_size (e ∷ es) =
        let rest = count_files glob min_size es in
        elim e.fault [
          | some why ↦ broke why
          | none ↦
              if e.is_regular
              then elim (matched glob min_size e) [ broke why ↦ broke why | got b ↦ counted b rest ]
              else rest
        ]

    -- FileCount.Run
    unfoldable pub file_count : Reader → Tree → String → ℤ → String → Time → Evidence
    unfolding parse_expect evaluate match_glob
    file_count read tree glob min_size expect now =
        let ev = new_evidence "file_count" glob expect in
        elim (parse_expect read expect) [
          | broke why ↦ conclude ev Status.error (str_append "invalid expect: " why)
          | got x ↦ elim (count_files glob min_size tree.entries) [
            | broke why ↦ conclude ev Status.error (str_append "walk: " why)
            | got n ↦ judge ev (texts.of_int (pos n)) (evaluate read x (texts.of_int (pos n)) now)
          ]
        ]
