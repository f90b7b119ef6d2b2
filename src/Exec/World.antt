-- ===== src/Exec/World.antt =====
-- What a restore level meets outside the program's own code, and the steps that its levels share: the
-- scratch directory (internal/exec/scratch.go) and the snapshot to audit (internal/exec/exec.go).
pub mod Always
use Prim.Native.String.{◌++◌ as str_append}
use redrill.Prelude.{
  ℕ, String, Bool, true, false, not, ◌||◌, ◌&&◌, Option, none, some, List, [], ◌∷◌, str_eq, ◌==◌,
  if◌then◌else◌, ltb,
}
use redrill.Prelude.Int.{ℤ, pos, ltb_ℤ, pos_part}
use redrill.Clock.{Time, Duration, zero_time, is_zero}
use redrill.Checks.{Evidence, Answer, got, broke}
use redrill.Checks.Snapshot.{Texts}
use redrill.Checks.Expect.{Reader}
use redrill.Redact.{Redaction, redact}
use redrill.Sandbox.{Effect, scratch_made, scratch_removed, restored}
use redrill.Exec.Step.{StepSpec, StepResult, StepReply}
use redrill.Exec.Verdict.{error_step}
use redrill.Exec.Repository.{Snapshot}
use redrill.Exec.Sample.{FileEntry}
use redrill.Checks.Tree.{Tree, TreeTexts}
use redrill.Exec.Stage.{Bytes, Files}
use redrill.Exec.Load.{LoadTexts}

-- Go's library and the operating system: the texts of fmt, the readers of values, the redactor's
-- replacement, strings.ToLower, the regular expression of a dump's version, the lines that
-- bufio.Scanner reads, files, filepath.Join, a directory that cannot be made, the error of os.RemoveAll,
-- the free bytes on disk, path.Match, the seeded permutation, and the tree that is found at a path after some effects.
pub record World : Type 0 where
  pub texts : Texts
  pub load_texts : LoadTexts
  pub reader : Reader
  pub redaction : Redaction
  pub lower : String → String
  pub version_in : String → Option String
  pub lines : Bytes → List String
  pub files : Files
  pub join : String → String → String
  pub mkdir_error : String → Option String
  pub remove_error : List Effect → String → Option String
  pub free_bytes : String → Answer ℕ
  pub of_time : Time → String
  pub tree_texts : TreeTexts
  pub match_one : String → String → Option Bool
  pub permutation : ℕ → ℕ → List ℕ
  pub tree : List Effect → String → Tree

-- A repository's driver: the error of reading its secrets, the secrets, the error of Validate, its
-- snapshots, the files of one and its size (0 if it is not known), the error of a restore by snapshots,
-- paths and directory, the root of a mount of a snapshot at a directory, and the error of Unmount.
pub record Vault : Type 0 where
  pub secret_error : Option String
  pub secrets : List String
  pub validate_error : Option String
  pub snapshots : Answer (List Snapshot)
  pub list_files : String → Answer (List FileEntry)
  pub full_size : String → ℤ
  pub restore : List String → List String → String → Option String
  pub mount : String → String → Answer String
  pub unmount : List Effect → Option String

-- A directory of dumps: the error of Validate, its snapshots, the path of a dump, the modification time
-- and the size of one, and the error of a copy of some into a directory; and `%q` of its pattern.
pub record DumpDir : Type 0 where
  pub validate_error : Option String
  pub snapshots : Answer (List Snapshot)
  pub path : String → String
  pub stat : String → Answer (Time × ℤ)
  pub restore : List String → String → Option String
  pub quoted : String

abbrev pub no_match : StepSpec → DumpDir → String
no_match step d =
    str_append "no files match " (str_append d.quoted (str_append " in " step.source.path))

-- An action of a step: its answer, and the effects, newest first.
abbrev pub Action : Type 0
Action = List Effect → StepReply × List Effect

-- An early return of an error, by the reply that it makes; else what follows.
unfoldable pub stop_on : Option String → (String → StepReply) → Action → Action
stop_on (some why) fail next log = (fail why, log)
stop_on none fail next log = next log

unfoldable pub stop_broke {ℓ} :
    {A : Type ℓ} → Answer A → (String → StepReply) → (A → Action) → Action
stop_broke (broke why) fail next log = (fail why, log)
stop_broke (got a) fail next log = next a log

-- An effect, and what follows it.
abbrev pub effect : Effect → Action → Action
effect e next log = next (e ∷ log)

-- A level's reply that is an error.
abbrev pub error_reply : StepResult → String → StepReply
error_reply res why = StepReply.done (error_step res why)

-- resolveSnapshot
unfoldable pub resolve_snapshot : StepSpec → Answer (List Snapshot) → String → Answer Snapshot
resolve_snapshot step listed none_msg =
    if not (str_eq step.snapshot "")
    then got (record { id = step.snapshot; time = zero_time; size = pos 0 })
    else elim listed [
      | broke why ↦ broke why
      | got snaps ↦ elim snaps [ [] ↦ broke none_msg | s ∷ _ ↦ got s ]
    ]

module _ (w : World) where
  -- pinnedDumpChanged
  unfoldable pub pinned_dump_changed : StepSpec → Time → Option String
  pinned_dump_changed step mtime =
      if is_zero step.snapshot_time || mtime == step.snapshot_time
      then none
      else some (
          str_append "pinned dump " (
            str_append step.snapshot (
              str_append " changed since it was audited (mtime " (
                str_append (w.of_time mtime)
                  (str_append ", audited " (str_append (w.of_time step.snapshot_time) ")"))))))

  -- newScratch: the root, as what follows it makes use of it
  unfoldable pub scratch_root : StepSpec → String
  scratch_root step = w.join step.scratch.dir (str_append "run-" (w.texts.of_int (pos step.run_id)))

  -- What follows newScratch and the deferred cleanup: the step errors if the directory is not made, and
  -- a directory that was made is removed at the end unless it is kept; the error of os.RemoveAll is
  -- dropped.
  abbrev pub cleanup_unless : String → Bool → StepReply × List Effect → StepReply × List Effect
  cleanup_unless root true (reply, log) = (reply, log)
  cleanup_unless root false (reply, log) = (reply, scratch_removed (w.remove_error log root) ∷ log)

  -- An action in a new scratch directory.
  abbrev pub in_scratch : String → Bool → Action → Action
  in_scratch root keep body log = cleanup_unless root keep (body (scratch_made ∷ log))

  unfoldable pub with_scratch : Bool → StepSpec → (String → StepReply) → (String → Action) → Action
  unfolding scratch_root
  with_scratch keep step fail body =
      let root = scratch_root step in
      stop_on (w.mkdir_error root)
        (λ why. fail (str_append "create scratch " (str_append root (str_append ": " why))))
        (in_scratch root keep (body root))

  -- preflight
  unfoldable pub preflight : String → ℤ → ℤ → Option String
  preflight root max_bytes predicted =
      let wanted = pos_part predicted in
      if ltb_ℤ (pos 0) max_bytes && ltb_ℤ max_bytes (pos wanted)
      then some (
          str_append "scratch preflight: predicted " (
            str_append (w.texts.of_int (pos wanted))
              (str_append " bytes exceeds quota " (w.texts.of_int max_bytes))))
      else elim (w.free_bytes root) [
        | broke why ↦ some (str_append "scratch preflight: " why)
        | got free ↦
            if ltb free wanted
            then some (
                str_append "scratch preflight: predicted " (
                  str_append (w.texts.of_int (pos wanted)) (
                    str_append " bytes exceeds "
                      (str_append (w.texts.of_int (pos free)) " free on disk"))))
            else none
      ]

  -- What the redactor makes of a text by the secrets it knows.
  abbrev pub clean : List String → String → String
  clean secrets s = redact w.redaction secrets s
