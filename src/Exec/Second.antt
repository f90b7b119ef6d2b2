-- ===== src/Exec/Second.antt =====
-- internal/exec/exec.go: the second level, in which a snapshot is restored or mounted and the tree is
-- checked (runBorgL2, runResticL2, runDumpdirL2, mountAndCheck, finishL2).
pub mod Left
pub mod Covered
pub mod Shown
pub mod Refused
use Prim.Native.String.{◌++◌ as str_append}
use redrill.Prelude.{
  ℕ, suc, String, Bool, true, false, not, ◌&&◌, ◌||◌, Option, none, some, List, [], ◌∷◌, ◌++◌,
  str_eq, if◌then◌else◌, select, map,
}
use redrill.Prelude.Int.{ℤ, pos, ◌+ℤ◌}
use redrill.Clock.{Time, zero_time, after}
use redrill.Config.{L2, Check}
use redrill.Checks.{Status, Evidence, Answer, got, broke}
use redrill.Checks.Entropy.{entropy_anomaly}
use redrill.Checks.Tree.{
  Tree, Entry, path_evidence, newest_file_max_age, min_total_bytes, file_count_tolerance,
  hash_match, exec_script, file_count,
}
use redrill.Sandbox.{Effect, restored, mounted, unmounted}
use redrill.Exec.Step.{StepSpec, StepResult, StepReply}
use redrill.Exec.Verdict.{aggregate, summarize, new_result}
use redrill.Exec.Repository.{Snapshot, redact_evidence}
use redrill.Exec.Sample.{select_sample}
use redrill.Exec.World.{
  World, Vault, DumpDir, Action, stop_on, stop_broke, error_reply, effect, resolve_snapshot,
  pinned_dump_changed, with_scratch, preflight, clean, no_match,
}
use redrill.Exec.Third.{unsupported_check, finished, on_snapshot}
use redrill.Exec.Third.Level.{pin_error}

-- l2Aggregates
pub record Aggregates : Type 0 where
  pub count : ℕ
  pub total : ℤ
  pub newest : Time
  pub prev : ℤ

abbrev pub add_entry : Entry → Aggregates → Aggregates
add_entry e agg = elim e.fault [
  | some why ↦ agg
  | none ↦ if e.is_dir then agg else elim e.info [
    | broke why ↦ agg
    | got (size, mtime) ↦ record agg {
      count = suc agg.count;
      total = agg.total +ℤ size;
      newest = if after mtime agg.newest then mtime else agg.newest;
    }
  ]
]

-- walkAggregates, from the aggregates so far
unfoldable pub walk_aggregates : List Entry → Aggregates → Aggregates
walk_aggregates [] agg = agg
walk_aggregates (e ∷ es) agg = walk_aggregates es (add_entry e agg)

-- Whether a check is not switched off.
abbrev pub is_enabled : Check → Bool
is_enabled c =
    not (str_eq c.kind "hash_match" && not c.hash_match)
    && not (str_eq c.kind "entropy_anomaly" && not c.entropy_anomaly)

module _ (w : World) where
  -- buildL2Check and l2Builders: the evidence of the check that is built
  unfoldable pub build_l2_check : Check → Aggregates → Tree → Time → Option Evidence
  build_l2_check c agg tree now =
      if str_eq c.kind "path_exists"
      then some (path_evidence "path_exists" tree c.path false false)
      else if str_eq c.kind "path_absent"
      then some (path_evidence "path_absent" tree c.path true false)
      else if str_eq c.kind "canary_file"
      then some (path_evidence "canary_file" tree c.path false true)
      else if str_eq c.kind "hash_match"
      then some (hash_match w.tree_texts tree 0 [])
      else if str_eq c.kind "newest_file_max_age"
      then some (newest_file_max_age w.tree_texts agg.newest c.newest_file_max_age now)
      else if str_eq c.kind "min_total_bytes"
      then some (min_total_bytes w.tree_texts agg.total c.min_total_bytes)
      else if str_eq c.kind "file_count_tolerance_pct"
      then some
          (file_count_tolerance w.tree_texts (pos agg.count) agg.prev c.file_count_tolerance_pct)
      else if str_eq c.kind "exec"
      then some (exec_script w.tree_texts tree c.exec)
      else if str_eq c.kind "file_count"
      then elim c.file_count [
        | none ↦ none
        | some f ↦
            some (file_count w.tree_texts w.match_one w.reader tree f.glob f.min_size f.expect now)
      ]
      else if str_eq c.kind "entropy_anomaly"
      then some (entropy_anomaly w.tree_texts tree)
      else none

  abbrev pub evidence_of : List String → String → Option Evidence → Evidence
  evidence_of secrets kind none = unsupported_check kind
  evidence_of secrets kind (some ev) = redact_evidence w.texts (clean w secrets) ev

  -- The loop over the checks.
  unfoldable pub check_all : List String → Aggregates → Tree → Time → List Check → List Evidence
  unfolding build_l2_check
  check_all secrets agg tree now [] = []
  check_all secrets agg tree now (c ∷ cs) =
      let rest = check_all secrets agg tree now cs in
      if is_enabled c
      then evidence_of secrets c.kind (build_l2_check c agg tree now) ∷ rest
      else rest

  -- finishL2
  unfoldable pub finish_l2 : StepSpec → StepResult → Tree → List Check → List String → StepResult
  unfolding walk_aggregates check_all
  finish_l2 step res tree checks secrets =
      let agg =
        walk_aggregates tree.entries
          (record { count = 0; total = pos 0; newest = zero_time; prev = step.prev_file_count }) in
      finished w secrets (record res {
        evidence = res.evidence ++ check_all secrets agg tree step.now checks;
        files = pos agg.count;
        bytes = agg.total;
      })

  -- A restored level's last part.
  abbrev pub finish_at : StepSpec → StepResult → String → List Check → List String → Action
  finish_at step res root checks secrets log =
      (StepReply.done (finish_l2 step res (w.tree log root) checks secrets), log)

  abbrev pub no_bytes : StepReply → StepReply
  no_bytes (StepReply.done res) = StepReply.done (record res { bytes = pos 0 })
  no_bytes reply = reply

  -- A mount, and the deferred Unmount, whose error is dropped.
  abbrev pub in_mount : Vault → Action → Action
  in_mount d body log =
      let (reply, log1) = body (mounted ∷ log) in
      (no_bytes reply, unmounted (d.unmount log1) ∷ log1)

  -- What mountAndCheck does in the scratch directory.
  abbrev pub check_mount : Vault → StepSpec → L2 → Snapshot → String → Action
  check_mount d step l2 snap root =
      let res = on_snapshot step snap in
      let mp = w.join root "mnt" in
      let advice : String =
        " (mode: mount needs FUSE — /dev/fuse and an unmount tool; see the deploy docs)" in
      stop_on (w.mkdir_error mp) (error_reply res) (
        stop_broke (d.mount snap.id mp)
          (λ why.
            error_reply res (clean w d.secrets (str_append "mount: " (str_append why advice))))
          (λ at. in_mount d (finish_at step res at l2.checks d.secrets)))

  -- mountAndCheck
  unfoldable pub mount_and_check : String → Vault → StepSpec → L2 → Action
  unfolding finish_l2
  mount_and_check none_msg d step l2 =
      stop_broke (resolve_snapshot step d.snapshots none_msg)
        (λ why. error_reply (new_result step) (clean w d.secrets why))
        (λ snap.
          with_scratch w false step (error_reply (on_snapshot step snap))
            (check_mount d step l2 snap))

  -- What to restore of a snapshot, and its predicted size.
  unfoldable pub plan_restore : Vault → StepSpec → L2 → Snapshot → Answer (List String × ℤ)
  plan_restore d step l2 snap =
      if str_eq l2.restore.scope "full"
      then got ([], d.full_size snap.id)
      else elim (d.list_files snap.id) [
        | broke why ↦ broke why
        | got files ↦ got (
            select_sample w.permutation files l2.restore.sample l2.restore.include_paths
              step.run_id)
      ]

  -- What is done in the scratch directory: the preflight, the restore, the checks.
  abbrev pub restore_and_check :
      (List String → String → Option String)
      → List String
      → StepSpec
      → L2
      → StepResult
      → List String
      → ℤ
      → String
      → Action
  restore_and_check restore secrets step l2 res paths predicted root =
      stop_on (preflight w root step.scratch.max_bytes predicted) (error_reply res) (
        effect (restored paths) (
          stop_on (restore paths root) (λ why. error_reply res (clean w secrets why))
            (finish_at step res root l2.checks secrets)))

  -- A copy of a snapshot, and its checks.
  abbrev pub copy_and_check : String → Vault → StepSpec → L2 → Action
  copy_and_check none_msg d step l2 =
      stop_broke (resolve_snapshot step d.snapshots none_msg)
        (λ why. error_reply (new_result step) (clean w d.secrets why))
        (λ snap.
          stop_broke (plan_restore d step l2 snap)
            (λ why. error_reply (on_snapshot step snap) (clean w d.secrets why))
            (λ plan. with_scratch w step.keep step (error_reply (on_snapshot step snap)) (
              restore_and_check (d.restore (snap.id ∷ [])) d.secrets step l2 (on_snapshot step snap)
                plan.0 plan.1)))

  -- A level that needs its configuration.
  abbrev pub with_l2 : StepSpec → Option L2 → (L2 → Action) → Action
  with_l2 step none next log = (error_reply (new_result step) "no L2 config in step", log)
  with_l2 step (some l2) next log = next l2 log

  -- runBorgL2 and runResticL2, by the text of a repository with nothing in it
  unfoldable pub run_repo_l2 : String → Vault → StepSpec → Action
  unfolding mount_and_check plan_restore finish_l2
  run_repo_l2 none_msg d step = with_l2 step step.l2 (λ l2.
      stop_on d.secret_error (error_reply (new_result step)) (
        stop_on d.validate_error (λ why. error_reply (new_result step) (clean w d.secrets why))
          (if str_eq l2.restore.mode "mount"
            then mount_and_check none_msg d step l2
            else copy_and_check none_msg d step l2)))
