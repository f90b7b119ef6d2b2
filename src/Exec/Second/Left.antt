-- ===== src/Exec/Second/Left.antt =====
-- What a second level leaves behind, whatever fails: the errors of Unmount and os.RemoveAll are dropped.
use redrill.Prelude.{
  ◌≡◌, refl, sym, ap, ◌∙◌, arith, String, Bool, true, false, not, ◌&&◌, Option, none, some, List,
  [], ◌∷◌, str_eq, if◌then◌else◌,
}
use redrill.Prelude.Int.{ℤ}
use redrill.Config.{L2, Check}
use redrill.Sandbox.{
  Effect, is_running, has_scratch, close_failed, removal_failed, scratch_made, scratch_removed,
  mounted, unmounted, restored,
}
use redrill.Exec.Step.{StepSpec, StepResult, StepReply}
use redrill.Exec.World.{
  World, Vault, DumpDir, Action, with_scratch, in_scratch, scratch_root, effect,
}
use redrill.Exec.World.Always.{Always, stop_on-Always, stop_broke-Always}
use redrill.Exec.Second.{
  finish_at, in_mount, mount_and_check, restore_and_check, run_repo_l2, copy_and_check, with_l2,
}
use redrill.Exec.DumpLevels.{run_dumpdir_l2}
use redrill.Exec.Third.{on_snapshot}

-- Whether a mount is left: one whose unmounting returned an error may be.
abbrev pub is_mounted : List Effect → Bool
is_mounted [] = false
is_mounted (mounted ∷ log) = true
is_mounted (unmounted none ∷ log) = false
is_mounted (_ ∷ log) = is_mounted log

-- Whether a call of Unmount returned an error.
abbrev pub unmount_failed : List Effect → Bool
unmount_failed [] = false
unmount_failed (unmounted (some _) ∷ log) = true
unmount_failed (_ ∷ log) = unmount_failed log

-- Whether the removal of no scratch directory was tried under a mount.
abbrev pub is_safe : List Effect → Bool
is_safe [] = true
is_safe (scratch_removed _ ∷ log) = not (is_mounted log) && is_safe log
is_safe (_ ∷ log) = is_safe log

-- No container runs, no call of Close or Unmount failed, no mount is left, and the removal of no
-- scratch directory was tried under one.
unfoldable pub IsUnmounted : List Effect → Type 0
IsUnmounted log =
    (is_running log ≡ false)
    × (close_failed log ≡ false)
    × (is_mounted log ≡ false)
    × (unmount_failed log ≡ false)
    × (is_safe log ≡ true)

-- From such a log, a mount is left exactly if a call of Unmount failed, and the scratch directory is as
-- it was.
unfoldable pub Unmounted : List Effect → List Effect → Type 0
Unmounted log log1 =
    IsUnmounted log
    → (is_running log1 ≡ false)
      × (close_failed log1 ≡ false)
      × (is_mounted log1 ≡ unmount_failed log1)
      × (is_safe log1 ≡ true)
      × (has_scratch log1 ≡ has_scratch log)
      × (removal_failed log1 ≡ removal_failed log)

-- What a level leaves: a scratch directory exactly if its removal failed, a mount exactly if its
-- unmounting failed, no container; and a removal was tried under a mount exactly if the unmounting
-- failed.
unfoldable pub IsLeft : List Effect → Type 0
IsLeft log =
    (has_scratch log ≡ removal_failed log)
    × (is_mounted log ≡ unmount_failed log)
    × (is_safe log ≡ not (unmount_failed log))
    × (is_running log ≡ false)
    × (close_failed log ≡ false)

unfoldable pub Left : List Effect → List Effect → Type 0
Left log log1 = has_scratch log ≡ false → removal_failed log ≡ false → IsUnmounted log → IsLeft log1

Unmounted-refl : (log : List Effect) → Unmounted log log
unfolding Unmounted IsUnmounted
Unmounted-refl log u = (u.0, u.1, u.2 ∙ sym u.3, u.4, refl, refl)

Left-refl : (log : List Effect) → Left log log
unfolding Left IsLeft IsUnmounted
Left-refl log h f u = (h ∙ sym f, u.2 ∙ sym u.3, u.4 ∙ ap not (sym u.3), u.0, u.1)

removed-IsLeft :
    (e : Option String) (log : List Effect)
    → has_scratch log ≡ true
    → removal_failed log ≡ false
    → is_mounted log ≡ unmount_failed log
    → is_safe log ≡ true
    → is_running log ≡ false
    → close_failed log ≡ false
    → IsLeft (scratch_removed e ∷ log)
unfolding IsLeft
removed-IsLeft none log h f m s r c = (sym f, m, rw (s, m) (ground arith), r, c)
removed-IsLeft (some why) log h f m s r c = (h, m, rw (s, m) (ground arith), r, c)

module _ (w : World) where
  in_scratch-Left :
      (root : String) (keep : Bool) (body : Action)
      → keep ≡ false
      → Always Unmounted body
      → Always Left (in_scratch w root keep body)
  unfolding Always Unmounted Left IsUnmounted
  in_scratch-Left root keep body k h = λ log r f u.
      let told = h (scratch_made ∷ log) u in
      rw (k) (removed-IsLeft _ _ told.4 (told.5 ∙ f) told.2 told.3 told.0 told.1)

  with_scratch-Left :
      (keep : Bool) (step : StepSpec) (fail : String → StepReply) (body : String → Action)
      → keep ≡ false
      → ((root : String) → Always Unmounted (body root))
      → Always Left (with_scratch w keep step fail body)
  unfolding with_scratch
  with_scratch-Left keep step fail body k h =
      stop_on-Always Left Left-refl _ _ _ (in_scratch-Left _ keep _ k (h (scratch_root w step)))

  effect-Unmounted :
      (paths : List String) (next : Action)
      → Always Unmounted next
      → Always Unmounted (effect (restored paths) next)
  unfolding Always Unmounted IsUnmounted
  effect-Unmounted paths next h = λ log. h (restored paths ∷ log)

  finish_at-Unmounted :
      (step : StepSpec) (res : StepResult) (root : String) (cs : List Check) (secrets : List String)
      → Always Unmounted (finish_at w step res root cs secrets)
  unfolding Always
  finish_at-Unmounted step res root cs secrets = λ log. Unmounted-refl log

  -- A mount that is made is unmounted, or that fails.
  unmounted-Unmounted :
      (e : Option String) (log : List Effect) → Unmounted log (unmounted e ∷ mounted ∷ log)
  unfolding Unmounted IsUnmounted
  unmounted-Unmounted none log u = (u.0, u.1, sym u.3, u.4, refl, refl)
  unmounted-Unmounted (some why) log u = (u.0, u.1, refl, u.4, refl, refl)

  in_mount-Unmounted :
      (d : Vault) (step : StepSpec) (res : StepResult) (root : String) (cs : List Check)
      → Always Unmounted (in_mount w d (finish_at w step res root cs d.secrets))
  unfolding Always
  in_mount-Unmounted d step res root cs = λ log. unmounted-Unmounted _ log

  mount_and_check-Left :
      (none_msg : String) (d : Vault) (step : StepSpec) (l2 : L2)
      → Always Left (mount_and_check w none_msg d step l2)
  unfolding mount_and_check
  mount_and_check-Left none_msg d step l2 = stop_broke-Always Left Left-refl _ _ _ (λ snap.
      with_scratch-Left false step _ _ refl (λ root. stop_on-Always Unmounted Unmounted-refl _ _ _ (
        stop_broke-Always Unmounted Unmounted-refl _ _ _
          (λ at. in_mount-Unmounted d step (on_snapshot step snap) at l2.checks))))

  pub restore_and_check-Unmounted :
      (restore : List String → String → Option String) (secrets : List String) (step : StepSpec)
      (l2 : L2) (res : StepResult) (paths : List String) (predicted : ℤ) (root : String)
      → Always Unmounted (restore_and_check w restore secrets step l2 res paths predicted root)
  restore_and_check-Unmounted restore secrets step l2 res paths predicted root =
      stop_on-Always Unmounted Unmounted-refl _ _ _ (
        effect-Unmounted paths _ (
          stop_on-Always Unmounted Unmounted-refl _ _ _
            (finish_at-Unmounted step res root l2.checks secrets)))

  copy_and_check-Left :
      (none_msg : String) (d : Vault) (step : StepSpec) (l2 : L2)
      → step.keep ≡ false
      → Always Left (copy_and_check w none_msg d step l2)
  copy_and_check-Left none_msg d step l2 k = stop_broke-Always Left Left-refl _ _ _ (λ snap.
      stop_broke-Always Left Left-refl _ _ _ (λ plan. with_scratch-Left step.keep step _ _ k (
        restore_and_check-Unmounted (d.restore (snap.id ∷ [])) d.secrets step l2
          (on_snapshot step snap) plan.0 plan.1)))

  pub with_l2-Left :
      (step : StepSpec) (l2 : Option L2) (next : L2 → Action)
      → ((l : L2) → Always Left (next l))
      → Always Left (with_l2 w step l2 next)
  unfolding Always
  with_l2-Left step none next h = λ log. Left-refl log
  with_l2-Left step (some l2) next h = h l2

  if-Left :
      (b : Bool) (x y : Action) → Always Left x → Always Left y → Always Left (if b then x else y)
  if-Left true x y h k = h
  if-Left false x y h k = k

  pub run_repo_l2-Left :
      (none_msg : String) (d : Vault) (step : StepSpec)
      → step.keep ≡ false
      → Always Left (run_repo_l2 w none_msg d step)
  unfolding run_repo_l2
  run_repo_l2-Left none_msg d step k = with_l2-Left step step.l2 _ (λ l2.
      stop_on-Always Left Left-refl _ _ _ (
        stop_on-Always Left Left-refl _ _ _ (
          if-Left (str_eq l2.restore.mode "mount") _ _ (mount_and_check-Left none_msg d step l2)
            (copy_and_check-Left none_msg d step l2 k))))

  -- The same of a directory of dumps.
  pub run_dumpdir_l2-Left :
      (d : DumpDir) (step : StepSpec) → step.keep ≡ false → Always Left (run_dumpdir_l2 w d step)
  unfolding run_dumpdir_l2
  run_dumpdir_l2-Left d step k = with_l2-Left step step.l2 _ (λ l2.
      stop_on-Always Left Left-refl _ _ _ (
        stop_broke-Always Left Left-refl _ _ _ (λ plan. with_scratch-Left step.keep step _ _ k (
          restore_and_check-Unmounted (λ paths root. d.restore plan.0 root) [] step l2 plan.2 []
            plan.1))))

  -- A second level of a borg or restic repository that is not asked to keep its restore leaves no
  -- container, leaves a mount exactly if a call of Unmount failed, and a scratch directory exactly if a call of
  -- os.RemoveAll failed, whatever the driver, the disk and the checks answer, if there was nothing
  -- before and no such call had failed. And the removal of a scratch directory is tried under a mount
  -- exactly if a call of Unmount failed. What a call that failed was to take away counts as left.
  pub run_repo_l2-left :
      (none_msg : String) (d : Vault) (step : StepSpec) (log : List Effect)
      → step.keep ≡ false
      → has_scratch log ≡ false
      → removal_failed log ≡ false
      → IsUnmounted log
      → let log1 = (run_repo_l2 w none_msg d step log).1 in
        (has_scratch log1 ≡ removal_failed log1)
        × (is_mounted log1 ≡ unmount_failed log1)
        × (is_safe log1 ≡ not (unmount_failed log1))
        × (is_running log1 ≡ false)
        × (close_failed log1 ≡ false)
  unfolding Always Left IsLeft
  run_repo_l2-left none_msg d step log k = run_repo_l2-Left none_msg d step k log
