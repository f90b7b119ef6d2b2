-- ===== src/Exec/Gone.antt =====
-- RunStep: what any level leaves behind.
use redrill.Prelude.{
  ◌≡◌, refl, sym, ◌∙◌, String, Bool, true, false, Option, List, [], if◌then◌else◌,
}
use redrill.Clock.{Time}
use redrill.Checks.Dump.{DumpFile}
use redrill.Sandbox.{Runtime, Effect, is_running, has_scratch, close_failed, removal_failed}
use redrill.Exec.Step.{StepSpec, StepReply}
use redrill.Exec.Repository.{Repository}
use redrill.Exec.World.{World, Vault, DumpDir, Action}
use redrill.Exec.World.Always.{
  Always, IsClear, IsFresh, Gone, Gone-refl, stop_on-Always, stop_broke-Always,
}
use redrill.Exec.Second.Left.{Left, IsLeft, IsUnmounted, run_repo_l2-Left, run_dumpdir_l2-Left}
use redrill.Exec.Third.Closed.{run_repo_l3-Gone, run_dumpdir_l3-Gone}
use redrill.Exec.DumpLevels.{run_dumpdir_l1, run_step, is_step}

nothing_done : IsClear []
unfolding IsClear
nothing_done = (refl, refl)

if_IsClear :
    (b : Bool) (x y : StepReply × List Effect)
    → IsClear x.1
    → IsClear y.1
    → IsClear (if b then x else y).1
if_IsClear true x y h k = h
if_IsClear false x y h k = k

Gone-IsClear : (act : Action) → Always Gone act → IsClear (act []).1
unfolding Always Gone IsFresh
Gone-IsClear act h = h [] (refl, refl, refl, refl)

no_effect : (reply : StepReply) → Always Gone (λ log. (reply, log))
unfolding Always
no_effect reply = λ log. Gone-refl log

Left-IsClear : (act : Action) → Always Left act → IsClear (act []).1
unfolding Always Left IsLeft IsUnmounted IsClear
Left-IsClear act h =
    let told = h [] refl refl (refl, refl, refl, refl, refl) in (told.3 ∙ sym told.4, told.0)

module _ (w : World) (file_of : String → DumpFile) (age_text : Time → Time → String) where
  -- An audit of dumps has no effect.
  run_dumpdir_l1-Gone :
      (d : DumpDir) (step : StepSpec) → Always Gone (run_dumpdir_l1 w file_of age_text d step)
  unfolding run_dumpdir_l1
  run_dumpdir_l1-Gone d step =
      stop_on-Always Gone Gone-refl _ _ _
        (stop_broke-Always Gone Gone-refl _ _ _ (λ listed. no_effect _))

  -- A step that is not asked to keep what it makes, of any level and source, leaves a container running
  -- exactly if a call of Close failed, and a scratch directory exactly if a call of os.RemoveAll failed,
  -- whatever the drivers, the disk, the sandbox and the checks answer. What a call that failed was to
  -- take away counts as left.
  pub run_step-IsClear :
      (sandbox : Option Runtime) (repo : Repository) (vault : Vault) (dumps : DumpDir)
      (step : StepSpec)
      → step.keep ≡ false
      → let log = (run_step w file_of age_text sandbox repo vault dumps step []).1 in
        (is_running log ≡ close_failed log) × (has_scratch log ≡ removal_failed log)
  unfolding run_step IsClear
  run_step-IsClear sandbox repo vault dumps step k =
      let l2 = λ (why : String). Left-IsClear _ (run_repo_l2-Left w why vault step k) in
      let l3 =
        λ (name why : String). Gone-IsClear _ (run_repo_l3-Gone w step k name why sandbox vault) in
      if_IsClear (is_step step "l1" "dumpdir") _ _ (Gone-IsClear _ (run_dumpdir_l1-Gone dumps step))
        (if_IsClear (is_step step "l1" "borg") _ _ nothing_done (
          if_IsClear (is_step step "l2" "borg") _ _ (l2 "no archives in repository") (
            if_IsClear (is_step step "l2" "dumpdir") _ _
              (Left-IsClear _ (run_dumpdir_l2-Left w dumps step k))
              (if_IsClear (is_step step "l3" "dumpdir") _ _
                (Gone-IsClear _ (run_dumpdir_l3-Gone w step k sandbox dumps))
                (if_IsClear (is_step step "l3" "borg") _ _ (l3 "borg" "no archives in repository") (
                  if_IsClear (is_step step "l1" "restic") _ _ nothing_done (
                    if_IsClear (is_step step "l2" "restic") _ _ (l2 "no snapshots in repository") (
                      if_IsClear (is_step step "l3" "restic") _ _
                        (l3 "restic" "no snapshots in repository") nothing_done))))))))
