-- ===== src/Exec/Third/Closed.antt =====
-- What a third level leaves behind: a container only if Close failed, and a scratch directory only if
-- os.RemoveAll failed, unless they are kept.
use redrill.Prelude.{ℕ, ◌≡◌, String, false, Option, none, some, List, [], ◌∷◌}
use redrill.Config.{L3}
use redrill.Sandbox.{Runtime, restored}
use redrill.Exec.Step.{StepSpec}
use redrill.Exec.Repository.{Snapshot}
use redrill.Exec.World.{World, Vault, DumpDir, Action, effect}
use redrill.Exec.World.Always.{
  Always, Tidy, Tidy-refl, Gone, Gone-refl, stop_on-Always, stop_broke-Always, with_scratch-Gone,
}
use redrill.Exec.Third.{load_and_check, with_l3, load_staged, on_snapshot}
use redrill.Exec.Third.Level.{run_repo_l3, run_dumpdir_l3, restore_and_load, in_sandbox}
use redrill.Exec.Third.Tidy.{load_staged-Tidy}

module _ (w : World) (step : StepSpec) (k : step.keep ≡ false) where
  module _ (rt : Runtime) where
    with_l3-Always :
        (l3 : Option L3) (next : L3 → Action)
        → ((l : L3) → Always Tidy (next l))
        → Always Tidy (with_l3 w rt l3 next)
    unfolding Always
    with_l3-Always none next h = λ log. Tidy-refl log
    with_l3-Always (some l3) next h = h l3

    loaded-Always :
        (l3 : L3) (secrets : List String) (dump_src : String) (snap : Snapshot) (root : String)
        (file : List ℕ) (format : String)
        → Always Tidy
            (load_staged w rt step l3 secrets dump_src (on_snapshot step snap) root file format)
    unfolding Always
    loaded-Always l3 secrets dump_src snap root file format = λ log.
        load_staged-Tidy w rt step l3 secrets dump_src (on_snapshot step snap) root file format log
          k

    load_and_check-Always :
        (secrets : List String) (dump_src : String) (snap : Snapshot) (root : String)
        → Always Tidy (load_and_check w rt step secrets dump_src snap root)
    unfolding load_and_check
    load_and_check-Always secrets dump_src snap root =
        stop_broke-Always Tidy Tidy-refl _ _ _ (λ staged.
          with_l3-Always step.l3 _
            (λ l3. loaded-Always l3 secrets dump_src snap root staged.0 staged.1))

    restored-Always :
        (paths : List String) (next : Action)
        → Always Tidy next
        → Always Tidy (effect (restored paths) next)
    unfolding Always Tidy
    restored-Always paths next h = λ log. h (restored paths ∷ log)

    restore_and_load-Always :
        (d : Vault) (snap : Snapshot) (root : String)
        → Always Tidy (restore_and_load w rt d step snap root)
    restore_and_load-Always d snap root = stop_on-Always Tidy Tidy-refl _ _ _ (
        restored-Always _ _
          (stop_on-Always Tidy Tidy-refl _ _ _ (load_and_check-Always d.secrets _ snap root)))

  in_sandbox-Always :
      (sandbox : Option Runtime) (next : Runtime → Action)
      → ((rt : Runtime) → Always Gone (next rt))
      → Always Gone (in_sandbox w sandbox next)
  unfolding Always
  in_sandbox-Always none next h = λ log. Gone-refl log
  in_sandbox-Always (some rt) next h = h rt

  pub run_repo_l3-Gone :
      (name none_msg : String) (sandbox : Option Runtime) (d : Vault)
      → Always Gone (run_repo_l3 w name none_msg sandbox d step)
  unfolding run_repo_l3
  run_repo_l3-Gone name none_msg sandbox d = in_sandbox-Always sandbox _ (λ rt.
      stop_on-Always Gone Gone-refl _ _ _ (
        stop_on-Always Gone Gone-refl _ _ _ (
          stop_on-Always Gone Gone-refl _ _ _ (
            stop_broke-Always Gone Gone-refl _ _ _ (λ snap.
              with_scratch-Gone w step.keep k step _ _ (restore_and_load-Always rt d snap))))))

  pub run_dumpdir_l3-Gone :
      (sandbox : Option Runtime) (d : DumpDir) → Always Gone (run_dumpdir_l3 w sandbox d step)
  unfolding run_dumpdir_l3
  run_dumpdir_l3-Gone sandbox d = in_sandbox-Always sandbox _ (λ rt.
      stop_on-Always Gone Gone-refl _ _ _ (
        stop_broke-Always Gone Gone-refl _ _ _ (λ snap.
          stop_on-Always Gone Gone-refl _ _ _
            (with_scratch-Gone w step.keep k step _ _ (load_and_check-Always rt [] _ snap)))))
