-- ===== src/Exec/Second/Shown.antt =====
-- What a second level that passes has shown.
use redrill.Prelude.{
  subst, ◌≡◌, refl, String, Bool, true, false, Option, none, some, List, [], ◌∷◌, map, select, All,
  str_eq, if◌then◌else◌,
}
use redrill.Prelude.Int.{ℤ}
use redrill.Config.{L2, Check}
use redrill.Checks.{Status}
use redrill.Checks.Tree.{Tree}
use redrill.Sandbox.{Effect, mounted}
use redrill.Exec.Step.{StepSpec, StepResult, StepReply}
use redrill.Exec.Evidence.{aggregate-all_pass, IsPassed}
use redrill.Exec.World.{World, Vault, Action, effect}
use redrill.Exec.World.Always.{Answers, stop_on-Answers, stop_broke-Answers, with_scratch-Answers}
use redrill.Exec.Second.{
  is_enabled, finish_l2, finish_at, in_mount, no_bytes, mount_and_check, copy_and_check, with_l2,
  run_repo_l2, restore_and_check,
}
use redrill.Exec.Second.Covered.{check_all-kinds}
use redrill.Exec.Third.{on_snapshot}
use redrill.Exec.Third.Proof.{kind_of, check_kind}
use redrill.Exec.Third.Proven.{error_pass}

abbrev pub enabled_of : Option L2 → List Check
enabled_of none = []
enabled_of (some l2) = select is_enabled l2.checks

-- A reply that passes has evidence of every check that is not switched off, in their order, and all of
-- it passed.
abbrev pub Shown : Option L2 → StepReply → Type 0
Shown l2 (StepReply.done res) =
    res.status ≡ Status.pass
    → (map kind_of res.evidence ≡ map check_kind (enabled_of l2)) × All IsPassed res.evidence
Shown l2 _ = Unit

module _ (w : World) where
  finish_l2-Shown :
      (step : StepSpec) (l2 : L2) (res : StepResult) (tree : Tree) (secrets : List String)
      → res.evidence ≡ []
      → Shown (some l2) (StepReply.done (finish_l2 w step res tree l2.checks secrets))
  unfolding finish_l2
  finish_l2-Shown step l2 res tree secrets e =
      λ p. (rw (e) (check_all-kinds w secrets _ tree step.now l2.checks), aggregate-all_pass _ p)

  no_bytes-Shown :
      (l2 : Option L2) (reply : StepReply) → Shown l2 reply → Shown l2 (no_bytes w reply)
  no_bytes-Shown l2 (StepReply.done res) h = h
  no_bytes-Shown l2 StepReply.unsupported h = tt
  no_bytes-Shown l2 StepReply.no_sandbox_runtime h = tt
  no_bytes-Shown l2 (StepReply.failed why) h = tt
  no_bytes-Shown l2 (StepReply.panicked why) h = tt

  finish_at-Shown :
      (step : StepSpec) (l2 : L2) (res : StepResult) (root : String) (secrets : List String)
      → res.evidence ≡ []
      → Answers (Shown (some l2)) (finish_at w step res root l2.checks secrets)
  unfolding Answers
  finish_at-Shown step l2 res root secrets e =
      λ log. finish_l2-Shown step l2 res (w.tree log root) secrets e

  in_mount-Shown :
      (l2 : Option L2) (d : Vault) (body : Action)
      → Answers (Shown l2) body
      → Answers (Shown l2) (in_mount w d body)
  unfolding Answers
  in_mount-Shown l2 d body h = λ log. no_bytes-Shown l2 _ (h (mounted ∷ log))

  effect-Shown :
      (l2 : Option L2) (e : Effect) (next : Action)
      → Answers (Shown l2) next
      → Answers (Shown l2) (effect e next)
  unfolding Answers
  effect-Shown l2 e next h = λ log. h (e ∷ log)

  mount_and_check-Shown :
      (none_msg : String) (d : Vault) (step : StepSpec) (l2 : L2)
      → Answers (Shown (some l2)) (mount_and_check w none_msg d step l2)
  unfolding mount_and_check
  mount_and_check-Shown none_msg d step l2 =
      let P = Shown (some l2) in
      stop_broke-Answers P _ _ _ (λ why p. error_pass p)
        (λ snap e.
          with_scratch-Answers P w false step _ _ (λ why p. error_pass p)
            (λ root.
              stop_on-Answers P _ _ _ (λ why p. error_pass p)
                (stop_broke-Answers P _ _ _ (λ why p. error_pass p)
                  (λ at f.
                    in_mount-Shown (some l2) d _
                      (finish_at-Shown step l2 (on_snapshot step snap) at d.secrets refl)))))

  restore_and_check-Shown :
      (restore : List String → String → Option String) (secrets : List String) (step : StepSpec)
      (l2 : L2) (res : StepResult) (paths : List String) (predicted : ℤ) (root : String)
      → res.evidence ≡ []
      → Answers
          (Shown (some l2))
          (restore_and_check w restore secrets step l2 res paths predicted root)
  restore_and_check-Shown restore secrets step l2 res paths predicted root e =
      let P = Shown (some l2) in
      stop_on-Answers P _ _ _ (λ why p. error_pass p)
        (effect-Shown (some l2) _ _ (
          stop_on-Answers P _ _ _ (λ why p. error_pass p)
            (finish_at-Shown step l2 res root secrets e)))

  copy_and_check-Shown :
      (none_msg : String) (d : Vault) (step : StepSpec) (l2 : L2)
      → Answers (Shown (some l2)) (copy_and_check w none_msg d step l2)
  copy_and_check-Shown none_msg d step l2 =
      let P = Shown (some l2) in
      stop_broke-Answers P _ _ _ (λ why p. error_pass p)
        (λ snap e.
          stop_broke-Answers P _ _ _ (λ why p. error_pass p)
            (λ plan f.
              with_scratch-Answers P w step.keep step _ _ (λ why p. error_pass p)
                (λ root.
                  restore_and_check-Shown (d.restore (snap.id ∷ [])) d.secrets step l2
                    (on_snapshot step snap) plan.0 plan.1 root refl)))

  with_l2-Shown :
      (step : StepSpec) (l2 : Option L2) (next : L2 → Action)
      → ((l : L2) → Answers (Shown (some l)) (next l))
      → Answers (Shown l2) (with_l2 w step l2 next)
  unfolding Answers
  with_l2-Shown step none next h = λ log p. error_pass p
  with_l2-Shown step (some l2) next h = h l2

  if-Shown :
      (l2 : Option L2) (b : Bool) (x y : Action)
      → Answers (Shown l2) x
      → Answers (Shown l2) y
      → Answers (Shown l2) (if b then x else y)
  if-Shown l2 true x y h k = h
  if-Shown l2 false x y h k = k

  run_repo_l2-Shown :
      (none_msg : String) (d : Vault) (step : StepSpec)
      → Answers (Shown step.l2) (run_repo_l2 w none_msg d step)
  unfolding run_repo_l2
  run_repo_l2-Shown none_msg d step = with_l2-Shown step step.l2 _ (λ l2.
      let P = Shown (some l2) in
      stop_on-Answers P _ _ _ (λ why p. error_pass p)
        (stop_on-Answers P _ _ _ (λ why p. error_pass p)
          (if-Shown (some l2) (str_eq l2.restore.mode "mount") _ _
            (mount_and_check-Shown none_msg d step l2) (copy_and_check-Shown none_msg d step l2))))

  -- A second level of a borg or restic repository that passes has evidence of every check of its
  -- configuration that is not switched off, in their order, all of which passed, whether the snapshot
  -- was copied or mounted: none vanishes.
  pub run_repo_l2-evidence :
      (none_msg : String) (d : Vault) (step : StepSpec) (log : List Effect) (res : StepResult)
      → (run_repo_l2 w none_msg d step log).0 ≡ StepReply.done res
      → res.status ≡ Status.pass
      → (map kind_of res.evidence ≡ map check_kind (enabled_of step.l2)) × All IsPassed res.evidence
  unfolding Answers
  run_repo_l2-evidence none_msg d step log res e =
      subst (λ r. Shown step.l2 r) e (run_repo_l2-Shown none_msg d step log)
