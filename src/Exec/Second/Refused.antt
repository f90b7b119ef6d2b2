-- ===== src/Exec/Second/Refused.antt =====
-- A second level restores exactly what fits its quota and the disk.
use redrill.Prelude.{
  ℕ, ◌≡◌, refl, String, Bool, true, false, not, ◌&&◌, ◌||◌, Option, none, some, List, [], ◌∷◌,
  arith, inl, inr, ◌⊎◌, str_eq, if◌then◌else◌,
}
use redrill.Prelude.Int.{ℤ, pos, negsuc, leb_ℤ}
use redrill.Config.{L2, is_set}
use redrill.Checks.{Status, Answer, got}
use redrill.Sandbox.{Effect, restored, scratch_made}
use redrill.Exec.Step.{StepSpec, StepResult, StepReply}
use redrill.Exec.Repository.{Snapshot}
use redrill.Exec.World.{
  World, Vault, Action, stop_on, stop_broke, preflight, error_reply, effect, resolve_snapshot,
  with_scratch, cleanup_unless, scratch_root,
}
use redrill.Exec.Second.{run_repo_l2, plan_restore, restore_and_check, with_l2}
use redrill.Exec.Third.{on_snapshot}

-- A reply that is a result with the status `error`.
abbrev pub IsErrorReply : StepReply → Type 0
IsErrorReply (StepReply.done res) = res.status ≡ Status.error
IsErrorReply _ = ⊥

-- Whether a restore was begun.
abbrev pub has_restored : List Effect → Bool
has_restored [] = false
has_restored (restored paths ∷ log) = true
has_restored (_ ∷ log) = has_restored log

-- Whether a predicted size is at most the quota, if one is set, and at most the free bytes.
abbrev pub fits : ℤ → ℤ → ℕ → Bool
fits quota predicted free =
    (leb_ℤ quota (pos 0) || leb_ℤ predicted quota) && leb_ℤ predicted (pos free)

-- What a level with a scratch directory did: it began a restore exactly if `fit`, else it is an error.
abbrev IsRight : Bool → StepReply × List Effect → Type 0
IsRight fit it = (has_restored it.1 ≡ fit) × ((fit ≡ true) ⊎ IsErrorReply it.0)

-- What holds of an action that a level gets to, holds of the level.
module _ (P : StepReply × List Effect → Type 0) (log : List Effect) where
  after_check :
      (e : Option String) (fail : String → StepReply) (next : Action)
      → e ≡ none
      → P (next log)
      → P (stop_on e fail next log)
  unfolding stop_on
  after_check none fail next e h = h
  after_check (some why) fail next e h = ground arith

  after_answer :
      {A : Type 0} (a : Answer A) (fail : String → StepReply) (next : A → Action) (x : A)
      → a ≡ got x
      → P (next x log)
      → P (stop_broke a fail next log)
  unfolding stop_broke
  after_answer a fail next x e h = rw (e) h

  in_branch :
      (b : Bool) (yea nay : Action) → b ≡ false → P (nay log) → P ((if b then yea else nay) log)
  in_branch true yea nay e h = ground arith
  in_branch false yea nay e h = h

  configured :
      (w : World) (step : StepSpec) (o : Option L2) (next : L2 → Action) (l2 : L2)
      → o ≡ some l2
      → P (next l2 log)
      → P (with_l2 w step o next log)
  configured w step o next l2 e h = rw (e) h

module _ (w : World) where
  preflight-fits :
      (root : String) (quota predicted : ℤ) (free : ℕ)
      → w.free_bytes root ≡ got free
      → is_set (preflight w root quota predicted) ≡ not (fits quota predicted free)
  unfolding preflight
  preflight-fits root (pos q) (pos p) free e = rw (preflight, e) (ground arith)
  preflight-fits root (pos q) (negsuc p) free e = rw (preflight, e) (ground arith)
  preflight-fits root (negsuc q) (pos p) free e = rw (preflight, e) (ground arith)
  preflight-fits root (negsuc q) (negsuc p) free e = rw (preflight, e) (ground arith)

  cleaned-IsRight :
      (root : String) (keep fit : Bool) (it : StepReply × List Effect)
      → IsRight fit it
      → IsRight fit (cleanup_unless w root keep it)
  cleaned-IsRight root true fit it h = h
  cleaned-IsRight root false fit it h = h

  guarded-IsRight :
      (e : Option String) (res : StepResult) (next : Action) (log : List Effect) (fit : Bool)
      → is_set e ≡ not fit
      → has_restored log ≡ false
      → has_restored (next log).1 ≡ true
      → IsRight fit (stop_on e (error_reply res) next log)
  unfolding stop_on
  guarded-IsRight none res next log true s r h = (h, inl refl)
  guarded-IsRight none res next log false s r h = ground arith
  guarded-IsRight (some why) res next log true s r h = ground arith
  guarded-IsRight (some why) res next log false s r h = (r, inr refl)

  begun :
      (x : Option String) (fail : String → StepReply) (next : Action) (paths : List String)
      (log : List Effect)
      → has_restored (next (restored paths ∷ log)).1 ≡ true
      → has_restored (effect (restored paths) (stop_on x fail next) log).1 ≡ true
  unfolding stop_on
  begun none fail next paths log h = h
  begun (some why) fail next paths log h = refl

  restore_and_check-IsRight :
      (restore : List String → String → Option String) (secrets : List String) (step : StepSpec)
      (l2 : L2) (res : StepResult) (paths : List String) (predicted : ℤ) (root : String) (free : ℕ)
      → w.free_bytes root ≡ got free
      → IsRight
          (fits step.scratch.max_bytes predicted free)
          (restore_and_check w restore secrets step l2 res paths predicted root (scratch_made ∷ []))
  restore_and_check-IsRight restore secrets step l2 res paths predicted root free e =
      guarded-IsRight _ res _ (scratch_made ∷ []) _
        (preflight-fits root step.scratch.max_bytes predicted free e) refl
        (begun (restore paths root) _ _ paths (scratch_made ∷ []) refl)

  -- A second level of a borg or restic repository that finds its snapshot, copies it and can make its scratch
  -- directory begins the restore exactly if the predicted size is at most the quota, if one is set, and
  -- at most the free bytes of the disk; if it is not, the level's result is an error and nothing is
  -- restored.
  pub run_repo_l2-fits :
      (none_msg : String) (d : Vault) (step : StepSpec) (l2 : L2) (snap : Snapshot)
      (paths : List String) (predicted : ℤ) (free : ℕ)
      → step.l2 ≡ some l2
      → d.secret_error ≡ none
      → d.validate_error ≡ none
      → str_eq l2.restore.mode "mount" ≡ false
      → resolve_snapshot step d.snapshots none_msg ≡ got snap
      → plan_restore w d step l2 snap ≡ got (paths, predicted)
      → w.mkdir_error (scratch_root w step) ≡ none
      → w.free_bytes (scratch_root w step) ≡ got free
      → let it = run_repo_l2 w none_msg d step [] in
        let fit = fits step.scratch.max_bytes predicted free in
        (has_restored it.1 ≡ fit) × ((fit ≡ true) ⊎ IsErrorReply it.0)
  unfolding run_repo_l2 with_scratch
  run_repo_l2-fits none_msg d step l2 snap paths predicted free c s v m r p k f =
      let P = IsRight (fits step.scratch.max_bytes predicted free) in
      configured P [] w step step.l2 _ l2 c (
        after_check P [] d.secret_error _ _ s (
          after_check P [] d.validate_error _ _ v (
            in_branch P [] _ _ _ m (
              after_answer P [] _ _ _ snap r (
                after_answer P [] _ _ _ (paths, predicted) p
                  (after_check P [] _ _ _ k (
                    cleaned-IsRight (scratch_root w step) step.keep _ _ (
                      restore_and_check-IsRight (d.restore (snap.id ∷ [])) d.secrets step l2
                        (on_snapshot step snap) paths predicted (scratch_root w step) free f))))))))
