-- ===== src/Exec/World/Always.antt =====
-- A relation between the effects before an action and after it, through the early returns.
use redrill.Prelude.{◌∙◌, sym, String, Bool, Option, none, some, List, ◌≡◌, false, true, refl, ◌∷◌}
use redrill.Checks.{Answer, got, broke}
use redrill.Sandbox.{
  Effect, is_running, has_scratch, close_failed, removal_failed, scratch_made, scratch_removed,
}
use redrill.Exec.Step.{StepSpec, StepReply}
use redrill.Exec.World.{World, Action, stop_on, stop_broke, with_scratch, scratch_root, in_scratch}

-- Every run of the action makes effects that are so related.
unfoldable pub Always : (List Effect → List Effect → Type 0) → Action → Type 0
Always R act = (log : List Effect) → R log (act log).1

-- A container is left running exactly if a call of Close failed, and the scratch directory and the
-- failures to remove it are as they were, if no container ran and no call failed before.
unfoldable pub Tidy : List Effect → List Effect → Type 0
Tidy log log1 =
    is_running log ≡ false
    → close_failed log ≡ false
    → (is_running log1 ≡ close_failed log1)
      × (has_scratch log1 ≡ has_scratch log)
      × (removal_failed log1 ≡ removal_failed log)

-- A container is left exactly if a call of Close failed, and a scratch directory exactly if a call of
-- os.RemoveAll failed.
unfoldable pub IsClear : List Effect → Type 0
IsClear log = (is_running log ≡ close_failed log) × (has_scratch log ≡ removal_failed log)

-- There is no container and no scratch directory, and no call of Close or os.RemoveAll failed.
unfoldable pub IsFresh : List Effect → Type 0
IsFresh log =
    (is_running log ≡ false)
    × (close_failed log ≡ false)
    × (has_scratch log ≡ false)
    × (removal_failed log ≡ false)

unfoldable pub Gone : List Effect → List Effect → Type 0
Gone log log1 = IsFresh log → IsClear log1

pub Tidy-refl : (log : List Effect) → Tidy log log
unfolding Tidy
Tidy-refl log r c = (r ∙ sym c, refl, refl)

pub Gone-refl : (log : List Effect) → Gone log log
unfolding Gone IsFresh IsClear
Gone-refl log f = (f.0 ∙ sym f.1, f.2 ∙ sym f.3)

module _ (R : List Effect → List Effect → Type 0) (R-refl : (log : List Effect) → R log log) where
  pub stop_on-Always :
      (e : Option String) (fail : String → StepReply) (next : Action)
      → Always R next
      → Always R (stop_on e fail next)
  unfolding Always stop_on stop_broke
  stop_on-Always none fail next h = h
  stop_on-Always (some why) fail next h = λ log. R-refl log

  pub stop_broke-Always :
      {A : Type 0} (a : Answer A) (fail : String → StepReply) (next : A → Action)
      → ((x : A) → Always R (next x))
      → Always R (stop_broke a fail next)
  unfolding Always stop_on stop_broke
  stop_broke-Always (broke why) fail next h = λ log. R-refl log
  stop_broke-Always (got x) fail next h = h x

-- A removal in a log with a scratch directory and no failed removal.
removed-IsClear :
    (e : Option String) (log : List Effect)
    → is_running log ≡ close_failed log
    → has_scratch log ≡ true
    → removal_failed log ≡ false
    → IsClear (scratch_removed e ∷ log)
unfolding IsClear
removed-IsClear none log r s f = (r, sym f)
removed-IsClear (some why) log r s f = (r, s)

module _ (w : World) (keep : Bool) (k : keep ≡ false) where
  in_scratch-Gone :
      (root : String) (body : Action) → Always Tidy body → Always Gone (in_scratch w root keep body)
  unfolding Always Tidy Gone IsFresh
  in_scratch-Gone root body h = λ log f.
      let told = h (scratch_made ∷ log) f.0 f.1 in
      rw (k) (removed-IsClear _ _ told.0 told.1 (told.2 ∙ f.3))

  -- A scratch directory that is not kept is removed, whatever the action in it.
  pub with_scratch-Gone :
      (step : StepSpec) (fail : String → StepReply) (body : String → Action)
      → ((root : String) → Always Tidy (body root))
      → Always Gone (with_scratch w keep step fail body)
  unfolding with_scratch
  with_scratch-Gone step fail body h =
      stop_on-Always Gone Gone-refl _ _ _ (in_scratch-Gone _ _ (h (scratch_root w step)))

-- Every reply of the action has a property.
unfoldable pub Answers : (StepReply → Type 0) → Action → Type 0
Answers P act = (log : List Effect) → P (act log).0

module _ (P : StepReply → Type 0) where
  pub stop_on-Answers :
      (e : Option String) (fail : String → StepReply) (next : Action)
      → ((why : String) → P (fail why))
      → Answers P next
      → Answers P (stop_on e fail next)
  unfolding Answers stop_on
  stop_on-Answers none fail next f h = h
  stop_on-Answers (some why) fail next f h = λ log. f why

  pub stop_broke-Answers :
      {A : Type 0} (a : Answer A) (fail : String → StepReply) (next : A → Action)
      → ((why : String) → P (fail why))
      → ((x : A) → a ≡ got x → Answers P (next x))
      → Answers P (stop_broke a fail next)
  unfolding Answers stop_broke
  stop_broke-Answers (broke why) fail next f h = λ log. f why
  stop_broke-Answers (got x) fail next f h = h x refl

  in_scratch-Answers :
      (w : World) (root : String) (keep : Bool) (body : Action)
      → Answers P body
      → Answers P (in_scratch w root keep body)
  unfolding Answers
  in_scratch-Answers w root true body h = λ log. h (scratch_made ∷ log)
  in_scratch-Answers w root false body h = λ log. h (scratch_made ∷ log)

  pub with_scratch-Answers :
      (w : World) (keep : Bool) (step : StepSpec) (fail : String → StepReply)
      (body : String → Action)
      → ((why : String) → P (fail why))
      → ((root : String) → Answers P (body root))
      → Answers P (with_scratch w keep step fail body)
  unfolding with_scratch
  with_scratch-Answers w keep step fail body f h =
      stop_on-Answers _ _ _ (λ why. f _) (in_scratch-Answers w _ keep _ (h (scratch_root w step)))
