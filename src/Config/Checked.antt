-- ===== src/Config/Checked.antt =====
-- What a drill that validates has.
use Prim.Native.String.{◌++◌ as str_append}
use redrill.Prelude.{
  ℕ, ◌≡◌, String, Bool, true, false, ◌||◌, none, some, List, [], ◌∷◌, ◌++◌, arith,
}
use redrill.Config.{L1, L3, Drill, is_set, has_verdict_check}
use redrill.Config.Validate.{add_if, validate_l1}
use redrill.Config.DrillRules.{is_nil, is_negative, validate_l3, validate_drill, validate_l2}

nil_append {ℓ} : {A : Type ℓ} (xs ys : List A) → xs ++ ys ≡ [] → ys ≡ []
nil_append [] ys e = e
nil_append (x ∷ xs) ys e = ground (arith, e)

validate_l1-checked :
    (path src_type : String) (l : L1)
    → validate_l1 path src_type l ≡ []
    → has_verdict_check l ≡ true
unfolding validate_l1 has_verdict_check
validate_l1-checked path src_type l e = ground arith

module _ (parses : String → Bool) (number : ℕ → String) where
  validate_l3-checked :
      (path src_type : String) (l : L3)
      → validate_l3 parses number path src_type l ≡ []
      → is_nil l.checks ≡ false
  unfolding validate_l3
  validate_l3-checked path src_type l e = ground arith

  -- A drill that validates configures a level, its first level has a check that can fail, its third
  -- level has a check, and its bound on the number of runs is not negative.
  pub validate_drill-Checked :
      (path src_type : String) (d : Drill)
      → validate_drill parses number path src_type d ≡ []
      → ((is_set d.levels.l1 || (is_set d.levels.l2 || is_set d.levels.l3)) ≡ true)
        × ((l : L1) → d.levels.l1 ≡ some l → has_verdict_check l ≡ true)
        × ((l : L3) → d.levels.l3 ≡ some l → is_nil l.checks ≡ false)
        × (is_negative d.retention.max_count ≡ false)
  unfolding validate_drill
  validate_drill-Checked path src_type d e = (
    ground arith,
    (λ l s. ground (arith, validate_l1-checked (str_append path ".levels.l1") src_type l)),
    (λ l s.
        let l1 : List String = elim d.levels.l1 [
          | none ↦ []
          | some l' ↦ validate_l1 (str_append path ".levels.l1") src_type l'
        ] in
        let l2 : List String = elim d.levels.l2 [
          | none ↦ []
          | some l' ↦ validate_l2 parses number (str_append path ".levels.l2") src_type l'
        ] in
        let l3 : List String = elim d.levels.l3 [
          | none ↦ []
          | some l' ↦ validate_l3 parses number (str_append path ".levels.l3") src_type l'
        ] in
        let count =
          add_if (is_negative d.retention.max_count) (str_append path ".retention.max_count") in
        let after_count : l1 ++ (l2 ++ l3) ≡ [] =
          nil_append count (l1 ++ (l2 ++ l3)) (nil_append _ (count ++ (l1 ++ (l2 ++ l3))) e) in
        let after_l2 : l3 ≡ [] = nil_append l2 l3 (nil_append l1 (l2 ++ l3) after_count) in
        ground (arith, after_l2, validate_l3-checked (str_append path ".levels.l3") src_type l)),
    ground arith,
  )
