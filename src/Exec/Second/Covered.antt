-- ===== src/Exec/Second/Covered.antt =====
-- The evidence of the checks of a restored tree: each has its kind, and none is left out.
use redrill.Prelude.{
  ◌≡◌, refl, ap, ◌∙◌, String, Bool, true, false, Option, none, some, List, [], ◌∷◌, map, select,
  arith, inl, inr, Bool-cases, str_eq, if◌then◌else◌,
}
use redrill.Prelude.Int.{ℤ, pos}
use redrill.Clock.{Time, Duration}
use redrill.Config.{Check, FileCountCheck}
use redrill.Checks.{Evidence}
use redrill.Checks.Expect.{Reader}
use redrill.Checks.Entropy.{entropy_anomaly}
use redrill.Checks.Tree.{
  Tree, TreeTexts, path_evidence, newest_file_max_age, min_total_bytes, file_count_tolerance,
  hash_match, exec_script, file_count,
}
use redrill.Exec.World.{World}
use redrill.Exec.Second.{Aggregates, is_enabled, build_l2_check, evidence_of, check_all}
use redrill.Exec.Third.Proof.{kind_of, check_kind, same_text}

-- Evidence that, if its check is built, has that kind.
abbrev IsNamed : String → Option Evidence → Type 0
IsNamed kind none = Unit
IsNamed kind (some ev) = ev.kind ≡ kind

module _ (say : TreeTexts) where
  hash_match-kind : (tree : Tree) → (hash_match say tree 0 []).kind ≡ "hash_match"
  unfolding hash_match
  hash_match-kind tree = refl

  path-kind :
      (kind : String) (tree : Tree) (path : String) (absent weak : Bool)
      → (path_evidence kind tree path absent weak).kind ≡ kind
  unfolding path_evidence
  path-kind kind tree path absent weak = ground arith

  tolerance-kind :
      (count prev pct : ℤ)
      → (file_count_tolerance say count prev pct).kind ≡ "file_count_tolerance_pct"
  unfolding file_count_tolerance
  tolerance-kind count prev pct = ground arith

  newest-kind :
      (newest : Time) (max : Duration) (now : Time)
      → (newest_file_max_age say newest max now).kind ≡ "newest_file_max_age"
  unfolding newest_file_max_age
  newest-kind newest max now = ground arith

  min_total-kind : (total min : ℤ) → (min_total_bytes say total min).kind ≡ "min_total_bytes"
  unfolding min_total_bytes
  min_total-kind total min = refl

  exec_script-kind : (tree : Tree) (command : String) → (exec_script say tree command).kind ≡ "exec"
  unfolding exec_script
  exec_script-kind tree command = ground arith

  entropy-kind : (tree : Tree) → (entropy_anomaly say tree).kind ≡ "entropy_anomaly"
  unfolding entropy_anomaly
  entropy-kind tree = ground arith

  file_count-kind :
      (match_one : String → String → Option Bool) (read : Reader) (tree : Tree) (glob : String)
      (min_size : ℤ) (expect : String) (now : Time)
      → (file_count say match_one read tree glob min_size expect now).kind ≡ "file_count"
  unfolding file_count
  file_count-kind match_one read tree glob min_size expect now = ground arith

if_IsNamed :
    (b : Bool) (kind : String) (x y : Option Evidence)
    → (b ≡ true → IsNamed kind x)
    → IsNamed kind y
    → IsNamed kind (if b then x else y)
if_IsNamed true kind x y h k = h refl
if_IsNamed false kind x y h k = k

module _ (w : World) where
  counted-IsNamed :
      (kind : String) (f : Option FileCountCheck) (tree : Tree) (now : Time)
      → "file_count" ≡ kind
      → IsNamed kind (elim f [
        | none ↦ none
        | some c ↦
            some (file_count w.tree_texts w.match_one w.reader tree c.glob c.min_size c.expect now)
      ])
  counted-IsNamed kind none tree now e = tt
  counted-IsNamed kind (some c) tree now e =
      file_count-kind w.tree_texts w.match_one w.reader tree c.glob c.min_size c.expect now ∙ e

  build_l2_check-IsNamed :
      (c : Check) (agg : Aggregates) (tree : Tree) (now : Time)
      → IsNamed c.kind (build_l2_check w c agg tree now)
  unfolding build_l2_check
  build_l2_check-IsNamed c agg tree now =
      let kind = c.kind in
      if_IsNamed (str_eq kind "path_exists") kind _ _
        (λ e. path-kind w.tree_texts _ tree c.path false false ∙ same_text kind _ e)
        (if_IsNamed (str_eq kind "path_absent") kind _ _
          (λ e. path-kind w.tree_texts _ tree c.path true false ∙ same_text kind _ e)
          (if_IsNamed (str_eq kind "canary_file") kind _ _
            (λ e. path-kind w.tree_texts _ tree c.path false true ∙ same_text kind _ e)
            (if_IsNamed (str_eq kind "hash_match") kind _ _
              (λ e. hash_match-kind w.tree_texts tree ∙ same_text kind _ e)
              (if_IsNamed (str_eq kind "newest_file_max_age") kind _ _
                (λ e.
                  newest-kind w.tree_texts agg.newest c.newest_file_max_age now
                  ∙ same_text kind _ e)
                (if_IsNamed (str_eq kind "min_total_bytes") kind _ _
                  (λ e.
                    min_total-kind w.tree_texts agg.total c.min_total_bytes ∙ same_text kind _ e)
                  (if_IsNamed (str_eq kind "file_count_tolerance_pct") kind _ _
                    (λ e.
                      tolerance-kind w.tree_texts (pos agg.count) agg.prev
                        c.file_count_tolerance_pct
                      ∙ same_text kind _ e)
                    (if_IsNamed (str_eq kind "exec") kind _ _
                      (λ e. exec_script-kind w.tree_texts tree c.exec ∙ same_text kind _ e)
                      (if_IsNamed (str_eq kind "file_count") kind _ _
                        (λ e. counted-IsNamed kind c.file_count tree now (same_text kind _ e))
                        (if_IsNamed (str_eq kind "entropy_anomaly") kind _ _
                          (λ e. entropy-kind w.tree_texts tree ∙ same_text kind _ e) (tt))))))))))

  evidence_of-kind :
      (secrets : List String) (kind : String) (o : Option Evidence)
      → IsNamed kind o
      → (evidence_of w secrets kind o).kind ≡ kind
  evidence_of-kind secrets kind none h = refl
  evidence_of-kind secrets kind (some ev) h = h

  -- There is evidence of every check that is not switched off, in order.
  pub check_all-kinds :
      (secrets : List String) (agg : Aggregates) (tree : Tree) (now : Time) (cs : List Check)
      → map kind_of (check_all w secrets agg tree now cs) ≡ map check_kind (select is_enabled cs)
  unfolding check_all
  check_all-kinds secrets agg tree now [] = refl
  check_all-kinds secrets agg tree now (c ∷ cs) =
      let rest = check_all-kinds secrets agg tree now cs in
      let named = evidence_of-kind secrets c.kind _ (build_l2_check-IsNamed c agg tree now) in
      elim (Bool-cases (is_enabled c)) [
        | inl e ↦ rw (e) (
            ap (λ k. k ∷ map kind_of (check_all w secrets agg tree now cs)) named
            ∙ ap (λ ks. c.kind ∷ ks) rest)
        | inr e ↦ rw (e) rest
      ]
