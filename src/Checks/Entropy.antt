-- ===== src/Checks/Entropy.antt =====
-- internal/checks/entropy.go: the advisory check for text files that are near random. The entropy of a
-- file's first bytes is a parameter.
use Prim.Native.String.{◌++◌ as str_append}
use redrill.Prelude.{
  ℕ, suc, ◌*◌, String, Bool, true, false, not, ◌&&◌, ◌||◌, none, some, List, [], ◌∷◌, str_eq, leb,
  ◌==◌, if◌then◌else◌,
}
use redrill.Prelude.Int.{pos, ltb_ℤ}
use redrill.Text.{after_last}
use redrill.Redact.{mem}
use redrill.Checks.{Status, Evidence, Answer, got, broke}
use redrill.Checks.Snapshot.{Texts}
use redrill.Checks.Sandboxed.{new_evidence, conclude}
use redrill.Checks.Tree.{Entry, Tree, TreeTexts}

module _ (say : TreeTexts) where
  abbrev texts : Texts
  texts = say.of_texts

  -- textClass
  abbrev pub text_extensions : List String
  text_extensions =
      ".txt" ∷ ".md" ∷ ".sql" ∷ ".csv" ∷ ".json" ∷ ".xml" ∷ ".yaml" ∷ ".yml" ∷ ".ini" ∷ ".conf"
      ∷ ".cfg" ∷ ".toml" ∷ ".log" ∷ ".html" ∷ ".htm" ∷ ".css" ∷ ".php" ∷ ".py" ∷ ".js" ∷ ".ts"
      ∷ ".sh" ∷ ".go" ∷ ".java" ∷ ".rb" ∷ ".pl" ∷ []

  unfoldable pub text_class : String → Bool
  unfolding after_last
  text_class name = elim (after_last b'.' name) [
    | none ↦ false
    | some e ↦ mem (say.lower (str_append "." e)) text_extensions
  ]

  -- The walk of EntropyAnomaly.Run: how many text-class files, how many near random, the first of them.
  pub record Tally : Type 0 where
    pub total : ℕ
    pub flagged : ℕ
    pub example : String

  abbrev pub tallied : Entry → Tally → Answer Tally
  tallied e t = elim e.info [
    | broke why ↦ broke why
    | got (size, time) ↦ if ltb_ℤ size (pos 64) then got t else elim e.entropy [
      | broke why ↦ broke why
      | got (false, bits) ↦ got (record t { total = suc t.total })
      | got (true, bits) ↦
          let rel : String = elim e.rel [ broke why ↦ e.name | got r ↦ r ] in
          got (record {
            total = suc t.total;
            flagged = suc t.flagged;
            example = if str_eq t.example "" then say.of_example rel bits else t.example;
          })
    ]
  ]

  unfoldable pub tally : List Entry → Tally → Answer Tally
  unfolding text_class
  tally [] t = got t
  tally (e ∷ es) t = elim e.fault [
    | some why ↦ broke why
    | none ↦
        if not e.is_regular || not (text_class e.name)
        then tally es t
        else elim (tallied e t) [ broke why ↦ broke why | got u ↦ tally es u ]
  ]

  -- EntropyAnomaly.Run
  unfoldable pub entropy_anomaly : Tree → Evidence
  unfolding tally
  entropy_anomaly tree =
      let ev : Evidence =
        record (new_evidence "entropy_anomaly" "restored text-class files"
          "structured content, not near-random bytes") { weak = true } in
      elim (tally tree.entries (record { total = 0; flagged = 0; example = "" })) [
        | broke why ↦ conclude ev Status.error (str_append "walk: " why)
        | got t ↦ conclude ev Status.pass (
            if t.total == 0
            then "no signal — no text-class files restored"
            else if leb 2 t.flagged && leb t.total (t.flagged * 10)
            then say.of_anomaly t.flagged t.total t.example
            else str_append (texts.of_int (pos t.flagged)) (
                str_append " of "
                  (str_append (texts.of_int (pos t.total)) " text-class files near-random")))
      ]
