-- ===== src/Checks/Dump.antt =====
-- internal/checks/dumpfile.go: the checks of a dump where it lies. What the operating system and the
-- decompressors answer about the file is a parameter.
use Prim.Native.String.{◌++◌ as str_append}
use redrill.Prelude.{String, ◌||◌, Option, none, some, str_eq, if◌then◌else◌}
use redrill.Prelude.Int.{ℤ, leb_ℤ}
use redrill.Clock.{Time, Duration, sub}
use redrill.Checks.{Status, Evidence, Answer, got, broke}
use redrill.Checks.Snapshot.{Texts}
use redrill.Checks.Sandboxed.{new_evidence, conclude}

-- How a test of a compressed file ends: no error, an error of reading the disk, or one of the data.
pub data Tested : Type 0 where
  valid : Tested
  unreadable corrupt : String → Tested

-- A dump: its base name and extension in lower case, the answer of Stat, whether it opens, and how gzip
-- and zstd decompress it.
pub record DumpFile : Type 0 where
  pub base : String
  pub extension : String
  pub stat : Answer (ℤ × Time)
  pub open_error : Option String
  pub gzip : Tested
  pub zstd : Tested

module _ (texts : Texts) (age_text : Time → Time → String) where
  -- FileMinBytes.Run
  unfoldable pub file_min_bytes : DumpFile → ℤ → Evidence
  file_min_bytes f min =
      let ev =
        new_evidence "file_min_bytes" f.base
          (str_append ">= " (str_append (texts.of_int min) " bytes")) in
      elim f.stat [
        | broke why ↦ conclude ev Status.error (str_append "stat: " why)
        | got (size, t) ↦
            conclude ev (if leb_ℤ min size then Status.pass else Status.fail)
              (str_append (texts.of_int size) " bytes")
      ]

  -- setCompressionResult
  unfoldable pub set_compression_result : Evidence → Tested → Evidence
  set_compression_result ev valid = conclude ev Status.pass "ok"
  set_compression_result ev (unreadable why) = conclude ev Status.error (str_append "read: " why)
  set_compression_result ev (corrupt why) = conclude ev Status.fail why

  -- CompressionTest.Run
  unfoldable pub compression_test : DumpFile → Evidence
  unfolding set_compression_result
  compression_test f =
      let ev = λ (expected : String). new_evidence "compression_test" f.base expected in
      elim f.open_error [
        | some why ↦ conclude (ev "readable") Status.error (str_append "open: " why)
        | none ↦
            if str_eq f.extension ".gz" || str_eq f.extension ".gzip"
            then set_compression_result (ev "valid gzip") f.gzip
            else if str_eq f.extension ".zst" || str_eq f.extension ".zstd"
            then set_compression_result (ev "valid zstd") f.zstd
            else conclude (ev "gzip or zstd by extension") Status.error
                (str_append "unrecognized extension " f.extension)
      ]

  -- MaxAge.Run
  unfoldable pub max_age : DumpFile → Duration → Time → Evidence
  max_age f max now =
      let ev = new_evidence "max_age" f.base (str_append "age <= " (texts.of_duration max)) in
      elim f.stat [
        | broke why ↦ conclude ev Status.error (str_append "stat: " why)
        | got (size, t) ↦
            conclude ev (if leb_ℤ (sub now t) max then Status.pass else Status.fail)
              (age_text now t)
      ]
