-- ===== src/Exec/Stage.antt =====
-- internal/exec/l3.go: a dump is decompressed into the scratch directory, within the quota, and its
-- format is read. A file is a list of bytes; the gzip and zstd libraries and the disk are parameters.
pub mod Quota
use Prim.Native.String.{◌++◌ as str_append}
use redrill.Prelude.{
  ℕ, ◌-◌, ◌≤◌, ◌≡◌, String, Bool, true, false, ◌&&◌, Option, none, some, List, [], ◌∷◌, ◌++◌, take,
  length, ltb, ◌==◌, if◌then◌else◌,
}
use redrill.Prelude.Int.{ℤ, pos, ltb_ℤ, pos_part}
use redrill.Text.{clamped}
use redrill.Checks.{Answer, got, broke}

abbrev pub Bytes : Type 0
Bytes = List ℕ

-- What a reader gives, chunk by chunk, and the error that ends it, if one does.
pub record Stream : Type 0 where
  pub chunks : List Bytes
  pub fault : Option String

-- A write to a file: by what the file has and the bytes given, how many it takes, and an error.
abbrev pub Disk : Type 0
Disk = Bytes → Bytes → ℕ × Option String

-- The operating system and the libraries, as stageDump meets them.
pub record Files : Type 0 where
  pub read : String → Answer Bytes
  pub seek_error : Option String
  pub create_error : Option String
  pub reopen_error : Option String
  pub gunzip : Bytes → Answer Stream
  pub unzstd : Bytes → Answer Stream
  pub plain : Bytes → Stream
  pub disk : Disk
  pub base : String → String

-- quotaWriter: the bytes that remain, or no limit. What remains is no less than 0, since a write takes
-- no more than it is given.
unfoldable pub quota_writer : ℤ → Option ℕ
quota_writer max_bytes = if ltb_ℤ (pos 0) max_bytes then some (pos_part max_bytes) else none

-- Write, of a file or of a limitedWriter over it: how many bytes it took, its error, what remains.
unfoldable pub write : Disk → Option ℕ → Bytes → Bytes → ℕ × Option String × Option ℕ
write disk none file p = let (n, e) = disk file p in (n, e, none)
write disk (some remaining) file p =
    if ltb remaining (length p)
    then (let (n, e) = disk file (take remaining p) in
        (n, some "scratch quota exceeded", some (remaining - n)))
    else (let (n, e) = disk file p in (n, e, some (remaining - n)))

-- What a copy leaves after a write: by its error, and by whether it took all that it was given.
abbrev pub resume : Bytes → Option String → Bool → Bytes × Option String → Bytes × Option String
resume file (some why) whole rest = (file, some why)
resume file none whole rest = if whole then rest else (file, some "short write")

-- io.Copy: the file, and the first error.
unfoldable pub copy : Disk → Option ℕ → Bytes → List Bytes → Option String → Bytes × Option String
unfolding write
copy disk w file [] fault = (file, fault)
copy disk w file (p ∷ ps) fault =
    let (n, e, w1) = write disk w file p in
    let file1 = file ++ take n p in
    let rest = copy disk w1 file1 ps fault in resume file1 e (n == length p) rest

abbrev is_gzip : Bytes → Bool
is_gzip (a ∷ b ∷ rest) = a == 31 && b == 139
is_gzip _ = false

abbrev is_zstd : Bytes → Bool
is_zstd (a ∷ b ∷ c ∷ d ∷ rest) = a == 40 && b == 181 && c == 47 && d == 253
is_zstd _ = false

-- The reader that the magic number selects.
abbrev pub reader : Files → Bytes → Answer Stream
reader fs input =
    if is_gzip (take 4 input)
    then fs.gunzip input
    else if is_zstd (take 4 input)
    then fs.unzstd input
    else got (fs.plain input)

-- What follows an early return of an error.
abbrev pub or_error : Option String → Bytes × Option String → Bytes × Option String
or_error (some why) rest = ([], some why)
or_error none rest = rest

-- The copy, if the reader starts.
abbrev pub copied : Files → ℤ → Answer Stream → Bytes × Option String
copied fs max_bytes (broke why) = ([], some why)
copied fs max_bytes (got s) = copy fs.disk (quota_writer max_bytes) [] s.chunks s.fault

abbrev pub decompressed : Files → ℤ → Answer Bytes → Bytes × Option String
decompressed fs max_bytes (broke why) = ([], some why)
decompressed fs max_bytes (got input) =
    or_error fs.seek_error (or_error fs.create_error (copied fs max_bytes (reader fs input)))

-- decompressTo: the file that it leaves, and its error
unfoldable pub decompress_to : Files → String → ℤ → Bytes × Option String
unfolding copy quota_writer
decompress_to fs src max_bytes = decompressed fs max_bytes (fs.read src)

abbrev is_pgdmp : Bytes → Bool
is_pgdmp (a ∷ b ∷ c ∷ d ∷ e ∷ rest) = a == 80 && b == 71 && c == 68 && d == 77 && e == 80
is_pgdmp _ = false

-- dumpFormat
unfoldable pub dump_format : Files → Bytes → Answer String
dump_format fs file = elim fs.reopen_error [
  | some why ↦ broke why
  | none ↦ got (if is_pgdmp (take 5 file) then "custom" else "plain")
]

-- stageDump: the file `dump` in the scratch directory, and its format
unfoldable pub stage_dump : Files → String → ℤ → Answer (Bytes × String)
unfolding decompress_to dump_format
stage_dump fs src max_bytes =
    let (file, e) = decompress_to fs src max_bytes in
    elim e [
      | some why ↦ broke (str_append "stage dump " (str_append (fs.base src) (str_append ": " why)))
      | none ↦ elim (dump_format fs file) [
        | broke why ↦ broke why
        | got format ↦ got (file, format)
      ]
    ]

-- The first version that a line names.
abbrev pub first_version : (String → Option String) → List String → ℕ
first_version version_in [] = 0
first_version version_in (l ∷ ls) =
    let rest = first_version version_in ls in
    elim (version_in l) [ none ↦ rest | some v ↦ clamped v ]

-- plainDumpMajor, by the lines that bufio.Scanner reads, none if the file does not open
unfoldable pub plain_dump_major : (String → Option String) → List String → ℕ
plain_dump_major version_in lines = first_version version_in (take 300 lines)
