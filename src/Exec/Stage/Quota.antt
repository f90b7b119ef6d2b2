-- ===== src/Exec/Stage/Quota.antt =====
-- What the quota of the scratch directory bounds.
use mathlib.Core.List.{append-nil, append_assoc}
use redrill.Prelude.{
  ℕ, suc, zero, ◌+◌, ◌-◌, ◌≤◌, ◌<◌, ◌≡◌, refl, sym, ap, ◌∙◌, String, Bool, true, false, Option,
  none, some, List, [], ◌∷◌, ◌++◌, take, length, length-append, ltb, ◌==◌, arith, min, inl, inr,
  Bool-cases,
}
use redrill.Prelude.Int.{ℤ, pos, ltb_ℤ}
use redrill.Exec.Stage.{
  Bytes, Disk, Stream, Files, write, copy, reader, decompress_to, quota_writer, resume, or_error,
  copied, decompressed,
}
use redrill.Checks.{Answer, got, broke}

-- A write takes no more than it is given.
abbrev pub Honest : Disk → Type 0
Honest disk = (file p : Bytes) → (disk file p).0 ≤ length p

-- The bytes of some chunks in order.
abbrev pub joined : List Bytes → Bytes
joined [] = []
joined (p ∷ ps) = p ++ joined ps

length-take : (n : ℕ) (p : Bytes) → length (take n p) ≡ min n (length p)
length-take zero p = omega arith
length-take (suc n) [] = omega arith
length-take (suc n) (x ∷ p) = omega (arith, length-take n p)

take-all : (p : Bytes) → take (length p) p ≡ p
take-all [] = refl
take-all (x ∷ p) = ap (λ q. x ∷ q) (take-all p)

-- One write under a limit takes no more than remains.
write-bound :
    (disk : Disk)
    → Honest disk
    → (r : ℕ) (file p : Bytes)
    → let (n, e, w) = write disk (some r) file p in (n ≤ r) × (w ≡ some (r - n))
unfolding write
write-bound disk h r file p = elim (Bool-cases (ltb r (length p))) [
  | inl t ↦ rw (t) (ground (arith, h file (take r p), length-take r p), refl)
  | inr f ↦ rw (f) (ground (arith, h file p), refl)
]

resume-bound :
    (m : ℕ) (file : Bytes) (e : Option String) (whole : Bool) (rest : Bytes × Option String)
    → length file ≤ m
    → length rest.0 ≤ m
    → length (resume file e whole rest).0 ≤ m
resume-bound m file none true rest h k = k
resume-bound m file none false rest h k = h
resume-bound m file (some why) whole rest h k = h

resume-whole :
    (file : Bytes) (e : Option String) (whole : Bool) (rest : Bytes × Option String)
    → (resume file e whole rest).1 ≡ none
    → (e ≡ none) × (whole ≡ true) × (rest.1 ≡ none) × (resume file e whole rest ≡ rest)
resume-whole file none true rest h = (refl, refl, h, refl)
resume-whole file none false rest h = ground arith
resume-whole file (some why) whole rest h = ground arith

eq_ℕ : (m n : ℕ) → (m == n) ≡ true → m ≡ n
eq_ℕ m n h = ground arith

-- A copy under a limit adds no more bytes than remain.
copy-bound :
    (disk : Disk)
    → Honest disk
    → (r : ℕ) (file : Bytes) (ps : List Bytes) (fault : Option String)
    → length (copy disk (some r) file ps fault).0 ≤ length file + r
unfolding copy
copy-bound disk h r file [] fault = omega arith
copy-bound disk h r file (p ∷ ps) fault =
    let w = write disk (some r) file p in
    let told = write-bound disk h r file p in
    let file1 = file ++ take w.0 p in
    let grown : length file1 ≤ length file + w.0 =
      omega (arith, length-append file (take w.0 p), length-take w.0 p) in
    let later : length (copy disk w.2 file1 ps fault).0 ≤ length file + r =
      rw (told.1) (omega (arith, copy-bound disk h (r - w.0) file1 ps fault, grown, told.0)) in
    resume-bound (length file + r) file1 w.1 (w.0 == length p) (copy disk w.2 file1 ps fault)
      (omega (arith, grown, told.0)) later

-- A copy without an error has copied every chunk.
copy-whole :
    (disk : Disk) (w : Option ℕ) (file : Bytes) (ps : List Bytes) (fault : Option String)
    → (copy disk w file ps fault).1 ≡ none
    → (copy disk w file ps fault).0 ≡ file ++ joined ps
unfolding copy
copy-whole disk w file [] fault e = sym (append-nil file)
copy-whole disk w file (p ∷ ps) fault e =
    let it = write disk w file p in
    let told =
      resume-whole (file ++ take it.0 p) it.1 (it.0 == length p)
        (copy disk it.2 (file ++ take it.0 p) ps fault) e in
    let rest = copy-whole disk it.2 (file ++ take it.0 p) ps fault told.2 in
    let all : take it.0 p ≡ p = ap (λ k. take k p) (eq_ℕ _ _ told.1) ∙ take-all p in
    ap (λ x. x.0) told.3
    ∙ rest
    ∙ ap (λ q. (file ++ q) ++ joined ps) all
    ∙ append_assoc file p (joined ps)

quota_ltb : (n : ℕ) → 0 < n → ltb_ℤ (pos 0) (pos n) ≡ true
quota_ltb n p = ground arith

module _ (fs : Files) (max_bytes : ℕ) (h : Honest fs.disk) (p : 0 < max_bytes) where
  or_error-bound :
      (e : Option String) (rest : Bytes × Option String)
      → length rest.0 ≤ max_bytes
      → length (or_error e rest).0 ≤ max_bytes
  or_error-bound none rest k = k
  or_error-bound (some why) rest k = omega arith

  copied-bound : (a : Answer Stream) → length (copied fs (pos max_bytes) a).0 ≤ max_bytes
  unfolding quota_writer
  copied-bound (broke why) = omega arith
  copied-bound (got s) =
      rw (quota_ltb max_bytes p) (omega (arith, copy-bound fs.disk h max_bytes [] s.chunks s.fault))

  decompressed-bound : (a : Answer Bytes) → length (decompressed fs (pos max_bytes) a).0 ≤ max_bytes
  decompressed-bound (broke why) = omega arith
  decompressed-bound (got input) =
      or_error-bound fs.seek_error _
        (or_error-bound fs.create_error _ (copied-bound (reader fs input)))

-- A dump is staged within the quota: if the quota is positive and a write to the disk takes no more
-- than it is given, the file that decompressTo leaves is no longer than the quota, whatever the
-- dump decompresses to and whether or not it reports an error.
pub decompress_to-bound :
    (fs : Files) (src : String) (max_bytes : ℕ)
    → Honest fs.disk
    → 0 < max_bytes
    → length (decompress_to fs src (pos max_bytes)).0 ≤ max_bytes
unfolding decompress_to quota_writer
decompress_to-bound fs src m h p = decompressed-bound fs m h p (fs.read src)

or_error-whole :
    (e : Option String) (rest : Bytes × Option String)
    → (or_error e rest).1 ≡ none
    → (rest.1 ≡ none) × (or_error e rest ≡ rest)
or_error-whole none rest h = (h, refl)
or_error-whole (some why) rest h = ground arith

copied-whole :
    (fs : Files) (m : ℤ) (s : Stream) (a : Answer Stream)
    → a ≡ got s
    → (copied fs m a).1 ≡ none
    → (copied fs m a).0 ≡ joined s.chunks
copied-whole fs m s a g = rw (g) (copy-whole fs.disk (quota_writer m) [] s.chunks s.fault)

-- A dump that is staged without an error is staged whole: with any quota, the file that decompressTo
-- leaves has every byte of the reader that the dump's magic number selects, in order.
pub decompress_to-whole :
    (fs : Files) (src : String) (max_bytes : ℤ) (input : Bytes) (s : Stream)
    → fs.read src ≡ got input
    → reader fs input ≡ got s
    → (decompress_to fs src max_bytes).1 ≡ none
    → (decompress_to fs src max_bytes).0 ≡ joined s.chunks
unfolding decompress_to
decompress_to-whole fs src m input s = λ r g. rw (r) (λ e.
    let second = or_error-whole fs.seek_error _ e in
    let third = or_error-whole fs.create_error _ second.0 in
    ap (λ x. x.0) (second.1 ∙ third.1) ∙ copied-whole fs m s (reader fs input) g third.0)
