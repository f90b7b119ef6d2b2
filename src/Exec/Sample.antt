-- ===== src/Exec/Sample.antt =====
-- internal/exec/sample.go: selectSample and underAny. The permutation that the seeded random generator
-- makes is a parameter, a list of positions by the seed and the length. The map of picked paths is an
-- association list, sorted at the end as the code sorts its keys.
use Prim.Native.String.{len, slice, compare, ◌++◌ as str_append}
use text.Mathlib.Text.{starts_with, is_lt}
use redrill.Prelude.{
  ℕ, suc, ◌-◌, String, Bool, false, not, ◌&&◌, ◌||◌, Option, none, some, List, [], ◌∷◌, ◌++◌,
  str_eq, ltb, ◌==◌, if◌then◌else◌, take, select, map, get_elem?,
}
use redrill.Prelude.Int.{ℤ, pos, pos_part, ◌+ℤ◌}
use redrill.Clock.{Time, after}
use redrill.Config.{Sample}

-- driver.FileEntry
pub record FileEntry : Type 0 where
  pub path : String
  pub size : ℤ
  pub mtime : Time
  pub is_file : Bool

-- strings.HasSuffix(p, "/") and strings.TrimSuffix(p, "/")
abbrev pub ends_with_slash : String → Bool
ends_with_slash p = ltb 0 (len p) && str_eq (slice p (len p - 1) (len p)) "/"

abbrev pub trim_slash : String → String
trim_slash p = if ends_with_slash p then slice p 0 (len p - 1) else p

-- underAny
unfoldable pub under_any : String → List String → Bool
under_any path [] = false
under_any path (p ∷ ps) =
    let dir = trim_slash p in
    str_eq path dir || starts_with path (str_append dir "/") || under_any path ps

-- The order of the newest files: by time, the latest first, then by path.
abbrev pub is_newer : FileEntry → FileEntry → Bool
is_newer a b = if a.mtime == b.mtime then is_lt (compare a.path b.path) else after a.mtime b.mtime

abbrev pub insert_newest : FileEntry → List FileEntry → List FileEntry
insert_newest f [] = f ∷ []
insert_newest f (g ∷ gs) =
    let rest = insert_newest f gs in if is_newer g f then g ∷ rest else f ∷ g ∷ gs

abbrev pub sort_newest : List FileEntry → List FileEntry
sort_newest [] = []
sort_newest (f ∷ fs) = insert_newest f (sort_newest fs)

-- picked[f.Path] = f.Size, in a list sorted by path
abbrev pub pick : FileEntry → List (String × ℤ) → List (String × ℤ)
pick f [] = (f.path, f.size) ∷ []
pick f ((p, n) ∷ rest) =
    let further = pick f rest in
    if str_eq p f.path
    then (p, f.size) ∷ rest
    else if is_lt (compare f.path p)
    then (f.path, f.size) ∷ (p, n) ∷ rest
    else (p, n) ∷ further

abbrev pub pick_all : List FileEntry → List (String × ℤ) → List (String × ℤ)
pick_all [] picked = picked
pick_all (f ∷ fs) picked = pick_all fs (pick f picked)

abbrev pub included : List String → List FileEntry → List FileEntry
included include_paths = select (λ f. f.is_file && under_any f.path include_paths)

-- The pool that the sample is taken from.
abbrev pub pool : List String → List FileEntry → List FileEntry
pool include_paths = select (λ f. f.is_file && not (under_any f.path include_paths))

-- The entries at positions; one out of range, which Perm never gives, is left out.
abbrev pub at_positions : List ℕ → List FileEntry → List FileEntry
at_positions [] fs = []
at_positions (i ∷ is) fs =
    let rest = at_positions is fs in elim (get_elem? fs i) [ none ↦ rest | some f ↦ f ∷ rest ]

abbrev pub total_size : List (String × ℤ) → ℤ
total_size [] = pos 0
total_size ((p, n) ∷ rest) = n +ℤ total_size rest

abbrev pub length_of : List FileEntry → ℕ
length_of [] = 0
length_of (f ∷ fs) = suc (length_of fs)

module _ (perm : ℕ → ℕ → List ℕ) where
  -- The part of selectSample under `sample != nil`.
  abbrev pub sampled : Option Sample → List FileEntry → ℕ → List FileEntry
  sampled none files seed = []
  sampled (some s) files seed =
      take (pos_part s.newest) (sort_newest files)
      ++ at_positions (take (pos_part s.files) (perm seed (length_of files))) files

  -- selectSample: the paths, sorted, and their predicted size
  unfoldable pub select_sample : List FileEntry → Option Sample → List String → ℕ → List String × ℤ
  unfolding under_any
  select_sample files sample include_paths seed =
      let picked =
        pick_all (included include_paths files ++ sampled sample (pool include_paths files) seed)
          [] in
      (map (λ e. e.0) picked, total_size picked)
