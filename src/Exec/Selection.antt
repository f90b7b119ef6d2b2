-- ===== src/Exec/Selection.antt =====
-- What a sampled restore asks for.
use redrill.Prelude.{String, Bool, false, ◌||◌, List, [], ◌∷◌, str_eq, select, map}
use redrill.Prelude.Int.{ℤ}
use redrill.Config.{Sample}
use redrill.Exec.Sample.{FileEntry}

-- Some entry has the path; some path is listed.
abbrev pub has_path : String → List FileEntry → Bool
has_path p [] = false
has_path p (f ∷ fs) = str_eq f.path p || has_path p fs

abbrev pub is_listed : String → List String → Bool
is_listed p [] = false
is_listed p (x ∷ xs) = str_eq x p || is_listed p xs

abbrev keys : List (String × ℤ) → List String
keys = map (λ e. e.0)

abbrev pub regular : List FileEntry → List FileEntry
regular = select (λ f. f.is_file)
