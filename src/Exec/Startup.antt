-- ===== src/Exec/Startup.antt =====
-- internal/exec/scratch.go and exec.go: the scratch directories that a crashed process left (CleanStaleScratch),
-- the free bytes of a disk, and whether a source is reachable (ValidateSource).
use Prim.Native.String.{◌++◌ as str_append}
use redrill.Prelude.{
  ℕ, suc, ◌*◌, ◌%◌, ◌≡◌, refl, ap, ◌∙◌, String, Bool, ◌&&◌, ◌||◌, Option, none, some, List, [], ◌∷◌,
  ◌++◌, str_eq, if◌then◌else◌, select, map, arith, inl, inr, Bool-cases,
}
use redrill.Prelude.Int.{ℤ, pos, leb_ℤ, pos_part}
use redrill.Text.{has_prefix}
use redrill.Exec.World.{World, Vault, DumpDir, clean}

-- An entry of the directory, and what os.ReadDir answers.
pub record DirEntry : Type 0 where
  pub name : String
  pub is_dir : Bool

pub data Listing : Type 0 where
  listed : List DirEntry → Listing
  absent : Listing
  unreadable : String → Listing

-- What is done: a mount that is found is unmounted, a directory is removed.
pub data Sweep : Type 0 where
  unmounting removing : String → Sweep

abbrev pub is_stale : DirEntry → Bool
is_stale e = e.is_dir && has_prefix "run-" e.name

module _ (join : String → String → String) (has_dir : String → Bool)
    (remove : String → Option String) where
  abbrev pub sweep_one : String → List Sweep
  sweep_one path =
      if has_dir (join path "mnt")
      then unmounting (join path "mnt") ∷ removing path ∷ []
      else removing path ∷ []

  -- What the removal of a directory leads to, with what the rest of the loop does.
  abbrev pub swept :
      Option String → String → ℕ × Option String × List Sweep → ℕ × Option String × List Sweep
  swept (some why) path rest = (0, some why, sweep_one path)
  swept none path rest = (suc rest.0, rest.1, sweep_one path ++ rest.2)

  -- The loop: how many directories were removed, the error that ends it, and what was done.
  abbrev pub sweep : String → List DirEntry → ℕ × Option String × List Sweep
  sweep base [] = (0, none, [])
  sweep base (e ∷ es) =
      let rest = sweep base es in
      let path = join base e.name in if is_stale e then swept (remove path) path rest else rest

  -- CleanStaleScratch
  unfoldable pub clean_stale_scratch : String → Listing → ℕ × Option String × List Sweep
  clean_stale_scratch base absent = (0, none, [])
  clean_stale_scratch base (unreadable why) =
      (0, some (str_append "clean scratch " (str_append base (str_append ": " why))), [])
  clean_stale_scratch base (listed es) = sweep base es

  -- The directories that were removed, or tried.
  abbrev pub removed : List Sweep → List String
  removed [] = []
  removed (unmounting p ∷ rest) = removed rest
  removed (removing p ∷ rest) = p ∷ removed rest

  removed-one :
      (path : String) (rest : List Sweep) → removed (sweep_one path ++ rest) ≡ path ∷ removed rest
  removed-one path rest = elim (Bool-cases (has_dir (join path "mnt"))) [
    | inl e ↦ rw (e) refl
    | inr e ↦ rw (e) refl
  ]

  swept-removed :
      (r : Option String) (path : String) (rest : ℕ × Option String × List Sweep)
      → (swept r path rest).1 ≡ none
      → (rest.1 ≡ none) × (removed (swept r path rest).2 ≡ path ∷ removed rest.2)
  swept-removed none path rest h = (h, removed-one path rest.2)
  swept-removed (some why) path rest h = ground arith

  -- Without an error, what is removed is every directory whose name begins with `run-`, in their order,
  -- and nothing else.
  removed-sweep :
      (base : String) (es : List DirEntry)
      → (sweep base es).1 ≡ none
      → removed (sweep base es).2 ≡ map (λ e. join base e.name) (select is_stale es)
  removed-sweep base [] = λ h. refl
  removed-sweep base (e ∷ es) = elim (Bool-cases (is_stale e)) [
    | inl t ↦ rw (t) (λ h.
        let path = join base e.name in
        let told = swept-removed (remove path) path (sweep base es) h in
        told.1 ∙ ap (λ ps. path ∷ ps) (removed-sweep base es told.0))
    | inr f ↦ rw (f) (removed-sweep base es)
  ]

-- availableBytes: a product of `uint64`s
unfoldable pub available_bytes : ℕ → ℤ → ℕ
available_bytes blocks block_size =
    if leb_ℤ block_size (pos 0) then 0 else blocks * pos_part block_size % 18446744073709551616

module _ (w : World) where
  -- ValidateSource: the error, by the source's driver
  unfoldable pub validate_source : String → Vault → DumpDir → Option String
  validate_source type vault dumps =
      if str_eq type "dumpdir"
      then dumps.validate_error
      else if str_eq type "borg" || str_eq type "restic"
      then elim vault.secret_error [
        | some why ↦ some why
        | none ↦ elim vault.validate_error [
          | none ↦ none
          | some why ↦ some (clean w vault.secrets why)
        ]
      ]
      else some "unknown source type"
