-- ===== src/LiteSvm/Programs/Sources.antt =====
-- Which binary `get_program_bytes` takes.
use wormhole_svm_utils.Prelude.{
  ◌≡◌, refl, sym, ap, ◌∙◌, Bool-cases, inl, inr, Option-cases, true, false, List, [], ◌∷◌, ◌++◌,
  Option, none, some, Result, ok, err, map_err, All,
}
use wormhole_svm_utils.Prelude.Bytes.{Bytes}
use wormhole_svm_utils.LiteSvm.Errors.{WormholeTestError, program_not_found, io_error}
use wormhole_svm_utils.LiteSvm.Programs.{
  FilePath, FileSystem, search_paths, first_existing, find_program_file, get_program_bytes,
}

module _ {I : Type 0} (fs : FileSystem I) (filename : Bytes) where
  abbrev IsMissing : FilePath → Type 0
  IsMissing dir = fs.exists (fs.join dir filename) ≡ false

  -- The file is in `dir`, and in none of the paths before it.
  pub record FoundIn (dirs : List FilePath) (dir : FilePath) : Type 0 where
    pub before : List FilePath
    pub later : List FilePath
    pub searched : dirs ≡ before ++ (dir ∷ later)
    pub missing : All IsMissing before
    pub there : fs.exists (fs.join dir filename) ≡ true

  abbrev Found : Type 0 → Type 0 → Type 0 → Type 0
  Found V F E = Result (WormholeTestError V F E I) Bytes

  -- The sources in the order of their priority.
  pub data Takes {V F E : Type 0} : Option FilePath → Option Bytes → Found V F E → Type 0 where
    explicit_file :
        {path : FilePath} {bundled : Option Bytes}
        → fs.exists path ≡ true
        → Takes (some path) bundled (map_err io_error (fs.read path))
    explicit_missing :
        {path : FilePath} {bundled : Option Bytes}
        → fs.exists path ≡ false
        → Takes (some path) bundled (err (program_not_found filename (path ∷ [])))
    bundled_bytes : {bytes : Bytes} → Takes none (some bytes) (ok bytes)
    found_file :
        {dir : FilePath}
        → FoundIn (search_paths fs) dir
        → Takes none none (map_err io_error (fs.read (fs.join dir filename)))
    nowhere :
        All IsMissing (search_paths fs)
        → Takes none none (err (program_not_found filename (search_paths fs)))

  first_existing-here :
      (dir : FilePath) (dirs : List FilePath)
      → fs.exists (fs.join dir filename) ≡ true
      → first_existing fs filename (dir ∷ dirs) ≡ some (fs.join dir filename)
  unfolding first_existing
  first_existing-here dir dirs e = rw (first_existing, e)

  first_existing-later :
      (dir : FilePath) (dirs : List FilePath)
      → IsMissing dir
      → first_existing fs filename (dir ∷ dirs) ≡ first_existing fs filename dirs
  unfolding first_existing
  first_existing-later dir dirs e = rw (first_existing, e)

  FoundIn-later :
      (dir : FilePath) (dirs : List FilePath) {found : FilePath}
      → IsMissing dir
      → FoundIn dirs found
      → FoundIn (dir ∷ dirs) found
  FoundIn-later dir dirs e f = record {
    before = dir ∷ f.before;
    later = f.later;
    searched = ap (λ (ds : List FilePath). dir ∷ ds) f.searched;
    missing = (e, f.missing);
    there = f.there;
  }

  first_existing-FoundIn :
      (dirs : List FilePath) {path : FilePath}
      → first_existing fs filename dirs ≡ some path
      → (dir : FilePath) × FoundIn dirs dir × (path ≡ fs.join dir filename)
  unfolding first_existing
  first_existing-FoundIn [] h = cc
  first_existing-FoundIn (dir ∷ dirs) {path} h =
      elim (Bool-cases (fs.exists (fs.join dir filename))) [
        | inl e ↦ (
          dir,
          record { before = []; later = dirs; searched = refl; missing = tt; there = e },
          let same : some path ≡ some (fs.join dir filename) =
                sym h ∙ first_existing-here dir dirs e in
              cc,
        )
        | inr e ↦
            let (found, f, same) =
              first_existing-FoundIn dirs (sym (first_existing-later dir dirs e) ∙ h) in
            (found, FoundIn-later dir dirs e f, same)
      ]

  first_existing-none :
      (dirs : List FilePath) → first_existing fs filename dirs ≡ none → All IsMissing dirs
  first_existing-none [] h = tt
  first_existing-none (dir ∷ dirs) h = elim (Bool-cases (fs.exists (fs.join dir filename))) [
    | inl e ↦
        let found : some (fs.join dir filename) ≡ none = sym (first_existing-here dir dirs e) ∙ h in
        cc
    | inr e ↦ (e, first_existing-none dirs (sym (first_existing-later dir dirs e) ∙ h))
  ]

  -- `get_program_bytes` reads the explicit path if one is given, and fails if it does not exist;
  -- without one it takes the bundled binary; without that it reads the file from the first search
  -- path that has it, and fails with all the search paths if none does. A failed read is the
  -- reader's error.
  pub get_program_bytes-Takes :
      {V F E : Type 0} (explicit_path : Option FilePath) (bundled : Option Bytes)
      → Takes {V = V} {F = F} {E = E} explicit_path bundled
          (get_program_bytes fs filename explicit_path bundled)
  unfolding get_program_bytes find_program_file
  get_program_bytes-Takes (some path) bundled = elim (Bool-cases (fs.exists path)) [
    | inl e ↦ rw (get_program_bytes, e) (explicit_file e)
    | inr e ↦ rw (get_program_bytes, e) (explicit_missing e)
  ]
  get_program_bytes-Takes none (some bytes) = bundled_bytes
  get_program_bytes-Takes none none =
      elim (Option-cases (first_existing fs filename (search_paths fs))) [
        | inl e ↦ rw (find_program_file, e) (nowhere (first_existing-none _ e))
        | inr (path, e) ↦
            let (dir, f, same) = first_existing-FoundIn (search_paths fs) e in
            rw (find_program_file, e, same) (found_file f)
      ]
