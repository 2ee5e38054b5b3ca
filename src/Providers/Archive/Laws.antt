-- ===== src/Providers/Archive/Laws.antt =====
-- What the loops write, and where.
use fpd.Base.{
  ℕ, ◌≡◌, refl, ◌∙◌, arith, Bool, true, false, not, Option, none, some, List, [], ◌∷◌, Outcome, ok,
  err, panicked, bytes_eq, if◌then◌else◌, All, Option-cases, ◌⊎◌, inl, inr,
}
use fpd.Providers.{
  Text, Error, Detail, Effect, unpack, write, copy, no_archived_name, no_zipped_name,
  no_artifact_name, Disk, Done, attempt,
}
use fpd.Providers.Paths.{file_stem, extension, chosen_dir, get_provider_destination}
use fpd.Providers.Paths.Laws.{IsIn, NoSlash, file_stem-NoSlash, get_provider_destination-IsIn}
use fpd.Providers.Archive.{
  TarEntry, ZipFile, is_wasm, at_path, at_destination, unpack_at, write_at, copy_at, unpack_entries,
  write_files, copy_entries,
}

-- The effect puts a file directly into the directory.
abbrev pub Fills : Text → Effect → Type 0
Fills dir (unpack entry_type content path) = IsIn dir path
Fills dir (write path content) = IsIn dir path
Fills dir (copy from path) = IsIn dir path
Fills dir _ = ⊥

abbrev pub FillsOnly : Text → Done → Type 0
FillsOnly dir d = All (Fills dir) d.effects

module _ (disk : Disk) (wasm_dir : Option Text) {dir : Text}
    (chosen : chosen_dir disk wasm_dir ≡ ok dir) where
  attempt-FillsOnly :
      (e : Effect) (next : Done)
      → Fills dir e
      → FillsOnly dir next
      → FillsOnly dir (attempt disk e next)
  attempt-FillsOnly e next h all = elim (Option-cases (disk.fails e)) [
    | inl works ↦ rw works (h, all)
    | inr (x, failed) ↦ rw failed (h, tt)
  ]

  at_path-FillsOnly :
      (effect : Text → Effect) (next : Done) (o : Outcome Error Text)
      → ((p : Text) → IsIn dir p → Fills dir (effect p))
      → FillsOnly dir next
      → ((p : Text) → o ≡ ok p → IsIn dir p)
      → FillsOnly dir (at_path disk wasm_dir effect next o)
  at_path-FillsOnly effect next (ok p) fills all in_dir =
      attempt-FillsOnly (effect p) next (fills p (in_dir p refl)) all
  at_path-FillsOnly effect next (err e) fills all in_dir = tt
  at_path-FillsOnly effect next panicked fills all in_dir = tt

  at_destination-FillsOnly :
      (missing : Detail) (o : Option Text) (effect : Text → Effect) (next : Done)
      → ((p : Text) → IsIn dir p → Fills dir (effect p))
      → FillsOnly dir next
      → ((stem : Text) → o ≡ some stem → NoSlash stem)
      → FillsOnly dir (at_destination disk wasm_dir missing o effect next)
  unfolding at_destination
  at_destination-FillsOnly missing none effect next fills all free = tt
  at_destination-FillsOnly missing (some stem) effect next fills all free =
      at_path-FillsOnly effect next (get_provider_destination disk wasm_dir stem) fills all
        (λ p h. get_provider_destination-IsIn disk wasm_dir stem (free stem refl) chosen h)

  -- The stem of a path as a provider.
  stem-FillsOnly :
      (missing : Detail) (path : Text) (effect : Text → Effect) (next : Done)
      → ((p : Text) → IsIn dir p → Fills dir (effect p))
      → FillsOnly dir next
      → FillsOnly dir (at_destination disk wasm_dir missing (file_stem path) effect next)
  stem-FillsOnly missing path effect next fills all =
      at_destination-FillsOnly missing (file_stem path) effect next fills all
        (λ stem h. file_stem-NoSlash path h)

  if-FillsOnly :
      (b : Bool) (x y : Done)
      → FillsOnly dir x
      → FillsOnly dir y
      → FillsOnly dir (if b then x else y)
  if-FillsOnly true x y h g = h
  if-FillsOnly false x y h g = g

  unpack_at-FillsOnly :
      (entry : TarEntry) (rest : Done) (path : ℕ ⊎ Text)
      → FillsOnly dir rest
      → FillsOnly dir (unpack_at disk wasm_dir entry rest path)
  unfolding unpack_at
  unpack_at-FillsOnly entry rest (inl e) all = tt
  unpack_at-FillsOnly entry rest (inr path) all =
      if-FillsOnly (not (is_wasm (extension path))) rest _ all (
        stem-FillsOnly no_archived_name path (unpack entry.entry_type entry.content) rest (λ p h. h)
          all)

  -- Whatever the entries of a tarball are called, and whether or not the loop comes to an end, each
  -- file that it unpacks goes directly into the chosen directory, and it changes nothing else.
  pub unpack_entries-FillsOnly :
      (entries : List (ℕ ⊎ TarEntry)) → FillsOnly dir (unpack_entries disk wasm_dir entries)
  unfolding unpack_entries
  unpack_entries-FillsOnly [] = tt
  unpack_entries-FillsOnly (inl e ∷ entries) = tt
  unpack_entries-FillsOnly (inr entry ∷ entries) =
      unpack_at-FillsOnly entry (unpack_entries disk wasm_dir entries) entry.path
        (unpack_entries-FillsOnly entries)

  write_at-FillsOnly :
      (name : Text) (rest : Done) (o : Option Text) (content : ℕ ⊎ List ℕ)
      → file_stem name ≡ o
      → FillsOnly dir rest
      → FillsOnly dir (write_at disk wasm_dir o rest content)
  unfolding write_at
  write_at-FillsOnly name rest none content e all = tt
  write_at-FillsOnly name rest (some provider) (inl x) e all = tt
  write_at-FillsOnly name rest (some provider) (inr buffer) e all =
      at_destination-FillsOnly no_zipped_name (some provider) (λ p. write p buffer) rest (λ p h. h)
        all (λ stem h. file_stem-NoSlash name (e ∙ h))

  -- Whatever the files of a zip archive are called, and whether or not the loop comes to an end,
  -- each file that it writes is directly in the chosen directory, and it changes nothing else.
  pub write_files-FillsOnly :
      (files : List (ℕ ⊎ ZipFile)) → FillsOnly dir (write_files disk wasm_dir files)
  unfolding write_files
  write_files-FillsOnly [] = tt
  write_files-FillsOnly (inl e ∷ files) = tt
  write_files-FillsOnly (inr file ∷ files) =
      write_at-FillsOnly file.name (write_files disk wasm_dir files) (file_stem file.name)
        file.content refl (write_files-FillsOnly files)

-- The paths that an archive lists with the extension `wasm`, in order.
abbrev pub wasm_paths : List (ℕ ⊎ Text) → List Text
wasm_paths [] = []
wasm_paths (inl e ∷ entries) = wasm_paths entries
wasm_paths (inr path ∷ entries) =
    if is_wasm (extension path) then path ∷ wasm_paths entries else wasm_paths entries

-- The files that were copied, in order.
abbrev pub copied : List Effect → List Text
copied [] = []
copied (copy from path ∷ effects) = from ∷ copied effects
copied (_ ∷ effects) = copied effects

module _ (disk : Disk) (wasm_dir : Option Text) where
  copied-at_destination :
      (o : Option Text) (path : Text) (missing : Detail) (rest : Done)
      → (at_destination disk wasm_dir missing o (copy path) rest).result ≡ ok tt
      → (rest.result ≡ ok tt)
        × (copied (at_destination disk wasm_dir missing o (copy path) rest).effects
            ≡ path ∷ copied rest.effects)
  unfolding at_destination
  copied-at_destination none path missing rest h = cc
  copied-at_destination (some provider) path missing rest h = ground arith

  copied-if :
      (b : Bool) (path : Text) (rest once : Done)
      → (if not b then rest else once).result ≡ ok tt
      → (once.result ≡ ok tt
          → (rest.result ≡ ok tt) × (copied once.effects ≡ path ∷ copied rest.effects))
      → (rest.result ≡ ok tt)
        × (copied (if not b then rest else once).effects
            ≡ (if b then path ∷ copied rest.effects else copied rest.effects))
  copied-if true path rest once h g = g h
  copied-if false path rest once h g = (h, refl)

  copied-copy_at :
      (path : Text) (rest : Done)
      → (copy_at disk wasm_dir path rest).result ≡ ok tt
      → (rest.result ≡ ok tt)
        × (copied (copy_at disk wasm_dir path rest).effects ≡ (
            if is_wasm (extension path) then path ∷ copied rest.effects else copied rest.effects))
  unfolding copy_at
  copied-copy_at path rest h =
      copied-if (is_wasm (extension path)) path rest _ h
        (copied-at_destination (file_stem path) path no_artifact_name rest)

  -- A copy of all artifacts that succeeds has copied exactly the entries whose extension is
  -- `wasm`, in the order of the directory.
  pub copied-copy_entries :
      (entries : List (ℕ ⊎ Text))
      → (copy_entries disk wasm_dir entries).result ≡ ok tt
      → copied (copy_entries disk wasm_dir entries).effects ≡ wasm_paths entries
  unfolding copy_entries
  copied-copy_entries [] h = refl
  copied-copy_entries (inl e ∷ entries) h = cc
  copied-copy_entries (inr path ∷ entries) h =
      let (rest_ok, whole) = copied-copy_at path (copy_entries disk wasm_dir entries) h in
      rw (whole, copied-copy_entries entries rest_ok)
