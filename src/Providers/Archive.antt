-- ===== src/Providers/Archive.antt =====
-- The loops of src/tasks/provider_manager.rs over the entries of an archive or a directory.
pub mod Laws
use fpd.Base.{
  ℕ, Bool, true, false, not, Option, none, some, List, [], ◌∷◌, Outcome, ok, err, panicked, ◌==◌,
  bytes_eq, ◌⊎◌, inl, inr, if◌then◌else◌,
}
use fpd.Providers.{
  Text, Error, Detail, no_archived_name, no_zipped_name, no_artifact_name, io, zip, other, Effect,
  unpack, write, copy, Disk, Done, ended, attempt,
}
use fpd.Providers.Paths.{file_stem, extension, wasm, get_provider_destination}

-- An entry of a tarball, whose path may not be readable, and a file of a zip archive.
pub record TarEntry : Type 0 where
  pub path : ℕ ⊎ Text
  -- The type in its header: a file, a directory, a link, …
  pub entry_type : ℕ
  pub content : List ℕ

pub record ZipFile : Type 0 where
  pub name : Text
  pub content : ℕ ⊎ List ℕ

abbrev pub is_wasm : Option Text → Bool
is_wasm none = false
is_wasm (some ext) = ext == wasm

module _ (disk : Disk) (wasm_dir : Option Text) where
  abbrev at_path : (Text → Effect) → Done → Outcome Error Text → Done
  at_path effect next (ok destination) = attempt disk (effect destination) next
  at_path effect next (err e) = ended (err e)
  at_path effect next panicked = ended panicked

  -- The effect at the destination for a provider, and what follows it.
  unfoldable pub at_destination : Detail → Option Text → (Text → Effect) → Done → Done
  unfolding get_provider_destination
  at_destination missing none effect next = ended (err (other missing))
  at_destination missing (some provider) effect next =
      at_path effect next (get_provider_destination disk wasm_dir provider)

  -- An entry is skipped unless it is a `.wasm` file.
  unpack_at : TarEntry → Done → ℕ ⊎ Text → Done
  unfolding at_destination
  unpack_at entry rest (inl e) = ended (err (io e))
  unpack_at entry rest (inr path) =
      if not (is_wasm (extension path))
      then rest
      else at_destination no_archived_name (file_stem path) (unpack entry.entry_type entry.content)
          rest

  -- The loop of `download_providers_tarball`
  unfoldable pub unpack_entries : List (ℕ ⊎ TarEntry) → Done
  unfolding unpack_at
  unpack_entries [] = ended (ok tt)
  unpack_entries (inl e ∷ entries) = ended (err (io e))
  unpack_entries (inr entry ∷ entries) = unpack_at entry (unpack_entries entries) entry.path

  -- The name is looked at before the file is read.
  write_at : Option Text → Done → ℕ ⊎ List ℕ → Done
  unfolding at_destination
  write_at none rest content = ended (err (other no_zipped_name))
  write_at (some provider) rest (inl e) = ended (err (io e))
  write_at (some provider) rest (inr buffer) =
      at_destination no_zipped_name (some provider) (λ destination. write destination buffer) rest

  -- The loop of `download_providers_zip`
  unfoldable pub write_files : List (ℕ ⊎ ZipFile) → Done
  unfolding write_at file_stem
  write_files [] = ended (ok tt)
  write_files (inl e ∷ files) = ended (err (zip e))
  write_files (inr file ∷ files) = write_at (file_stem file.name) (write_files files) file.content

  unfoldable pub copy_at : Text → Done → Done
  unfolding at_destination
  copy_at path rest =
      if not (is_wasm (extension path))
      then rest
      else at_destination no_artifact_name (file_stem path) (copy path) rest

  -- The loop of `copy_all_artifacts`
  unfoldable pub copy_entries : List (ℕ ⊎ Text) → Done
  unfolding copy_at
  copy_entries [] = ended (ok tt)
  copy_entries (inl e ∷ entries) = ended (err (io e))
  copy_entries (inr path ∷ entries) = copy_at path (copy_entries entries)

  -- `copy_all_artifacts`
  unfoldable pub copy_all_artifacts : ℕ ⊎ List (ℕ ⊎ Text) → Done
  unfolding copy_entries
  copy_all_artifacts (inl e) = ended (err (io e))
  copy_all_artifacts (inr entries) = copy_entries entries
