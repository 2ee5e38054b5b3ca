-- ===== src/Providers/Build.antt =====
-- `build_providers` of src/tasks/provider_manager.rs
pub mod Laws
use fpd.Base.{
  ℕ, Bool, true, false, not, Option, none, some, List, [], ◌∷◌, ◌++◌, Outcome, ok, err, ◌==◌,
  bytes_eq, ◌⊎◌, if◌then◌else◌,
}
use fpd.Providers.{
  Text, Error, other, no_providers_dir, Effect, copy, run, Disk, Done, ended, attempt, then_do,
}
use fpd.Providers.Paths.{join, wasm, get_provider_destination}
use fpd.Providers.Archive.{copy_all_artifacts}
use fpd.Providers.Pull.{and_then, ensure_wasm_dir}

pub record BuildProvidersArgs : Type 0 where
  pub debug : Bool
  pub provider : Text
  pub providers_dir : Text
  pub wasm_dir : Option Text

abbrev pub all : Text
all = b'a' ∷ b'l' ∷ b'l' ∷ []

abbrev pub artifacts : Text
artifacts = b'a' ∷ b'r' ∷ b't' ∷ b'i' ∷ b'f' ∷ b'a' ∷ b'c' ∷ b't' ∷ b's' ∷ []

abbrev pub xtask : Text
xtask = b'x' ∷ b't' ∷ b'a' ∷ b's' ∷ b'k' ∷ []

abbrev pub build : Text
build = b'b' ∷ b'u' ∷ b'i' ∷ b'l' ∷ b'd' ∷ []

abbrev pub debug_flag : Text
debug_flag = b'-' ∷ b'-' ∷ b'd' ∷ b'e' ∷ b'b' ∷ b'u' ∷ b'g' ∷ []

-- `read_dir`: the entries of a directory as they are when it is read, after the build.
module _ (disk : Disk) (read_dir : Text → ℕ ⊎ List (ℕ ⊎ Text)) (args : BuildProvidersArgs) where
  abbrev pub cargo_args : List Text
  cargo_args = (xtask ∷ build ∷ args.provider ∷ []) ++ (if args.debug then debug_flag ∷ [] else [])

  -- `artifacts/{provider}.wasm` in the checkout
  unfoldable pub artifact : Text
  unfolding join
  artifact = join args.providers_dir (artifacts ++ (b'/' ∷ args.provider) ++ (b'.' ∷ wasm))

  unfoldable pub copy_built : Done
  unfolding copy_all_artifacts get_provider_destination artifact
  copy_built =
      if args.provider == all
      then copy_all_artifacts disk args.wasm_dir (read_dir (join args.providers_dir artifacts))
      else and_then (get_provider_destination disk args.wasm_dir args.provider)
          (λ destination. attempt disk (copy artifact destination) (ended (ok tt)))

  unfoldable pub build_in : Done
  unfolding copy_built
  build_in =
      if not (disk.exists args.providers_dir)
      then ended (err (other (no_providers_dir args.providers_dir)))
      else attempt disk (run cargo_args args.providers_dir) copy_built

  unfoldable pub build_providers : Done
  unfolding ensure_wasm_dir build_in
  build_providers = then_do (ensure_wasm_dir disk args.wasm_dir) build_in
