-- ===== src/Providers/Build/Laws.antt =====
-- `build_providers` does not panic.
use mathlib.Core.Path.{subst}
use fpd.Base.{
  ◌≡◌, refl, sym, arith, ◌≢◌, ℕ, Bool, true, false, not, ◌&&◌, Option, none, some, Option-cases,
  List, [], ◌∷◌, ◌++◌, Outcome, ok, err, panicked, ◌==◌, bytes_eq, ◌⊎◌, inl, inr, if◌then◌else◌,
}
use fpd.Providers.{
  Text, Error, Detail, no_artifact_name, Effect, create_dir_all, copy, Disk, Done, ended,
  after_result, attempt, then_do,
}
use fpd.Providers.Paths.{
  wasm, providers_wasm_dir, join, file_stem, extension, chosen_dir, get_provider_destination,
}
use fpd.Providers.Archive.{is_wasm, at_destination, copy_at, copy_entries, copy_all_artifacts}
use fpd.Providers.Pull.{and_then, ensured, ensure_wasm_dir}
use fpd.Providers.Build.{
  BuildProvidersArgs, all, artifacts, artifact, copy_built, build_in, build_providers,
}

-- The function returned.
abbrev Returned : Done → Type 0
Returned d = d.result ≢ panicked

if-Returned : (b : Bool) (x y : Done) → Returned x → Returned y → Returned (if b then x else y)
if-Returned true x y h g = h
if-Returned false x y h g = g

err-Returned : (e : Error) → Returned (ended (err e))
err-Returned e h = cc

ok-Returned : Returned (ended (ok tt))
ok-Returned h = cc

and_then-Returned :
    {A : Type 0} (m : Outcome Error A) (f : A → Done) {a : A}
    → m ≡ ok a
    → Returned (f a)
    → Returned (and_then m f)
and_then-Returned m f {a} e h = subst (λ o. Returned (and_then o f)) (sym e) h

attempt-Returned :
    (disk : Disk) (e : Effect) (next : Done) → Returned next → Returned (attempt disk e next)
attempt-Returned disk e next h = elim (Option-cases (disk.fails e)) [
  | inl works ↦ rw works h
  | inr (x, failed) ↦ rw failed (λ p. cc)
]

module _ (disk : Disk) (wasm_dir : Option Text) {dir : Text}
    (chosen : chosen_dir disk wasm_dir ≡ ok dir) where
  destination-ok :
      (provider : Text)
      → (path : Text) × (get_provider_destination disk wasm_dir provider ≡ ok path)
  unfolding get_provider_destination
  destination-ok provider = (join dir (provider ++ (b'.' ∷ wasm)), rw chosen refl)

  at_destination-Returned :
      (missing : Detail) (o : Option Text) (effect : Text → Effect) (next : Done)
      → Returned next
      → Returned (at_destination disk wasm_dir missing o effect next)
  unfolding at_destination
  at_destination-Returned missing none effect next h = λ p. cc
  at_destination-Returned missing (some provider) effect next h =
      let (path, is) = destination-ok provider in rw is (attempt-Returned disk (effect path) next h)

  copy_entries-Returned :
      (entries : List (ℕ ⊎ Text)) → Returned (copy_entries disk wasm_dir entries)
  unfolding copy_entries copy_at
  copy_entries-Returned [] = λ p. cc
  copy_entries-Returned (inl e ∷ entries) = λ p. cc
  copy_entries-Returned (inr path ∷ entries) =
      let rest = copy_entries disk wasm_dir entries in
      if-Returned (not (is_wasm (extension path))) rest _ (copy_entries-Returned entries) (
        at_destination-Returned no_artifact_name (file_stem path) (copy path) rest
          (copy_entries-Returned entries))

  copy_all-Returned : (o : ℕ ⊎ List (ℕ ⊎ Text)) → Returned (copy_all_artifacts disk wasm_dir o)
  unfolding copy_all_artifacts
  copy_all-Returned (inl e) = λ p. cc
  copy_all-Returned (inr entries) = copy_entries-Returned entries

then_do-Returned :
    (effects : List Effect) (r : Outcome Error (Unit {0})) (next : Done)
    → r ≢ panicked
    → Returned next
    → Returned (after_result effects r next)
then_do-Returned effects (ok _) next h g = g
then_do-Returned effects (err e) next h g = λ p. cc
then_do-Returned effects panicked next h g = absurd (h refl)

ensured-Returned : (disk : Disk) (dir : Text) → Returned (ensured disk dir)
ensured-Returned disk dir =
    if-Returned (disk.exists dir && not (disk.is_dir dir)) _ _ (err-Returned _) (
      if-Returned (not (disk.exists dir)) _ _
        (attempt-Returned disk (create_dir_all dir) (ended (ok tt)) ok-Returned) ok-Returned)

module _ (disk : Disk) (read_dir : Text → ℕ ⊎ List (ℕ ⊎ Text)) (args : BuildProvidersArgs) where
  copy_built-Returned :
      {dir : Text}
      → chosen_dir disk args.wasm_dir ≡ ok dir
      → Returned (copy_built disk read_dir args)
  unfolding copy_built
  copy_built-Returned chosen =
      let (path, is) = destination-ok disk args.wasm_dir chosen args.provider in
      if-Returned (args.provider == all) _ _
        (copy_all-Returned disk args.wasm_dir chosen (read_dir (join args.providers_dir artifacts)))
        (and_then-Returned (get_provider_destination disk args.wasm_dir args.provider) _ {a = path}
          is
          (attempt-Returned disk (copy (artifact disk read_dir args) path) (ended (ok tt))
            ok-Returned))

  build_in-Returned :
      {dir : Text} → chosen_dir disk args.wasm_dir ≡ ok dir → Returned (build_in disk read_dir args)
  unfolding build_in
  build_in-Returned chosen =
      if-Returned (not (disk.exists args.providers_dir)) _ _ (err-Returned _)
        (attempt-Returned disk _ (copy_built disk read_dir args) (copy_built-Returned chosen))

  by_dir :
      (o : Outcome Error Text)
      → o ≢ panicked
      → chosen_dir disk args.wasm_dir ≡ o
      → Returned (then_do (and_then o (ensured disk)) (build_in disk read_dir args))
  by_dir (ok dir) h chosen =
      then_do-Returned (ensured disk dir).effects (ensured disk dir).result
        (build_in disk read_dir args) (ensured-Returned disk dir) (build_in-Returned chosen)
  by_dir (err e) h chosen = λ p. cc
  by_dir panicked h chosen = absurd (h refl)

  chosen_dir-ne-panicked : (wasm_dir : Option Text) → chosen_dir disk wasm_dir ≢ panicked
  unfolding chosen_dir providers_wasm_dir
  chosen_dir-ne-panicked none h = ground arith
  chosen_dir-ne-panicked (some dir) h = cc

  -- `build_providers` does not panic, whatever the disk and the build do: where it unwraps the
  -- user's directory, it has found it before.
  build_providers-ne-panicked : (build_providers disk read_dir args).result ≢ panicked
  unfolding build_providers ensure_wasm_dir chosen_dir
  build_providers-ne-panicked =
      by_dir (chosen_dir disk args.wasm_dir) (chosen_dir-ne-panicked args.wasm_dir) refl
