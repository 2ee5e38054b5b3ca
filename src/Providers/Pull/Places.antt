-- ===== src/Providers/Pull/Places.antt =====
-- Where `pull` writes.
use mathlib.Core.Path.{subst}
use fpd.Base.{
  ◌≡◌, refl, sym, Bool, true, false, not, ◌&&◌, Option, none, some, Option-cases, Bool-cases, List,
  [], ◌∷◌, find, Outcome, ok, err, panicked, ok_or, ◌==◌, bytes_eq, ◌⊎◌, inl, inr, if◌then◌else◌,
  All, All-append,
}
use fpd.Providers.{
  Text, Error, token_required, providers_not_found, github, zip, io, other, no_client, Effect,
  create_dir_all, Disk, Done, after_result, then_do,
}
use fpd.Providers.Paths.{chosen_dir}
use fpd.Providers.Archive.{unpack_entries, write_files}
use fpd.Providers.Archive.Laws.{Fills, FillsOnly, unpack_entries-FillsOnly, write_files-FillsOnly}
use fpd.Providers.Texts.{providers_tgz}
use fpd.Providers.Pull.{
  Asset, fetched_release, Client, Octocrab, PullProvidersArgs, and_then, lift, archive_bytes,
  download_providers_tarball, download_providers_zip, download_providers_archive,
  download_providers_release, fetch_latest_artifact, download_provider_artifacts_from_branch,
  ensured, ensure_wasm_dir, from_branch, pull_into, pull,
}

module _ (disk : Disk) (wasm_dir : Option Text) {dir : Text}
    (chosen : chosen_dir disk wasm_dir ≡ ok dir) where
  and_then-FillsOnly :
      {A : Type 0} (m : Outcome Error A) (f : A → Done)
      → ((a : A) → FillsOnly dir (f a))
      → FillsOnly dir (and_then m f)
  and_then-FillsOnly (ok a) f h = h a
  and_then-FillsOnly (err e) f h = tt
  and_then-FillsOnly panicked f h = tt

  if-FillsOnly :
      (b : Bool) (x y : Done)
      → FillsOnly dir x
      → FillsOnly dir y
      → FillsOnly dir (if b then x else y)
  if-FillsOnly true x y h g = h
  if-FillsOnly false x y h g = g

  archive-FillsOnly :
      (c : Client) (url : Text) → FillsOnly dir (download_providers_archive c disk wasm_dir url)
  unfolding download_providers_archive download_providers_tarball download_providers_zip
  archive-FillsOnly c url =
      if-FillsOnly _ _ _
        (and_then-FillsOnly (archive_bytes c url) _ (λ bytes.
          and_then-FillsOnly (lift zip (c.read_zip bytes)) (write_files disk wasm_dir)
            (write_files-FillsOnly disk wasm_dir chosen)))
        (and_then-FillsOnly (archive_bytes c url) _ (λ bytes.
          and_then-FillsOnly (lift io (c.read_tarball bytes)) (unpack_entries disk wasm_dir)
            (unpack_entries-FillsOnly disk wasm_dir chosen)))

  release-FillsOnly :
      (c : Client) (release : Text)
      → FillsOnly dir (download_providers_release c disk wasm_dir release)
  unfolding download_providers_release
  release-FillsOnly c release =
      and_then-FillsOnly (lift github (fetched_release c disk wasm_dir release)) _ (λ assets.
        and_then-FillsOnly
          (ok_or providers_not_found (find (λ (asset : Asset). asset.name == providers_tgz) assets))
          _ (λ asset. archive-FillsOnly c asset.browser_download_url))

  branch-FillsOnly :
      (c : Client) (branch : Text)
      → FillsOnly dir (download_provider_artifacts_from_branch c disk wasm_dir branch)
  unfolding download_provider_artifacts_from_branch
  branch-FillsOnly c branch =
      and_then-FillsOnly (fetch_latest_artifact c disk wasm_dir branch) _ (λ artifact.
        if-FillsOnly artifact.expired _ _ tt (archive-FillsOnly c artifact.archive_download_url))

abbrev pub Allowed : Text → Effect → Type 0
Allowed dir e = (e ≡ create_dir_all dir) ⊎ Fills dir e

Allowed-Fills :
    (dir : Text) (effects : List Effect) → All (Fills dir) effects → All (Allowed dir) effects
Allowed-Fills dir [] h = tt
Allowed-Fills dir (e ∷ effects) h = (inr h.0, Allowed-Fills dir effects h.1)

then_do-Allowed :
    (dir : Text) (effects : List Effect) (r : Outcome Error (Unit {0})) (next : Done)
    → All (Allowed dir) effects
    → All (Allowed dir) next.effects
    → All (Allowed dir) (after_result effects r next).effects
then_do-Allowed dir effects (ok _) next h g = All-append (Allowed dir) effects next.effects h g
then_do-Allowed dir effects (err e) next h g = h
then_do-Allowed dir effects panicked next h g = h

ensured-Allowed : (disk : Disk) (dir : Text) → All (Allowed dir) (ensured disk dir).effects
ensured-Allowed disk dir = elim (Bool-cases (disk.exists dir && not (disk.is_dir dir))) [
  | inl file ↦ rw file tt
  | inr fine ↦ elim (Bool-cases (not (disk.exists dir))) [
    | inl missing ↦
        rw (fine, missing)
          (elim (Option-cases (disk.fails (create_dir_all dir))) [
            | inl works ↦ rw works (inl refl, tt)
            | inr (x, failed) ↦ rw failed (inl refl, tt)
          ])
    | inr there ↦ rw (fine, there) tt
  ]
]

module _ (octocrab : Octocrab) (disk : Disk) (args : PullProvidersArgs) where
  into-FillsOnly :
      {dir : Text} (branch : Option Text)
      → chosen_dir disk args.wasm_dir ≡ ok dir
      → FillsOnly dir (pull_into octocrab disk args branch)
  unfolding pull_into from_branch
  into-FillsOnly none chosen =
      release-FillsOnly disk args.wasm_dir chosen octocrab.default args.release
  into-FillsOnly (some branch) chosen =
      and_then-FillsOnly disk args.wasm_dir chosen (ok_or token_required args.github_token) _
        (λ token.
          and_then-FillsOnly disk args.wasm_dir chosen
            (lift (λ e. other (no_client e)) (octocrab.with_token token)) _
            (λ client. branch-FillsOnly disk args.wasm_dir chosen client branch))

  -- Whatever GitHub answers and whatever the archive holds, the calls of `pull` that change the disk
  -- are to create the chosen directory, with its missing parents, and to unpack or write at paths that
  -- lie directly in it and whose names end in `.wasm`.
  pub pull-Allowed :
      {dir : Text}
      → chosen_dir disk args.wasm_dir ≡ ok dir
      → All (Allowed dir) (pull octocrab disk args).effects
  unfolding pull ensure_wasm_dir
  pull-Allowed {dir} chosen =
      let body = pull_into octocrab disk args args.branch in
      let first = ensured disk dir in
      subst (λ o. All (Allowed dir) (then_do (and_then o (ensured disk)) body).effects) (sym chosen)
        (then_do-Allowed dir first.effects first.result body (ensured-Allowed disk dir)
          (Allowed-Fills dir body.effects (into-FillsOnly args.branch chosen)))
