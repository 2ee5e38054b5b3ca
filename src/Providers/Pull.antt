-- ===== src/Providers/Pull.antt =====
-- `pull` of src/tasks/provider_manager.rs and what it calls, over a parameter for GitHub's API.
pub mod Places
pub mod Branch
use fpd.Base.{
  ℕ, zero, suc, Bool, true, false, not, ◌&&◌, ◌||◌, Option, none, some, List, [], ◌∷◌, ◌++◌, length,
  find, Outcome, ok, err, panicked, ◌>>=◌, ok_or, unwrap, eqb, ◌==◌, bytes_eq, ◌⊎◌, inl, inr,
  if◌then◌else◌,
}
use fpd.Providers.{
  Text, Error, Detail, runtime, providers_dir_unavailable, github, hyper, io, network, zip,
  artifacts_expired, providers_not_found, token_required, other, no_client, Effect, create_dir_all,
  Disk, Done, ended, attempt, then_do,
}
use fpd.Providers.Paths.{chosen_dir}
use fpd.Providers.Texts.{
  trim_start_matches, starts_with, ends_with, zip_suffix, latest, providers_tgz, github_base_uri,
}
use fpd.Providers.Archive.{TarEntry, ZipFile, unpack_entries, write_files}

-- The fields of the API's answers that the code reads.
pub record Asset : Type 0 where
  pub name : Text
  pub browser_download_url : Text

pub record Artifact : Type 0 where
  pub expired : Bool
  pub archive_download_url : Text
  pub head_branch : Option Text

-- `location`: the header, if there is one, as text, if it is text.
pub record Answer : Type 0 where
  pub is_redirection : Bool
  pub location : Option (Option Text)
  pub body : ℕ ⊎ List ℕ

-- A client of the API, `reqwest::get` with `bytes`, and the readers of archives; a number is an error.
pub record Client : Type 0 where
  pub get_latest : ℕ ⊎ List Asset
  pub get_by_tag : Text → ℕ ⊎ List Asset
  pub get_artifacts : ℕ ⊎ List Artifact
  pub get : Text → ℕ ⊎ Answer
  pub fetch : Text → ℕ ⊎ List ℕ
  pub read_tarball : List ℕ → ℕ ⊎ List (ℕ ⊎ TarEntry)
  pub read_zip : List ℕ → ℕ ⊎ List (ℕ ⊎ ZipFile)

-- `Octocrab::builder()` with a token, and `Octocrab::default()`
pub record Octocrab : Type 0 where
  pub with_token : Text → ℕ ⊎ Client
  pub default : Client

pub record PullProvidersArgs : Type 0 where
  pub branch : Option Text
  pub github_token : Option Text
  pub release : Text
  pub wasm_dir : Option Text

-- `?` on a library's result, and the rest of a function that changes the disk.
abbrev pub lift : {A : Type 0} → (ℕ → Error) → ℕ ⊎ A → Outcome Error A
lift f (inl e) = err (f e)
lift f (inr a) = ok a

abbrev pub and_then : {A : Type 0} → Outcome Error A → (A → Done) → Done
and_then (ok a) f = f a
and_then (err e) f = ended (err e)
and_then panicked f = ended panicked

module _ (c : Client) where
  follow : Text → Outcome Error (List ℕ)
  unfolding trim_start_matches
  follow location =
      if starts_with github_base_uri location
      then (do
        response ← lift github (c.get (trim_start_matches github_base_uri location))
        lift hyper response.body)
      else lift network (c.fetch location)

  redirected : Answer → Outcome Error (List ℕ)
  unfolding follow
  redirected response = do
    header_value ← unwrap response.location
    location ← unwrap header_value
    follow location

  -- The bytes of an archive, after a redirection if there is one: the same code in
  -- `download_providers_tarball` and `download_providers_zip`.
  unfoldable pub archive_bytes : Text → Outcome Error (List ℕ)
  unfolding trim_start_matches redirected
  archive_bytes download_url = do
    response ← lift github (c.get (trim_start_matches github_base_uri download_url))
    if response.is_redirection then redirected response else lift hyper response.body

  module _ (disk : Disk) (wasm_dir : Option Text) where
    unfoldable pub download_providers_tarball : Text → Done
    unfolding archive_bytes unpack_entries
    download_providers_tarball download_url =
        and_then (archive_bytes download_url)
          (λ bytes. and_then (lift io (c.read_tarball bytes)) (unpack_entries disk wasm_dir))

    unfoldable pub download_providers_zip : Text → Done
    unfolding archive_bytes write_files
    download_providers_zip download_url =
        and_then (archive_bytes download_url)
          (λ bytes. and_then (lift zip (c.read_zip bytes)) (write_files disk wasm_dir))

    unfoldable pub download_providers_archive : Text → Done
    unfolding download_providers_tarball download_providers_zip
    download_providers_archive download_url =
        if ends_with zip_suffix download_url
        then download_providers_zip download_url
        else download_providers_tarball download_url

    abbrev fetched_release : Text → ℕ ⊎ List Asset
    fetched_release release = if release == latest then c.get_latest else c.get_by_tag release

    unfoldable pub download_providers_release : Text → Done
    unfolding download_providers_archive
    download_providers_release release = and_then (lift github (fetched_release release)) (λ assets.
        and_then
          (ok_or providers_not_found (find (λ (asset : Asset). asset.name == providers_tgz) assets))
          (λ (asset : Asset). download_providers_archive asset.browser_download_url))

    abbrev pub is_of_branch : Text → Artifact → Bool
    is_of_branch branch artifact = elim artifact.head_branch [
      | none ↦ false
      | some head_branch ↦ head_branch == branch
    ]

    unfoldable pub fetch_latest_artifact : Text → Outcome Error Artifact
    fetch_latest_artifact branch = do
      artifacts ← lift github c.get_artifacts
      ok_or providers_not_found (find (is_of_branch branch) artifacts)

    unfoldable pub download_provider_artifacts_from_branch : Text → Done
    unfolding fetch_latest_artifact download_providers_archive
    download_provider_artifacts_from_branch branch =
        and_then (fetch_latest_artifact branch) (λ latest_artifact.
          if latest_artifact.expired
          then ended (err (artifacts_expired branch))
          else download_providers_archive latest_artifact.archive_download_url)

abbrev pub ensured : Disk → Text → Done
ensured disk dir =
    if disk.exists dir && not (disk.is_dir dir)
    then ended (err (runtime (providers_dir_unavailable dir)))
    else if not (disk.exists dir)
    then attempt disk (create_dir_all dir) (ended (ok tt))
    else ended (ok tt)

unfoldable pub ensure_wasm_dir : Disk → Option Text → Done
unfolding chosen_dir
ensure_wasm_dir disk wasm_dir = and_then (chosen_dir disk wasm_dir) (ensured disk)

from_branch : Octocrab → Disk → Option Text → Option Text → Text → Done
unfolding download_provider_artifacts_from_branch
from_branch octocrab disk wasm_dir github_token branch =
    and_then (ok_or token_required github_token) (λ token.
      and_then (lift (λ e. other (no_client e)) (octocrab.with_token token))
        (λ client. download_provider_artifacts_from_branch client disk wasm_dir branch))

-- The part of `pull` after the directory.
unfoldable pub pull_into : Octocrab → Disk → PullProvidersArgs → Option Text → Done
unfolding from_branch download_providers_release
pull_into octocrab disk args (some branch) =
    from_branch octocrab disk args.wasm_dir args.github_token branch
pull_into octocrab disk args none =
    download_providers_release octocrab.default disk args.wasm_dir args.release

unfoldable pub pull : Octocrab → Disk → PullProvidersArgs → Done
unfolding ensure_wasm_dir pull_into
pull octocrab disk args =
    then_do (ensure_wasm_dir disk args.wasm_dir) (pull_into octocrab disk args args.branch)
