-- ===== src/Examples/Pulls.antt =====
-- Runs of the download and the build of providers, and the theorems on them.
use fpd.Base.{
  ℕ, ◌≡◌, refl, true, false, none, some, List, [], ◌∷◌, All, ok, ◌⊎◌, inl, inr, bytes_eq,
}
use fpd.Providers.{Text, Disk}
use fpd.Providers.Paths.{chosen_dir, file_stem, extension, wasm}
use fpd.Providers.Texts.{latest}
use fpd.Providers.Archive.{TarEntry, copy_entries}
use fpd.Providers.Archive.Laws.{copied, wasm_paths, copied-copy_entries}
use fpd.Providers.Pull.{Artifact, Client, Octocrab, PullProvidersArgs, pull}
use fpd.Providers.Pull.Places.{Allowed, pull-Allowed}
use fpd.Providers.Build.{BuildProvidersArgs, all, build_providers}

abbrev disk : Disk
disk = record {
  project_dir = none;
  exists = λ path. true;
  is_dir = λ path. true;
  fails = λ e. none;
}

-- The directory `w`
abbrev pub w : Text
w = b'w' ∷ []

-- `../a.wasm` and `b.txt`
abbrev up : Text
up = b'.' ∷ b'.' ∷ b'/' ∷ b'a' ∷ b'.' ∷ wasm

abbrev text_file : Text
text_file = b'b' ∷ b'.' ∷ b't' ∷ b'x' ∷ b't' ∷ []

-- `w/a.wasm`
abbrev placed : Text
placed = b'w' ∷ b'/' ∷ b'a' ∷ b'.' ∷ wasm

abbrev entries : List (ℕ ⊎ TarEntry)
entries =
    inr (record { path = inr up; entry_type = 48; content = 1 ∷ [] })
    ∷ inr (record { path = inr text_file; entry_type = 48; content = 2 ∷ [] })
    ∷ []

abbrev main_branch : Text
main_branch = b'm' ∷ []

abbrev newest : Artifact
newest = record {
  expired = false;
  archive_download_url = b'u' ∷ [];
  head_branch = some main_branch;
}

abbrev elsewhere : Artifact
elsewhere = record newest { head_branch = none }

abbrev oldest : Artifact
oldest = record newest { expired = true }

abbrev client : Client
client = record {
  get_latest = inl 0;
  get_by_tag = λ tag. inl 0;
  get_artifacts = inr (elsewhere ∷ newest ∷ oldest ∷ []);
  get = λ url. inr (record { is_redirection = false; location = none; body = inr [] });
  fetch = λ url. inl 0;
  read_tarball = λ bytes. inr entries;
  read_zip = λ bytes. inr [];
}

abbrev pub octocrab : Octocrab
octocrab = record { with_token = λ token. inr client; default = client }

abbrev args : PullProvidersArgs
args = record {
  branch = some main_branch;
  github_token = some (b't' ∷ []);
  release = latest;
  wasm_dir = some w;
}

w_is_chosen : chosen_dir disk args.wasm_dir ≡ ok w
unfolding chosen_dir
w_is_chosen = refl

pull-Allowed_example : All (Allowed w) (pull octocrab disk args).effects
pull-Allowed_example = pull-Allowed octocrab disk args {dir = w} w_is_chosen

abbrev listed : List (ℕ ⊎ Text)
listed = inr up ∷ inr text_file ∷ []

copied_is : (copy_entries disk (some w) listed).result ≡ ok tt
unfolding copy_entries extension bytes_eq file_stem
copied_is = refl

copied-copy_entries_example : copied (copy_entries disk (some w) listed).effects ≡ wasm_paths listed
copied-copy_entries_example = copied-copy_entries disk (some w) listed copied_is

wasm_paths_are : wasm_paths listed ≡ up ∷ []
unfolding extension bytes_eq
wasm_paths_are = refl

abbrev build_args : BuildProvidersArgs
build_args = record { debug = true; provider = all; providers_dir = b'p' ∷ []; wasm_dir = some w }

abbrev read_dir : Text → ℕ ⊎ List (ℕ ⊎ Text)
read_dir path = inr listed

builds : (build_providers disk read_dir build_args).result ≡ ok tt
unfolding build_providers bytes_eq extension file_stem
builds = refl
