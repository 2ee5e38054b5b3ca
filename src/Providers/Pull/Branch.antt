-- ===== src/Providers/Pull/Branch.antt =====
-- What a successful `pull` from a branch needs.
use fpd.Base.{◌≡◌, ◌≢◌, ◌++◌, All, false, Option, none, some, List, ◌∷◌, bytes_eq, ◌⊎◌, inl, inr, ℕ}
use fpd.Providers.{Text, Disk, Done}
use fpd.Providers.Pull.{Artifact, Client, Octocrab, PullProvidersArgs, download_providers_archive}

module _ (octocrab : Octocrab) (disk : Disk) (args : PullProvidersArgs) where
  -- The artifacts that the client lists, which GitHub lists newest first: those before this one are
  -- not of the branch, and this one is, and has not expired.
  pub record IsNewest (branch : Text) (client : Client) (artifact : Artifact) : Type 0 where
    pub newer : List Artifact
    pub older : List Artifact
    pub listed : client.get_artifacts ≡ inr (newer ++ (artifact ∷ older))
    pub others : All (λ (a : Artifact). a.head_branch ≢ some branch) newer
    pub of_branch : artifact.head_branch ≡ some branch
    pub unexpired : artifact.expired ≡ false

  abbrev client_artifacts : ℕ ⊎ List Artifact → Option (List Artifact)
  client_artifacts (inl e) = none
  client_artifacts (inr artifacts) = some artifacts

  abbrev IsFirst : Text → List Artifact → Artifact → Type 0
  IsFirst branch artifacts artifact =
      (newer older : List Artifact) × (artifacts ≡ newer ++ (artifact ∷ older))
      × All (λ (a : Artifact). a.head_branch ≢ some branch) newer
      × (artifact.head_branch ≡ some branch)

  -- `pull` of the archive of an artifact
  abbrev pub unpacked : Client → Artifact → Done
  unpacked client artifact =
      download_providers_archive client disk args.wasm_dir artifact.archive_download_url
