-- ===== src/Daemon.antt =====
-- `main` of src/main.rs up to the connection, with `data_sources_path` of src/runtime.rs.
pub mod Laws
pub mod Logger
use fpd.Base.{
  ℕ, String, Bool, true, false, not, ◌&&◌, Option, none, some, List, [], ◌∷◌, Outcome, ok, err,
  panicked, ◌>>=◌, map_err, ok_or, unwrap, ◌⊎◌, inl, inr, if◌then◌else◌,
}
use fpd.Providers.{Text, Disk, Done}
use fpd.Providers
use fpd.Providers.Paths.{join, providers_wasm_dir}
use fpd.Providers.Pull.{Octocrab, PullProvidersArgs, pull}
use fpd.Providers.Build.{BuildProvidersArgs, build_providers}
use fpd.Service.{ProxyDataSource}

pub data ConfigPathQuery : Type 0 where
  data_sources wasm_dir : ConfigPathQuery

pub data Action : Type 0 where
  config_paths : Option ConfigPathQuery → Action
  pull_providers : PullProvidersArgs → Action
  build_all : BuildProvidersArgs → Action

-- The fields of `cli::Arguments` that `main` decides by; `T` is the type of tokens.
pub record Arguments (T : Type 0) : Type 0 where
  pub wasm_dir : Option Text
  pub token : Option T
  pub data_sources_path : Option Text
  pub subcommand : Option Action

-- `io::ErrorKind`, as far as it is told apart
pub data ErrorKind : Type 0 where
  not_found permission_denied other : ErrorKind

-- anyhow's error of `main`
pub data Error : Type 0 where
  runtime : Providers.Error → Error
  not_a_directory : Text → Error
  file_not_found file_not_permitted file_unreadable : Text → Error
  token_is_mandatory : Error

-- What `main` sees: the disk, the user's configuration directory, files, and the reader of YAML.
pub record World : Type 0 where
  pub disk : Disk
  pub config_dir : Option Text
  pub is_file : Text → Bool
  pub read_to_string : Text → ErrorKind ⊎ String
  pub from_yaml : String → Option (List ProxyDataSource)
  pub octocrab : Octocrab
  pub read_dir : Text → ℕ ⊎ List (ℕ ⊎ Text)

-- What `main` comes to: the paths that it prints, the calls of a subcommand, or the arguments of
-- `ProxyService::init` that it has worked out.
pub data Ran (T : Type 0) : Type 0 where
  printed : List Text → Ran T
  pulled built : Done → Ran T
  serves : T → (wasm_dir : Text) → List ProxyDataSource → Ran T

abbrev pub data_sources_yaml : Text
data_sources_yaml =
    b'd' ∷ b'a' ∷ b't' ∷ b'a' ∷ b'_' ∷ b's' ∷ b'o' ∷ b'u' ∷ b'r' ∷ b'c' ∷ b'e' ∷ b's' ∷ b'.' ∷ b'y'
    ∷ b'a' ∷ b'm' ∷ b'l' ∷ []

-- `./providers` and `./data_sources.yaml`
abbrev pub local_providers : Text
local_providers = b'.' ∷ b'/' ∷ b'p' ∷ b'r' ∷ b'o' ∷ b'v' ∷ b'i' ∷ b'd' ∷ b'e' ∷ b'r' ∷ b's' ∷ []

abbrev pub local_data_sources : Text
local_data_sources = b'.' ∷ b'/' ∷ data_sources_yaml

module _ (w : World) where
  -- `runtime::data_sources_path`
  unfoldable pub data_sources_path : Outcome Providers.Error Text
  unfolding join
  data_sources_path = elim w.config_dir [
    | none ↦ err (Providers.runtime Providers.proj_dir)
    | some config_dir ↦ ok (join config_dir data_sources_yaml)
  ]

  abbrev from_runtime : Outcome Providers.Error Text → Outcome Error Text
  from_runtime = map_err runtime

  -- The argument, the local file or directory if it is there, or that of the user.
  unfoldable pub chosen_wasm_dir : Option Text → Outcome Error Text
  unfolding providers_wasm_dir
  chosen_wasm_dir (some dir) = ok dir
  chosen_wasm_dir none =
      if w.disk.exists local_providers && w.disk.is_dir local_providers
      then ok local_providers
      else from_runtime (providers_wasm_dir w.disk)

  unfoldable pub chosen_data_sources_path : Option Text → Outcome Error Text
  unfolding data_sources_path
  chosen_data_sources_path (some path) = ok path
  chosen_data_sources_path none =
      if w.disk.exists local_data_sources && w.is_file local_data_sources
      then ok local_data_sources
      else from_runtime data_sources_path

  unfoldable pub load_data_sources : Text → Outcome Error String
  load_data_sources path = elim (w.read_to_string path) [
    | inr text ↦ ok text
    | inl kind ↦ elim kind [
      | not_found ↦ err (file_not_found path)
      | permission_denied ↦ err (file_not_permitted path)
      | other ↦ err (file_unreadable path)
    ]
  ]

  abbrev checked_dir : Text → Outcome Error (Unit {0})
  checked_dir dir = if not (w.disk.is_dir dir) then err (not_a_directory dir) else ok tt

  module _ {T : Type 0} where
    unfoldable pub print_paths : Option ConfigPathQuery → Outcome Error (Ran T)
    unfolding data_sources_path providers_wasm_dir
    print_paths none = do
      first ← from_runtime data_sources_path
      second ← from_runtime (providers_wasm_dir w.disk)
      ok (printed (first ∷ second ∷ []))
    print_paths (some data_sources) = do
      path ← from_runtime data_sources_path
      ok (printed (path ∷ []))
    print_paths (some wasm_dir) = do
      path ← from_runtime (providers_wasm_dir w.disk)
      ok (printed (path ∷ []))

    unfoldable pub subcommand : Action → Outcome Error (Ran T)
    unfolding print_paths pull build_providers
    subcommand (config_paths query) = print_paths query
    subcommand (pull_providers args) = ok (pulled (pull w.octocrab w.disk args))
    subcommand (build_all args) = ok (built (build_providers w.disk w.read_dir args))

    unfoldable pub serve : Arguments T → Outcome Error (Ran T)
    unfolding chosen_wasm_dir chosen_data_sources_path load_data_sources
    serve args = do
      dir ← chosen_wasm_dir args.wasm_dir
      checked ← checked_dir dir
      path ← chosen_data_sources_path args.data_sources_path
      text ← load_data_sources path
      sources ← unwrap (w.from_yaml text)
      token ← ok_or token_is_mandatory args.token
      ok (serves token dir sources)

    unfoldable pub main : Arguments T → Outcome Error (Ran T)
    unfolding subcommand serve
    main args = elim args.subcommand [ some action ↦ subcommand action | none ↦ serve args ]
