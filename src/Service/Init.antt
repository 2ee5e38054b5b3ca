-- ===== src/Service/Init.antt =====
-- `ProxyService::init`, `new` and `load_wasm_modules` of src/tasks/service.rs.
pub mod Modules
pub mod Endpoint
use mathlib.Core.List.{zip}
use fpd.Base.{ℕ, String, Option, List, [], ◌∷◌, map, ◌⊎◌, inl, inr, string_eq}
use fpd.Base.Dict
use fpd.Base.Dict.{Dict}
use fpd.Service.{
  invocation, reading_wasm, compiling_wasm, Host, ProxyDataSource, Loaded, runtime, load_failed,
  ProxyService,
}

-- The settings that `init` hands on to `new`, with the endpoint that `new` makes of the API's
-- address and the token.
pub record Settings : Type 0 where
  pub endpoint : String
  pub token : String
  pub max_retries : ℕ
  pub listen_address : Option String
  pub status_check_interval : ℕ

module _ (H : Host) where
  unfoldable pub new :
      Settings → Dict String (Loaded H) → Dict String ProxyDataSource → ProxyService H
  new s wasm_modules data_sources = record {
    endpoint = s.endpoint;
    token = s.token;
    data_sources = data_sources;
    data_sources_state = [];
    wasm_modules = wasm_modules;
    max_retries = s.max_retries;
    listen_address = s.listen_address;
    status_check_interval = s.status_check_interval;
  }

  -- `fs::read` of the file of a provider type in `wasm_dir`, and `Runtime::new` of the runtime; a
  -- text is an error's.
  module _ (read : String → String ⊎ List ℕ) (compile : List ℕ → String ⊎ H.Runtime) where
    abbrev compile_module : String ⊎ List ℕ → Loaded H
    compile_module (inl text) = load_failed (invocation (reading_wasm text))
    compile_module (inr bytes) = elim (compile bytes) [
      | inl text ↦ load_failed (invocation (compiling_wasm text))
      | inr r ↦ runtime r
    ]

    unfoldable pub load_wasm_modules : List String → Dict String (Loaded H)
    load_wasm_modules provider_types =
        let runtimes =
          map (λ data_source_type. compile_module (read data_source_type)) provider_types in
        Dict.extend (zip provider_types runtimes) []

    unfoldable pub init : Settings → List ProxyDataSource → ProxyService H
    unfolding load_wasm_modules new
    init s sources =
        let data_sources = Dict.extend (map (λ (d : ProxyDataSource). (d.name, d)) sources) [] in
        let provider_types =
          map (λ (d : ProxyDataSource). d.provider_type) (Dict.values data_sources) in
        new s (load_wasm_modules provider_types) data_sources
