-- ===== src/Service/Init/Modules.antt =====
-- Every data source has its provider's module.
use mathlib.Core.List.{zip}
use fpd.Base.{◌≡◌, ◌≢◌, ◌⊎◌, arith, ℕ, String, none, some, List, [], ◌∷◌, map, string_eq, All}
use fpd.Base.Dict
use fpd.Base.Dict.{Dict}
use fpd.Service.{Host, ProxyDataSource}
use fpd.Service.Init.{Settings, load_wasm_modules, init}

All-mono {ℓ κ μ} :
    {A : Type ℓ} (P : A → Type κ) (Q : A → Type μ) (xs : List A)
    → ((x : A) → P x → Q x)
    → All P xs
    → All Q xs
All-mono P Q [] f all = tt
All-mono P Q (x ∷ xs) f all = (f x all.0, All-mono P Q xs f all.1)

All-map {ℓ κ μ} :
    {A : Type ℓ} {B : Type κ} (P : B → Type μ) (f : A → B) (xs : List A)
    → All P (map f xs)
    → All (λ x. P (f x)) xs
All-map P f [] all = tt
All-map P f (x ∷ xs) all = (all.0, All-map P f xs all.1)

module _ {V : Type 0} (load : String → V) where
  last-cons_ne_none :
      (t k : String) (v : V) (ps : Dict String V)
      → Dict.last t ps ≢ none
      → Dict.last t ((k, v) ∷ ps) ≢ none
  last-cons_ne_none t k v ps h = ground arith

  last-cons_self : (t : String) (v : V) (ps : Dict String V) → Dict.last t ((t, v) ∷ ps) ≢ none
  last-cons_self t v ps h = ground arith

  -- Each type has an entry among the pairs that are collected.
  All-loaded :
      (types : List String) → All (λ t. Dict.last t (zip types (map load types)) ≢ none) types
  unfolding zip
  All-loaded [] = tt
  All-loaded (t ∷ types) = (
    last-cons_self t (load t) (zip types (map load types)),
    All-mono _ _ types (λ x. last-cons_ne_none x t (load t) (zip types (map load types)))
        (All-loaded types),
  )

module _ (H : Host) (read : String → String ⊎ List ℕ) (compile : List ℕ → String ⊎ H.Runtime) where
  load_wasm_modules-All :
      (types : List String)
      → All (λ t. Dict.get t (load_wasm_modules H read compile types) ≢ none) types
  unfolding load_wasm_modules
  load_wasm_modules-All types =
      All-mono _ _ types (λ t h. rw Dict.get-extend_nil h) (All-loaded _ types)

  -- Whatever the files and the runtime do, a service that `init` makes has an entry among its
  -- modules (a module, or the error of loading it) for the provider of every data source that it
  -- holds.
  pub init-HasModules :
      (s : Settings) (sources : List ProxyDataSource) (name : String) (source : ProxyDataSource)
      → Dict.get name (init H read compile s sources).data_sources ≡ some source
      → Dict.get source.provider_type (init H read compile s sources).wasm_modules ≢ none
  unfolding init
  init-HasModules s sources name source h =
      Dict.All-get _ _ name (All-map _ _ _ (load_wasm_modules-All _)) h
