-- ===== src/Daemon/Laws.antt =====
-- When the daemon serves, and with what.
use mathlib.Core.Path.{subst}
use fpd.Base.{
  String, ◌≡◌, arith, true, Option, Option-cases, none, some, inl, inr, List, ok, bind-eq-ok, ok_or,
  unwrap,
}
use fpd.Providers.{Text}
use fpd.Service.{ProxyDataSource}
use fpd.Daemon.{
  World, Arguments, serves, token_is_mandatory, print_paths, subcommand, Action, chosen_wasm_dir,
  chosen_data_sources_path, load_data_sources, checked_dir, serve, main,
}

-- The file whose content is read as the data sources.
abbrev pub IsConfigured : World → Option Text → List ProxyDataSource → Type 0
IsConfigured w given sources =
    (path : Text) × (text : String) × (chosen_data_sources_path w given ≡ ok path)
    × (w.read_to_string path ≡ inr text)
    × (w.from_yaml text ≡ some sources)

module _ (w : World) where
  loaded :
      (path : Text) {text : String}
      → load_data_sources w path ≡ ok text
      → w.read_to_string path ≡ inr text
  unfolding load_data_sources
  loaded path h = ground arith

  checked_dir-ok : (dir : Text) {u : Unit {0}} → checked_dir w dir ≡ ok u → w.disk.is_dir dir ≡ true
  checked_dir-ok dir h = ground arith

-- What `serve` has found.
abbrev IsReady : {T : Type 0} → World → Arguments T → T → Text → List ProxyDataSource → Type 0
IsReady w args token dir sources =
    (args.token ≡ some token)
    × (chosen_wasm_dir w args.wasm_dir ≡ ok dir)
    × (w.disk.is_dir dir ≡ true)
    × IsConfigured w args.data_sources_path sources

module _ (w : World) {T : Type 0} (args : Arguments T) {token : T} {dir : Text}
    {sources : List ProxyDataSource} where
  no_subcommand :
      (action : Action) → ¬ (subcommand w {T = T} action ≡ ok (serves token dir sources))
  unfolding subcommand print_paths
  no_subcommand action h = ground arith

  serve-IsReady : serve w args ≡ ok (serves token dir sources) → IsReady w args token dir sources
  unfolding serve
  serve-IsReady h =
      let (dir_, dir_is, h1) = bind-eq-ok (chosen_wasm_dir w args.wasm_dir) _ h in
      let (u, checked, h2) = bind-eq-ok (checked_dir w dir_) _ h1 in
      let (path, path_is, h3) =
        bind-eq-ok (chosen_data_sources_path w args.data_sources_path) _ h2 in
      let (text, text_is, h4) = bind-eq-ok (load_data_sources w path) _ h3 in
      let (sources_, sources_are, h5) = bind-eq-ok (unwrap (w.from_yaml text)) _ h4 in
      let (token_, token_is, h6) = bind-eq-ok (ok_or token_is_mandatory args.token) _ h5 in
      (
        ground (arith, token_is, h6),
        ground (arith, dir_is, h6),
        subst (λ d. w.disk.is_dir d ≡ true) (ground (arith, h6)) (checked_dir-ok w dir_ checked),
        (path, text, path_is, loaded w path text_is, ground (arith, sources_are, h6)),
      )

  -- If the daemon serves, then it was given no subcommand and a token, its directory of providers is
  -- the one chosen and is a directory, and its data sources are what the chosen file holds.
  pub main-serves :
      main w args ≡ ok (serves token dir sources)
      → (args.subcommand ≡ none)
        × (args.token ≡ some token)
        × (chosen_wasm_dir w args.wasm_dir ≡ ok dir)
        × (w.disk.is_dir dir ≡ true)
        × IsConfigured w args.data_sources_path sources
  unfolding main
  main-serves h = elim (Option-cases args.subcommand) [
    | inl alone ↦ let (a, b, c, d) = serve-IsReady (ground arith) in (alone, a, b, c, d)
    | inr (action, given) ↦ absurd (no_subcommand action (ground arith))
  ]
