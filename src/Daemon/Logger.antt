-- ===== src/Daemon/Logger.antt =====
-- `initialize_logger` of src/main.rs.
use fpd.Base.{
  String, Bool, true, false, ◌&&◌, Option, none, some, List, [], ◌∷◌, Outcome, ok, panicked, ◌>>=◌,
  if◌then◌else◌,
}

-- tracing's levels
pub data Level : Type 0 where
  trace debug info warn error : Level

-- The fields of `cli::Arguments` that the logger reads.
pub record LogArguments : Type 0 where
  pub log_level : Option Level
  pub rust_log : Option String
  pub log_json : Bool

-- `EnvFilter`, by what it was made of: a text, a level for each of some targets, or the environment.
pub data EnvFilter : Type 0 where
  directives : String → EnvFilter
  levels : List (String × Level) → EnvFilter
  from_default_env : EnvFilter

pub record Logger : Type 0 where
  pub env_filter : EnvFilter
  pub json : Bool
  -- Whether it is told that LOG_LEVEL is ignored.
  pub warns : Bool

abbrev is_some {ℓ} : {A : Type ℓ} → Option A → Bool
is_some none = false
is_some (some a) = true

-- `valid`: whether `EnvFilter::from_str` reads the text.
module _ {E : Type 0} (valid : String → Bool) where
  unfoldable pub env_filter : Option String → Option Level → Outcome E EnvFilter
  env_filter (some rust_log) log_level =
      if valid rust_log then ok (directives rust_log) else panicked
  env_filter none (some level) = ok (levels (("fpd", level) ∷ ("fp_provider_runtime", level) ∷ []))
  env_filter none none = ok from_default_env

  -- `try_init` and its `expect`
  abbrev installed : Bool → Outcome E (Unit {0})
  installed is_first = if is_first then ok tt else panicked

  -- `is_first`: whether no logger has been initialized before.
  unfoldable pub initialize_logger : Bool → LogArguments → Outcome E Logger
  unfolding env_filter
  initialize_logger is_first args = do
    filter ← env_filter args.rust_log args.log_level
    done ← installed is_first
    ok (record {
      env_filter = filter;
      json = args.log_json;
      warns = is_some args.rust_log && is_some args.log_level;
    })
