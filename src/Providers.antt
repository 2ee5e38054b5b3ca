-- ===== src/Providers.antt =====
-- src/tasks/provider_manager.rs and src/runtime.rs: the errors, and what the code does to the disk.
pub mod Paths
pub mod Archive
pub mod Texts
pub mod Pull
pub mod Build
use fpd.Base.{ℕ, Bool, List, [], ◌∷◌, ◌++◌, Option, none, some, Outcome, ok, err, panicked}

-- A `Path` or an `OsStr`, as its bytes.
abbrev pub Text : Type 0
Text = List ℕ

-- `runtime::Error`
pub data RuntimeError : Type 0 where
  proj_dir : RuntimeError
  providers_dir_unavailable : Text → RuntimeError

-- The messages of `Error::Other`
pub data Detail : Type 0 where
  no_client : ℕ → Detail
  no_archived_name no_zipped_name no_artifact_name : Detail
  no_providers_dir : Text → Detail

-- `Error`; a number stands for the error of a library.
pub data Error : Type 0 where
  runtime : RuntimeError → Error
  github hyper io network zip : ℕ → Error
  artifacts_expired : Text → Error
  providers_not_found : Error
  token_required : Error
  other : Detail → Error

-- A call that changes the disk, or runs a command in a directory.
pub data Effect : Type 0 where
  -- With the parents that are missing.
  create_dir_all : Text → Effect
  -- The type of the entry, as a link, a directory or a file, with its content.
  unpack : ℕ → List ℕ → Text → Effect
  write : Text → List ℕ → Effect
  copy : Text → Text → Effect
  run : List Text → Text → Effect

-- What the code sees of the disk, whether a call on it fails, and the user's data directory.
pub record Disk : Type 0 where
  pub project_dir : Option Text
  pub exists : Text → Bool
  pub is_dir : Text → Bool
  pub fails : Effect → Option ℕ

-- The calls that a function made, in order, the last of which may have failed, and how it ended.
pub record Done : Type 0 where
  pub effects : List Effect
  pub result : Outcome Error (Unit {0})

abbrev pub ended : Outcome Error (Unit {0}) → Done
ended r = record { effects = []; result = r }

abbrev pub after : Effect → Done → Done
after e d = record d { effects = e ∷ d.effects }

abbrev after_result : List Effect → Outcome Error (Unit {0}) → Done → Done
after_result effects (ok _) next = record next { effects = effects ++ next.effects }
after_result effects (err e) next = record { effects = effects; result = err e }
after_result effects panicked next = record { effects = effects; result = panicked }

-- `first?; next`
abbrev pub then_do : Done → Done → Done
then_do first next = after_result first.effects first.result next

-- `call?; next`
abbrev pub attempt : Disk → Effect → Done → Done
attempt disk e next = after e (elim (disk.fails e) [ none ↦ next | some x ↦ ended (err (io x)) ])
