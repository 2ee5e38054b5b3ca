-- ===== src/Providers/Paths.antt =====
-- The paths of src/tasks/provider_manager.rs and src/runtime.rs, with what these use of `std::path` on Unix.
pub mod Laws
use mathlib.Core.List.{filter}
use fpd.Base.{
  ℕ, Bool, true, false, not, ◌||◌, Option, none, some, List, [], ◌∷◌, ◌++◌, Outcome, ok, err, ◌>>=◌,
  unwrap, eqb, ◌==◌, bytes_eq, if◌then◌else◌,
}
use fpd.Providers.{Text, Error, runtime, proj_dir, Disk}

abbrev with_byte : ℕ → List Text → List Text
with_byte b [] = (b ∷ []) ∷ []
with_byte b (part ∷ parts) = (b ∷ part) ∷ parts

-- The parts between the slashes.
unfoldable pub split_slash : Text → List Text
split_slash [] = [] ∷ []
split_slash (b ∷ rest) =
    let parts = split_slash rest in if eqb b b'/' then [] ∷ parts else with_byte b parts

abbrev later_or : Text → Option Text → Option Text
later_or part (some later) = some later
later_or part none = if part == [] || part == (b'.' ∷ []) then none else some part

-- The last part that is no `.` and not empty.
unfoldable pub last_part : List Text → Option Text
last_part [] = none
last_part (part ∷ parts) = later_or part (last_part parts)

abbrev unless_parent : Option Text → Option Text
unless_parent none = none
unless_parent (some part) = if part == (b'.' ∷ b'.' ∷ []) then none else some part

-- `Path::file_name`
unfoldable pub file_name : Text → Option Text
unfolding last_part split_slash
file_name path = unless_parent (last_part (split_slash path))

abbrev dot_at : ℕ → Text → Option (Text × Text) → Option (Text × Text)
dot_at b rest (some (front, back)) = some (b ∷ front, back)
dot_at b rest none = if eqb b b'.' then some ([], rest) else none

-- What is before and after the last dot.
unfoldable pub rsplit_dot : Text → Option (Text × Text)
rsplit_dot [] = none
rsplit_dot (b ∷ rest) = dot_at b rest (rsplit_dot rest)

abbrev stem_of : Text → Option (Text × Text) → Text
stem_of name none = name
stem_of name (some ([], back)) = name
stem_of name (some (b ∷ front, back)) = b ∷ front

abbrev extension_of : Option (Text × Text) → Option Text
extension_of none = none
extension_of (some ([], back)) = none
extension_of (some (b ∷ front, back)) = some back

stem_in : Option Text → Option Text
unfolding rsplit_dot
stem_in none = none
stem_in (some name) = some (stem_of name (rsplit_dot name))

-- `Path::file_stem` and `Path::extension`
unfoldable pub file_stem : Text → Option Text
unfolding file_name stem_in
file_stem path = stem_in (file_name path)

unfoldable pub extension : Text → Option Text
unfolding file_name rsplit_dot
extension path = elim (file_name path) [ none ↦ none | some name ↦ extension_of (rsplit_dot name) ]

abbrev ends_in_slash : Text → Bool
ends_in_slash [] = false
ends_in_slash (b ∷ []) = eqb b b'/'
ends_in_slash (b ∷ c ∷ rest) = ends_in_slash (c ∷ rest)

abbrev separated : Text → Text → Text
separated [] name = name
separated (b ∷ dir) name =
    if ends_in_slash (b ∷ dir) then (b ∷ dir) ++ name else (b ∷ dir) ++ (b'/' ∷ name)

-- `PathBuf::push`: an absolute path replaces.
unfoldable pub join : Text → Text → Text
join dir [] = separated dir []
join dir (b ∷ name) = if eqb b b'/' then b ∷ name else separated dir (b ∷ name)

abbrev pub wasm : Text
wasm = b'w' ∷ b'a' ∷ b's' ∷ b'm' ∷ []

abbrev providers : Text
providers = b'p' ∷ b'r' ∷ b'o' ∷ b'v' ∷ b'i' ∷ b'd' ∷ b'e' ∷ b'r' ∷ b's' ∷ []

-- `runtime::providers_wasm_dir`
unfoldable pub providers_wasm_dir : Disk → Outcome Error Text
unfolding join
providers_wasm_dir disk = elim disk.project_dir [
  | none ↦ err (runtime proj_dir)
  | some data_local_dir ↦ ok (join data_local_dir providers)
]

-- The directory that is given, or else that of the user.
unfoldable pub chosen_dir : Disk → Option Text → Outcome Error Text
unfolding providers_wasm_dir
chosen_dir disk (some dir) = ok dir
chosen_dir disk none = providers_wasm_dir disk

abbrev unwrap_ok : Outcome Error Text → Outcome Error Text
unwrap_ok (ok path) = ok path
unwrap_ok _ = Outcome.panicked

-- `get_provider_destination`
unfoldable pub get_provider_destination : Disk → Option Text → Text → Outcome Error Text
unfolding chosen_dir
get_provider_destination disk wasm_dir provider_name = do
  destination_path ← unwrap_ok (chosen_dir disk wasm_dir)
  ok (join destination_path (provider_name ++ (b'.' ∷ wasm)))
