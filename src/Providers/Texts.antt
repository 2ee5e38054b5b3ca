-- ===== src/Providers/Texts.antt =====
-- What src/tasks/provider_manager.rs uses of `str`, and its texts.
pub mod Laws
use fpd.Base.{
  ℕ, zero, suc, Bool, true, false, ◌||◌, Option, none, some, List, [], ◌∷◌, length, eqb, ◌==◌,
  bytes_eq, if◌then◌else◌,
}
use fpd.Providers.{Text}

-- `str::strip_prefix`, `trim_start_matches`, `starts_with` and `ends_with`
abbrev pub strip_prefix : Text → Text → Option Text
strip_prefix [] s = some s
strip_prefix (b ∷ prefix) [] = none
strip_prefix (b ∷ prefix) (c ∷ s) =
    let rest = strip_prefix prefix s in if eqb b c then rest else none

-- A round of fuel for each prefix that is taken off.
unfoldable pub trim_rounds : ℕ → Text → Text → Text
trim_rounds zero prefix s = s
trim_rounds (suc fuel) prefix s = elim (strip_prefix prefix s) [
  | none ↦ s
  | some rest ↦ trim_rounds fuel prefix rest
]

unfoldable pub trim_start_matches : Text → Text → Text
unfolding trim_rounds
trim_start_matches prefix s = trim_rounds (length s) prefix s

abbrev pub is_some {ℓ} : {A : Type ℓ} → Option A → Bool
is_some none = false
is_some (some a) = true

abbrev pub starts_with : Text → Text → Bool
starts_with prefix s = is_some (strip_prefix prefix s)

abbrev pub ends_with : Text → Text → Bool
ends_with suffix [] = suffix == []
ends_with suffix (b ∷ s) = let later = ends_with suffix s in (b ∷ s) == suffix || later

abbrev pub zip_suffix : Text
zip_suffix = b'z' ∷ b'i' ∷ b'p' ∷ []

abbrev pub latest : Text
latest = b'l' ∷ b'a' ∷ b't' ∷ b'e' ∷ b's' ∷ b't' ∷ []

abbrev pub providers_tgz : Text
providers_tgz =
    b'p' ∷ b'r' ∷ b'o' ∷ b'v' ∷ b'i' ∷ b'd' ∷ b'e' ∷ b'r' ∷ b's' ∷ b'.' ∷ b't' ∷ b'g' ∷ b'z' ∷ []

-- `https://api.github.com`
abbrev pub github_base_uri : Text
github_base_uri =
    b'h' ∷ b't' ∷ b't' ∷ b'p' ∷ b's' ∷ b':' ∷ b'/' ∷ b'/' ∷ b'a' ∷ b'p' ∷ b'i' ∷ b'.' ∷ b'g' ∷ b'i'
    ∷ b't' ∷ b'h' ∷ b'u' ∷ b'b' ∷ b'.' ∷ b'c' ∷ b'o' ∷ b'm' ∷ []
