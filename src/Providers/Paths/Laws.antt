-- ===== src/Providers/Paths/Laws.antt =====
-- The stem of a file name has no slash, so a provider's destination lies directly in its directory.
use mathlib.Core.Path.{subst}
use fpd.Base.{
  ℕ, ◌≡◌, refl, sym, ◌∙◌, arith, ◌≢◌, false, ◌||◌, Option, none, some, List, [], ◌∷◌, ◌++◌, ok, eqb,
  ◌==◌, bytes_eq, All, Bool-cases, inl, inr,
}
use fpd.Providers.{Text, Disk}
use fpd.Providers.Paths.{
  split_slash, with_byte, last_part, file_name, rsplit_dot, dot_at, later_or, unless_parent,
  stem_in, stem_of, file_stem, separated, join, wasm, chosen_dir, get_provider_destination,
}

abbrev pub NoSlash : Text → Type 0
NoSlash = All (λ b. eqb b b'/' ≡ false)

with_byte-NoSlash :
    (b : ℕ) (parts : List Text)
    → eqb b b'/' ≡ false
    → All NoSlash parts
    → All NoSlash (with_byte b parts)
with_byte-NoSlash b [] h all = ((h, tt), tt)
with_byte-NoSlash b (part ∷ parts) h all = ((h, all.0), all.1)

split_slash-NoSlash : (path : Text) → All NoSlash (split_slash path)
unfolding split_slash
split_slash-NoSlash [] = (tt, tt)
split_slash-NoSlash (b ∷ rest) = elim (Bool-cases (eqb b b'/')) [
  | inl slash ↦ rw slash (tt, split_slash-NoSlash rest)
  | inr other ↦ rw other (with_byte-NoSlash b (split_slash rest) other (split_slash-NoSlash rest))
]

abbrev Holds : {A : Type 0} → (A → Type 0) → Option A → Type 0
Holds P none = Unit
Holds P (some a) = P a

later_or-NoSlash :
    (part : Text) (later : Option Text)
    → NoSlash part
    → Holds NoSlash later
    → Holds NoSlash (later_or part later)
later_or-NoSlash part (some later) h g = g
later_or-NoSlash part none h g = elim (Bool-cases (part == [] || part == (b'.' ∷ []))) [
  | inl skipped ↦ rw skipped tt
  | inr taken ↦ rw taken h
]

last_part-NoSlash : (parts : List Text) → All NoSlash parts → Holds NoSlash (last_part parts)
unfolding last_part
last_part-NoSlash [] all = tt
last_part-NoSlash (p ∷ parts) all =
    later_or-NoSlash p (last_part parts) all.0 (last_part-NoSlash parts all.1)

unless_parent-NoSlash : (o : Option Text) → Holds NoSlash o → Holds NoSlash (unless_parent o)
unless_parent-NoSlash none h = tt
unless_parent-NoSlash (some part) h = elim (Bool-cases (part == (b'.' ∷ b'.' ∷ []))) [
  | inl parent ↦ rw parent tt
  | inr other ↦ rw other h
]

dot_at-NoSlash :
    (b : ℕ) (rest : Text) (o : Option (Text × Text))
    → eqb b b'/' ≡ false
    → Holds (λ parts. NoSlash parts.0) o
    → Holds (λ parts. NoSlash parts.0) (dot_at b rest o)
dot_at-NoSlash b rest (some (front, back)) h g = (h, g)
dot_at-NoSlash b rest none h g = elim (Bool-cases (eqb b b'.')) [
  | inl dot ↦ rw dot tt
  | inr other ↦ rw other tt
]

rsplit_dot-NoSlash :
    (name : Text) → NoSlash name → Holds (λ parts. NoSlash parts.0) (rsplit_dot name)
unfolding rsplit_dot
rsplit_dot-NoSlash [] all = tt
rsplit_dot-NoSlash (b ∷ rest) all =
    dot_at-NoSlash b rest (rsplit_dot rest) all.0 (rsplit_dot-NoSlash rest all.1)

stem_of-NoSlash :
    (name : Text) (o : Option (Text × Text))
    → NoSlash name
    → Holds (λ parts. NoSlash parts.0) o
    → NoSlash (stem_of name o)
stem_of-NoSlash name none all h = all
stem_of-NoSlash name (some ([], back)) all h = all
stem_of-NoSlash name (some (b ∷ front, back)) all h = h

stem_in-NoSlash : (o : Option Text) → Holds NoSlash o → Holds NoSlash (stem_in o)
unfolding stem_in
stem_in-NoSlash none h = tt
stem_in-NoSlash (some name) h = stem_of-NoSlash name (rsplit_dot name) h (rsplit_dot-NoSlash name h)

-- Whatever the path, its stem has no slash.
pub file_stem-NoSlash : (path : Text) {stem : Text} → file_stem path ≡ some stem → NoSlash stem
unfolding file_stem file_name
file_stem-NoSlash path {stem} h = subst (Holds NoSlash) h (
    stem_in-NoSlash (file_name path) (
      unless_parent-NoSlash (last_part (split_slash path))
        (last_part-NoSlash (split_slash path) (split_slash-NoSlash path))))

join-NoSlash :
    (dir stem suffix : Text)
    → NoSlash stem
    → NoSlash suffix
    → suffix ≢ []
    → join dir (stem ++ suffix) ≡ separated dir (stem ++ suffix)
unfolding join
join-NoSlash dir [] [] all suffix nonempty = refl
join-NoSlash dir [] (c ∷ suffix) all free nonempty = rw free.0
join-NoSlash dir (b ∷ stem) suffix all free nonempty = rw all.0

-- A path directly in a directory, whose name ends in `.wasm`.
abbrev pub IsIn : Text → Text → Type 0
IsIn dir path = (stem : Text) × NoSlash stem × (path ≡ separated dir (stem ++ (b'.' ∷ wasm)))

-- The destination for a stem is directly in the chosen directory.
pub get_provider_destination-IsIn :
    (disk : Disk) (wasm_dir : Option Text) (stem : Text) {dir destination : Text}
    → NoSlash stem
    → chosen_dir disk wasm_dir ≡ ok dir
    → get_provider_destination disk wasm_dir stem ≡ ok destination
    → IsIn dir destination
unfolding get_provider_destination
get_provider_destination-IsIn disk wasm_dir stem {dir} {destination} free chosen h =
    let suffix : Text = b'.' ∷ wasm in
    let plain : NoSlash suffix = (refl, (refl, (refl, (refl, (refl, tt))))) in
    let same : join dir (stem ++ suffix) ≡ destination = ground arith in
    (stem, free, sym same ∙ join-NoSlash dir stem suffix free plain (λ e. cc))
