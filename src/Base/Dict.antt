-- ===== src/Base/Dict.antt =====
-- `HashMap` as an association list. Its iteration order is that of the list.
use mathlib.Core.Path.{◌≡◌, refl}
use mathlib.Core.Logic.{◌≢◌, inl, inr}
use mathlib.Core.Option.{Option, none, some, or_else}
use mathlib.Core.List.{List, [], ◌∷◌}
use native.Mathlib.Omega.{arith}
use mathlib.Core.Bool.{true}
use mathlib.Core.Path.{subst}
use fpd.Base.Lists.{All, contains}
use fpd.Base.Tests.{Eq, Bool-cases, ◌==◌, if◌then◌else◌}

abbrev pub Dict {ℓ κ} : Type ℓ → Type κ → Type (ℓ ⊔ κ)
Dict K V = List (K × V)

unfoldable pub keys {ℓ κ} : {K : Type ℓ} {V : Type κ} → Dict K V → List K
keys [] = []
keys ((k, v) ∷ d) = k ∷ keys d

unfoldable pub values {ℓ κ} : {K : Type ℓ} {V : Type κ} → Dict K V → List V
values [] = []
values ((k, v) ∷ d) = v ∷ values d

module _ {ℓ κ} {K : Type ℓ} {V : Type κ} ⦃e : Eq K⦄ where
  unfoldable pub get : K → Dict K V → Option V
  get k [] = none
  get k ((j, v) ∷ d) = if k == j then some v else get k d

  -- `map.insert(k, v)`: an old entry is replaced in place.
  unfoldable pub insert : K → V → Dict K V → Dict K V
  insert k v [] = (k, v) ∷ []
  insert k v ((j, w) ∷ d) = if k == j then (k, v) ∷ d else (j, w) ∷ insert k v d

  -- `collect()` of pairs: each is inserted in turn, so the last of a key wins.
  unfoldable pub extend : List (K × V) → Dict K V → Dict K V
  extend [] d = d
  extend ((k, v) ∷ ps) d = extend ps (insert k v d)

  pub get-insert :
      (j k : K) (v : V) (d : Dict K V) → get j (insert k v d) ≡ (if j == k then some v else get j d)
  unfolding insert get
  get-insert j k v [] = refl
  get-insert j k v (_ ∷ d) = ground (arith, get-insert j k v d)

  pub get-insert_self : (k : K) (v : V) (d : Dict K V) → get k (insert k v d) ≡ some v
  get-insert_self k v d = ground (arith, get-insert k k v d)

  pub insert-ne-none :
      (j k : K) (v : V) (d : Dict K V) → get j d ≢ none → get j (insert k v d) ≢ none
  insert-ne-none j k v d h = ground (arith, get-insert j k v d)

  -- The value of the last entry of a key.
  abbrev pub last : K → List (K × V) → Option V
  last k [] = none
  last k ((j, v) ∷ ps) = elim (last k ps) [
    | some w ↦ some w
    | none ↦ if k == j then some v else none
  ]

  pub get-extend :
      (j : K) (ps : List (K × V)) (d : Dict K V)
      → get j (extend ps d) ≡ or_else (last j ps) (get j d)
  unfolding extend or_else
  get-extend j [] d = refl
  get-extend j ((k, v) ∷ ps) d = ground (arith, get-insert j k v d, get-extend j ps (insert k v d))

  pub get-extend_nil : (j : K) (ps : List (K × V)) → get j (extend ps []) ≡ last j ps
  unfolding get or_else
  get-extend_nil j ps = ground (arith, get-extend j ps [])

  pub contains-keys : (k : K) (d : Dict K V) {v : V} → get k d ≡ some v → contains k (keys d) ≡ true
  unfolding get keys
  contains-keys k [] h = cc
  contains-keys k ((j, w) ∷ d) {v} h = ground (arith, contains-keys k d {v = v})

  pub get-contains-keys : (k : K) (d : Dict K V) → contains k (keys d) ≡ true → get k d ≢ none
  unfolding get keys
  get-contains-keys k [] h = absurd (ground arith)
  get-contains-keys k ((j, w) ∷ d) h = ground (arith, get-contains-keys k d)

  -- What holds of all values holds of the one that is found.
  pub All-get {μ} :
      (P : V → Type μ) (d : Dict K V) (k : K) {v : V} → All P (values d) → get k d ≡ some v → P v
  unfolding get values
  All-get P [] k all h = cc
  All-get P ((j, w) ∷ d) k {v} all h = elim (Bool-cases (k == j)) [
    | inl same ↦ let e : w ≡ v = ground arith in subst P e all.0
    | inr other ↦ All-get P d k {v = v} all.1 (ground arith)
  ]
