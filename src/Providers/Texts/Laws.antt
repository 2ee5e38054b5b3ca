-- ===== src/Providers/Texts/Laws.antt =====
-- Nothing is left of the prefix that is trimmed.
use mathlib.Core.Path.{subst}
use fpd.Base.{
  ℕ, zero, suc, ◌+◌, ◌≤◌, ◌≡◌, refl, sym, arith, false, none, some, Option-cases, inl, inr, [], ◌∷◌,
  length,
}
use fpd.Providers.{Text}
use fpd.Providers.Texts.{strip_prefix, trim_rounds, trim_start_matches, starts_with}

strip_prefix-length :
    (prefix s : Text) {rest : Text}
    → strip_prefix prefix s ≡ some rest
    → length s ≡ length rest + length prefix
strip_prefix-length [] s h = ground arith
strip_prefix-length (b ∷ prefix) [] h = cc
strip_prefix-length (b ∷ prefix) (c ∷ s) {rest} h =
    ground (arith, strip_prefix-length prefix s {rest = rest})

trim_rounds-none :
    (fuel : ℕ) (prefix s : Text)
    → 1 ≤ length prefix
    → length s ≤ fuel
    → strip_prefix prefix (trim_rounds fuel prefix s) ≡ none
unfolding trim_rounds
trim_rounds-none zero (b ∷ prefix) [] h g = refl
trim_rounds-none zero (b ∷ prefix) (c ∷ s) h g = absurd (omega arith)
trim_rounds-none zero [] s h g = absurd (omega arith)
trim_rounds-none (suc fuel) prefix s h g = elim (Option-cases (strip_prefix prefix s)) [
  | inl gone ↦ rw (trim_rounds, gone) gone
  | inr (rest, found) ↦
      subst
        (λ o.
          strip_prefix prefix (elim o [ none ↦ s | some rest ↦ trim_rounds fuel prefix rest ])
          ≡ none)
        (sym found)
        (trim_rounds-none fuel prefix rest h
          (omega (arith, strip_prefix-length prefix s {rest = rest} found)))
]

-- A text that has been trimmed does not begin with the prefix, unless that is empty.
pub trim_start_matches-none :
    (prefix s : Text) → 1 ≤ length prefix → starts_with prefix (trim_start_matches prefix s) ≡ false
unfolding trim_start_matches
trim_start_matches-none prefix s h =
    let gone : strip_prefix prefix (trim_start_matches prefix s) ≡ none =
      trim_rounds-none (length s) prefix s h (omega arith) in
    ground arith
