-- ===== src/Cli/Interval/Decimal.antt =====
-- Decimal numerals, and that `u64::from_str` reads them back.
use fpd.Base.{
  ℕ, zero, suc, ◌+◌, ◌-◌, ◌*◌, ◌/◌, ◌%◌, ◌≤◌, ◌<◌, ◌≡◌, refl, sym, ap, ◌∙◌, arith, List, [], ◌∷◌,
  ◌++◌, ok, ◌>>=◌, inl, inr, length, length-append, ltb, Bool-cases, if◌then◌else◌, u64_mod,
}
use fpd.Cli.Interval.{digits, unsigned, u64_from_str}

-- With fuel: a round for each digit, and one for the last.
unfoldable pub decimal : ℕ → ℕ → List ℕ
decimal zero n = []
decimal (suc fuel) n =
    let front = decimal fuel (n / 10) in
    if ltb n 10 then (b'0' + n) ∷ [] else front ++ ((b'0' + n % 10) ∷ [])

unfoldable pub print : ℕ → List ℕ
unfolding decimal
print n = decimal (suc n) n

digits-append :
    (acc : ℕ) (xs ys : List ℕ) → digits acc (xs ++ ys) ≡ (digits acc xs >>= λ n. digits n ys)
unfolding digits
digits-append acc [] ys = refl
digits-append acc (c ∷ xs) ys = ground (arith, digits-append (acc * 10 + (c - b'0')) xs ys)

digits-one :
    (acc d : ℕ) → d < 10 → acc * 10 + d < u64_mod → digits acc ((b'0' + d) ∷ []) ≡ ok (acc * 10 + d)
unfolding digits
digits-one acc d h small = ground arith

digits-front :
    (front : List ℕ) (n : ℕ)
    → n < u64_mod
    → digits 0 front ≡ ok (n / 10)
    → digits 0 (front ++ ((b'0' + n % 10) ∷ [])) ≡ ok n
digits-front front n small read =
    rw (digits-append 0 front ((b'0' + n % 10) ∷ []), read)
      (digits-one (n / 10) (n % 10) (omega arith) (omega arith) ∙ ap ok (omega arith))

digits-decimal : (fuel n : ℕ) → n < fuel → n < u64_mod → digits 0 (decimal fuel n) ≡ ok n
unfolding decimal
digits-decimal zero n h small = absurd (omega arith)
digits-decimal (suc fuel) n h small = elim (Bool-cases (ltb n 10)) [
  | inl one ↦ rw one (digits-one 0 n (ground arith) (omega arith) ∙ ap ok (omega arith))
  | inr more ↦ rw more (
      digits-front (decimal fuel (n / 10)) n small
        (digits-decimal fuel (n / 10) (ground arith) (omega arith)))
]

-- The first byte of a numeral is a digit.
first-digit :
    (fuel n : ℕ)
    → n < fuel
    → (d : ℕ) × (ds : List ℕ) × (d < 10) × (decimal fuel n ≡ (b'0' + d) ∷ ds)
unfolding decimal
first-digit zero n h = absurd (omega arith)
first-digit (suc fuel) n h = elim (Bool-cases (ltb n 10)) [
  | inl one ↦ (n, [], ground arith, rw one)
  | inr more ↦
      let front = first-digit fuel (n / 10) (ground arith) in
      (
        front.0,
        front.1 ++ ((b'0' + n % 10) ∷ []),
        front.2,
        (rw more (ap (λ ds. ds ++ ((b'0' + n % 10) ∷ [])) front.3)),
      )
]

unsigned-digits :
    (d : ℕ) (ds : List ℕ) → d < 10 → unsigned (b'0' + d) ds ≡ digits 0 ((b'0' + d) ∷ ds)
unfolding unsigned
unsigned-digits d [] h = ground arith
unsigned-digits d (x ∷ ds) h = ground arith

pub u64_from_str-print : (n : ℕ) → n < u64_mod → u64_from_str (print n) ≡ ok n
unfolding print u64_from_str
u64_from_str-print n small =
    let first = first-digit (suc n) n (omega arith) in
    rw first.3 (
      unsigned-digits first.0 first.1 first.2
      ∙ sym (ap (digits 0) first.3)
      ∙ digits-decimal (suc n) n (omega arith) small)

length-decimal : (fuel n : ℕ) → length (decimal fuel n) ≤ n / 10 + 1
unfolding decimal
length-decimal zero n = omega arith
length-decimal (suc fuel) n = elim (Bool-cases (ltb n 10)) [
  | inl one ↦ rw one (omega arith)
  | inr more ↦ rw more (
      rw (length-append (decimal fuel (n / 10)) ((b'0' + n % 10) ∷ []))
        (let large : 10 ≤ n = ground arith in omega (arith, length-decimal fuel (n / 10))))
]

pub length-print : (n : ℕ) → length (print n) ≤ n / 10 + 1
unfolding print
length-print n = length-decimal (suc n) n
