-- ===== src/Cli/Interval.antt =====
-- `IntervalDuration::from_str` of src/cli.rs, on the bytes of the argument, with what it uses of
-- the standard library's `str` and `u64`.
pub mod Decimal
pub mod Laws
use fpd.Base.{
  ℕ, zero, suc, ◌+◌, ◌-◌, ◌*◌, Bool, true, false, ◌&&◌, ◌||◌, List, [], ◌∷◌, length, take, drop,
  Outcome, ok, err, panicked, ◌>>=◌, ltb, leb, eqb, if◌then◌else◌, Profile, u64_mod, mul_u64,
  pred_usize,
}

pub data Error : Type 0 where
  empty_number invalid_digit overflow invalid_interval : Error

-- `str::is_char_boundary`: the byte there, if any, is no continuation byte of UTF-8.
abbrev pub starts_char : List ℕ → Bool
starts_char [] = true
starts_char (b ∷ rest) = ltb b 128 || leb 192 b

-- `str::split_at`
abbrev pub split_at : List ℕ → ℕ → Outcome Error (List ℕ × List ℕ)
split_at s mid =
    if leb mid (length s) && starts_char (drop mid s) then ok (take mid s, drop mid s) else panicked

-- `u64::from_str`
unfoldable pub digits : ℕ → List ℕ → Outcome Error ℕ
digits acc [] = ok acc
digits acc (c ∷ cs) =
    if leb b'0' c && leb c b'9'
    then if ltb (acc * 10 + (c - b'0')) u64_mod
      then digits (acc * 10 + (c - b'0')) cs
      else err overflow
    else err invalid_digit

unfoldable pub unsigned : ℕ → List ℕ → Outcome Error ℕ
unfolding digits
unsigned c [] = if eqb c b'+' then err invalid_digit else digits 0 (c ∷ [])
unsigned c (d ∷ ds) = if eqb c b'+' then digits 0 (d ∷ ds) else digits 0 (c ∷ d ∷ ds)

unfoldable pub u64_from_str : List ℕ → Outcome Error ℕ
unfolding unsigned
u64_from_str [] = err empty_number
u64_from_str (c ∷ cs) = unsigned c cs

module _ (p : Profile) where
  -- The arms of the `match`, in seconds.
  unfoldable pub seconds : List ℕ → List ℕ → Outcome Error ℕ
  seconds s (c ∷ []) =
      if eqb c b's'
      then u64_from_str s
      else if eqb c b'm'
      then (do n ← u64_from_str s; mul_u64 p n 60)
      else if eqb c b'h'
      then (do n ← u64_from_str s; minutes ← mul_u64 p n 60; mul_u64 p minutes 60)
      else err invalid_interval
  seconds s _ = err invalid_interval

  -- The interval, in seconds.
  unfoldable pub from_str : List ℕ → Outcome Error ℕ
  unfolding seconds u64_from_str
  from_str s = do mid ← pred_usize p (length s); parts ← split_at s mid; seconds parts.0 parts.1
