-- ===== src/Cli/Interval/Laws.antt =====
-- What `IntervalDuration::from_str` of src/cli.rs answers, on well-formed and on ill-formed text.
use fpd.Base.{
  ℕ, ◌+◌, ◌*◌, ◌%◌, ◌≤◌, ◌<◌, ◌≡◌, refl, ap, ◌∙◌, arith, true, List, [], ◌∷◌, ◌++◌, length,
  length-append, take-append, drop-append, ok, panicked, if◌then◌else◌, Profile, debug, release,
  u64_mod, fit, fit-eq_of_lt, pred_usize,
}
use fpd.Cli.Interval.{Error, starts_char, split_at, seconds, u64_from_str, from_str}
use fpd.Cli.Interval.Decimal.{print, u64_from_str-print, length-print}

-- The units of an interval, the byte that names each and its seconds.
pub data Scale : Type 0 where
  by_second by_minute by_hour : Scale

abbrev pub symbol : Scale → ℕ
symbol by_second = b's'
symbol by_minute = b'm'
symbol by_hour = b'h'

abbrev pub factor : Scale → ℕ
factor by_second = 1
factor by_minute = 60
factor by_hour = 3600

pred_usize-suc : (p : Profile) (k : ℕ) → k < u64_mod → pred_usize {E = Error} p (k + 1) ≡ ok k
pred_usize-suc debug k h = ground arith
pred_usize-suc release k h = ap ok (omega arith)

pred_usize-length :
    (p : Profile) (s : List ℕ) (c : ℕ)
    → length s < u64_mod
    → pred_usize {E = Error} p (length (s ++ (c ∷ []))) ≡ ok (length s)
pred_usize-length p s c h = rw (length-append s (c ∷ [])) (pred_usize-suc p (length s) h)

split_at-last :
    (s : List ℕ) (c : ℕ)
    → split_at (s ++ (c ∷ [])) (length s)
      ≡ (if starts_char (c ∷ []) then ok (s, c ∷ []) else panicked)
split_at-last s c =
    rw (length-append s (c ∷ []), take-append s (c ∷ []), drop-append s (c ∷ [])) (ground arith)

-- The last byte is split off where a character starts there.
from_str-last :
    (p : Profile) (s : List ℕ) (c : ℕ)
    → length s < u64_mod
    → from_str p (s ++ (c ∷ [])) ≡ (if starts_char (c ∷ []) then seconds p s (c ∷ []) else panicked)
unfolding from_str
from_str-last p s c h = rw (pred_usize-length p s c h, split_at-last s c) (ground arith)

seconds-exact :
    (p : Profile) (scale : Scale) (s : List ℕ) (n : ℕ)
    → u64_from_str s ≡ ok n
    → n * factor scale < u64_mod
    → seconds p s (symbol scale ∷ []) ≡ ok (n * factor scale)
unfolding seconds
seconds-exact p by_second s n read small = rw read (ap ok (omega arith))
seconds-exact p by_minute s n read small = rw read (fit-eq_of_lt p u64_mod (n * 60) small)
seconds-exact p by_hour s n read small =
    rw (read, fit-eq_of_lt {E = Error} p u64_mod (n * 60) (omega arith))
      (fit-eq_of_lt p u64_mod (n * 60 * 60) (omega arith) ∙ ap ok (omega arith))

symbol-starts : (scale : Scale) → starts_char (symbol scale ∷ []) ≡ true
symbol-starts by_second = refl
symbol-starts by_minute = refl
symbol-starts by_hour = refl

from_str-scale :
    (p : Profile) (scale : Scale) (n : ℕ)
    → n < u64_mod
    → from_str p (print n ++ (symbol scale ∷ [])) ≡ seconds p (print n) (symbol scale ∷ [])
from_str-scale p scale n small =
    from_str-last p (print n) (symbol scale) (omega (arith, length-print n))
    ∙ ap (λ b. if b then seconds p (print n) (symbol scale ∷ []) else panicked)
        (symbol-starts scale)

-- A decimal numeral followed by `s`, `m` or `h` is read, in both build profiles, as its number
-- of seconds, minutes or hours, whenever that many seconds fit a `u64`.
pub from_str-print :
    (p : Profile) (scale : Scale) (n : ℕ)
    → n * factor scale < u64_mod
    → from_str p (print n ++ (symbol scale ∷ [])) ≡ ok (n * factor scale)
from_str-print p by_second n small =
    from_str-scale p by_second n (omega arith)
    ∙ seconds-exact p by_second (print n) n (u64_from_str-print n (omega arith)) small
from_str-print p by_minute n small =
    from_str-scale p by_minute n (omega arith)
    ∙ seconds-exact p by_minute (print n) n (u64_from_str-print n (omega arith)) small
from_str-print p by_hour n small =
    from_str-scale p by_hour n (omega arith)
    ∙ seconds-exact p by_hour (print n) n (u64_from_str-print n (omega arith)) small

-- The empty text, and every text whose last byte continues a character of several bytes, make
-- the parser panic in both build profiles, where the length of the text is a `usize`.
pub from_str-panicked :
    (p : Profile) (s : List ℕ) (c : ℕ)
    → 128 ≤ c
    → c < 192
    → length s < u64_mod
    → (from_str p [] ≡ panicked) × (from_str p (s ++ (c ∷ [])) ≡ panicked)
unfolding from_str
from_str-panicked debug s c low high fits = (refl, rw (from_str-last debug s c fits) (ground arith))
from_str-panicked release s c low high fits =
    (refl, rw (from_str-last release s c fits) (ground arith))

-- A numeral of minutes whose seconds leave the range of a `u64` panics in a debug build and is
-- read as the seconds modulo `2 ^ 64` in a release build.
pub from_str-overflow :
    (n : ℕ)
    → n < u64_mod
    → u64_mod ≤ n * 60
    → (from_str debug (print n ++ (b'm' ∷ [])) ≡ panicked)
      × (from_str release (print n ++ (b'm' ∷ [])) ≡ ok ((n * 60) % u64_mod))
unfolding seconds fit
from_str-overflow n small large = (
  from_str-scale debug by_minute n small ∙ rw (u64_from_str-print n small) (ground arith),
  from_str-scale release by_minute n small ∙ rw (u64_from_str-print n small) (ground arith),
)
