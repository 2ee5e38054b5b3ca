-- ===== src/Base/Words.antt =====
-- Rust's fixed-width arithmetic. With the overflow checks of a debug build an operation that
-- leaves its range panics; without them, as in a release build, it wraps.
use Prim.Native.Nat.{ℕ, ◌+◌, ◌-◌, ◌*◌, ◌%◌, ◌^◌, ◌<◌}
use mathlib.Core.Path.{◌≡◌}
use native.Mathlib.Nat.{pow-le-pow_right, mod-eq_of_lt}
use native.Mathlib.Omega.{arith}
use fpd.Base.Tests.{ltb, leb, if◌then◌else◌}
use fpd.Base.Results.{Outcome, ok, panicked}

pub data Profile : Type 0 where
  debug release : Profile

abbrev pub u32_mod : ℕ
u32_mod = 4294967296

abbrev pub u64_mod : ℕ
u64_mod = 18446744073709551616

-- An exact result brought into the range below `m`.
unfoldable pub fit {ℓ} : {E : Type ℓ} → Profile → ℕ → ℕ → Outcome E ℕ
fit debug m n = if ltb n m then ok n else panicked
fit release m n = ok (n % m)

abbrev pub add_u32 {ℓ} : {E : Type ℓ} → Profile → ℕ → ℕ → Outcome E ℕ
add_u32 p a b = fit p u32_mod (a + b)

abbrev pub mul_u64 {ℓ} : {E : Type ℓ} → Profile → ℕ → ℕ → Outcome E ℕ
mul_u64 p a b = fit p u64_mod (a * b)

abbrev pub pow_u64 {ℓ} : {E : Type ℓ} → Profile → ℕ → ℕ → Outcome E ℕ
pow_u64 p a b = fit p u64_mod (a ^ b)

-- `a - 1` in `usize`: at 0 it panics, or wraps to `usize::MAX`.
abbrev pub pred_usize {ℓ} : {E : Type ℓ} → Profile → ℕ → Outcome E ℕ
pred_usize debug n = if leb 1 n then ok (n - 1) else panicked
pred_usize release n = ok ((n + u64_mod - 1) % u64_mod)

-- A result within the range is exact under both profiles.
pub fit-eq_of_lt {ℓ} : {E : Type ℓ} (p : Profile) (m n : ℕ) → n < m → fit {E = E} p m n ≡ ok n
unfolding fit
fit-eq_of_lt debug m n h = ground arith
fit-eq_of_lt release m n h = rw (mod-eq_of_lt h)

pub pow_u64-eq {ℓ} :
    {E : Type ℓ} (p : Profile) (k : ℕ) → k < 64 → pow_u64 {E = E} p 2 k ≡ ok (2 ^ k)
pow_u64-eq p k h =
    fit-eq_of_lt p u64_mod (2 ^ k)
      (omega (arith, pow-le-pow_right {n = 2} (omega arith) {i = k} {j = 63} (omega arith)))
