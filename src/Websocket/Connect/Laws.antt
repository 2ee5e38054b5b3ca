-- ===== src/Websocket/Connect/Laws.antt =====
-- When `connect` stops, what it returns, and how long it waits.
use mathlib.Core.Option
use native.Mathlib.Nat.{pow-suc, one-le-pow, mul-mod_left}
use mathlib.Core.Path.{subst}
use fpd.Base.{ℕ, zero, suc, ◌+◌, ◌-◌, ◌*◌, ◌^◌, ◌≤◌, ◌<◌, min, ◌≡◌, refl, ap, ◌≢◌, arith}
use fpd.Base.{Bool, true, false, Option, none, some, List, [], ◌∷◌, length, All}
use fpd.Base.{
  Outcome, ok, err, panicked, Profile, debug, release, u32_mod, u64_mod, fit, fit-eq_of_lt,
  pow_u64-eq,
}
use fpd.Websocket.{Error, Response, from_millis}
use fpd.Websocket.Connect.{backoff, Trace, ended, slept, is_final, connect_loop, connect}

-- The wait that the code means: 2 ^ (attempt + 6) milliseconds, up to the maximum.
abbrev pub exponential : ℕ → ℕ → ℕ
exponential max_backoff_duration attempt =
    min (from_millis (2 ^ (attempt + 6))) max_backoff_duration

-- Below attempt 58 the wait is the exponential one, under both profiles.
pub backoff-exponential :
    (p : Profile) (m attempt : ℕ) → attempt < 58 → backoff p m attempt ≡ ok (exponential m attempt)
unfolding backoff
backoff-exponential p m attempt h = rw (
  fit-eq_of_lt {E = Error} p u32_mod (attempt + 6) (omega arith),
  pow_u64-eq {E = Error} p (attempt + 6) (omega arith),
)

backoff-le : (p : Profile) (m attempt : ℕ) {d : ℕ} → backoff p m attempt ≡ ok d → d ≤ m
unfolding backoff
backoff-le p m attempt h = ground arith

abbrev pub exponentials : ℕ → ℕ → ℕ → List ℕ
exponentials m attempt zero = []
exponentials m attempt (suc n) = exponential m attempt ∷ exponentials m (attempt + 1) n

module _ (is_client_error : Response → Bool) where
  module _ {A : Type 0} (max_retries : ℕ) (initiate : ℕ → Outcome Error A) where
    -- The attempt failed with an error that is worth a retry.
    abbrev pub Fails : ℕ → Type 0
    Fails k = (e : Error) × (initiate k ≡ err e) × (is_final is_client_error e ≡ false)

    -- The attempt ends the loop, with this result.
    pub data Stops (k : ℕ) (r : Outcome Error A) : Type 0 where
      connected : (a : A) → initiate k ≡ ok a → r ≡ ok a → Stops k r
      refused :
          (e : Error)
          → initiate k ≡ err e
          → is_final is_client_error e ≡ true
          → r ≡ err e
          → Stops k r
      exhausted : (e : Error) → initiate k ≡ err e → k ≡ max_retries → r ≡ err e → Stops k r

    module _ (p : Profile) (m : ℕ) where
      loop-Stops :
          (fuel k : ℕ) {r : Outcome Error A}
          → Stops k r
          → connect_loop is_client_error p max_retries m initiate (suc fuel) k ≡ some (ended r)
      unfolding connect_loop
      loop-Stops fuel k (connected a e h) = ground arith
      loop-Stops fuel k (refused x e f h) = ground arith
      loop-Stops fuel k (exhausted x e f h) = ground arith

      loop_retry :
          (fuel k : ℕ) (x : Error)
          → initiate k ≡ err x
          → is_final is_client_error x ≡ false
          → k < 58
          → k < max_retries
          → connect_loop is_client_error p max_retries m initiate (suc fuel) k
            ≡ Option.map
                (slept (exponential m k))
                (connect_loop is_client_error p max_retries m initiate fuel (k + 1))
      unfolding connect_loop
      loop_retry fuel k x e f small few =
          ground (arith, backoff-exponential p m k, fit-eq_of_lt {E = Error} p u32_mod (k + 1))

      loop_retries :
          (n fuel k : ℕ) {r : Outcome Error A}
          → ((j : ℕ) → k ≤ j → j < k + n → Fails j)
          → k + n ≤ 58
          → k + n ≤ max_retries
          → n < fuel
          → Stops (k + n) r
          → connect_loop is_client_error p max_retries m initiate fuel k
            ≡ some (record { sleeps = exponentials m k n; result = r })
      loop_retries n zero k fails small few enough stop = absurd (omega arith)
      loop_retries zero (suc fuel) k {r} fails small few enough stop =
          loop-Stops fuel k (subst (λ j. Stops j r) (omega arith) stop)
      loop_retries (suc n) (suc fuel) k {r} fails small few enough stop =
          let (x, e, f) = fails k (omega arith) (omega arith) in
          rw (
            loop_retry fuel k x e f (omega arith) (omega arith),
            loop_retries n fuel (k + 1) {r = r} (λ j h l. fails j (omega arith) (omega arith))
                (omega arith) (omega arith) (omega arith)
                (subst (λ j. Stops j r) (omega arith) stop),
          )

      -- If the attempts before `n` fail with errors worth a retry and attempt `n` ends the loop, then
      -- `connect`, in both build profiles, waits `2 ^ (k + 6)` milliseconds, or the maximum if that is
      -- less, after each failed attempt `k`, and returns the result of attempt `n`, for `n` up to the
      -- number of retries and up to 58.
      pub connect_lem :
          (n : ℕ) {r : Outcome Error A}
          → ((j : ℕ) → j < n → Fails j)
          → n ≤ 58
          → n ≤ max_retries
          → Stops n r
          → connect is_client_error p max_retries m initiate
            ≡ some (record { sleeps = exponentials m 0 n; result = r })
      unfolding connect
      connect_lem n {r} fails small few stop =
          loop_retries n (suc max_retries) 0 {r = r} (λ j h l. fails j (omega arith)) (omega arith)
            (omega arith) (omega arith) (subst (λ j. Stops j r) (omega arith) stop)

      loop_total :
          (fuel k : ℕ)
          → k + fuel ≡ max_retries
          → max_retries < u32_mod
          → connect_loop is_client_error p max_retries m initiate (suc fuel) k ≢ none
      unfolding connect_loop
      loop_total zero k e small = ground arith
      loop_total (suc fuel) k e small =
          ground (arith, fit-eq_of_lt {E = Error} p u32_mod (k + 1), loop_total fuel (k + 1))

      -- With a `u32` for `max_retries` the fuel of one attempt and `max_retries` retries is enough:
      -- `connect` ends, whatever the server does.
      pub connect_total :
          max_retries < u32_mod → connect is_client_error p max_retries m initiate ≢ none
      unfolding connect
      connect_total small = loop_total max_retries 0 (omega arith) small

      abbrev IsBounded : ℕ → Option (Trace A) → Type 0
      IsBounded fuel none = Unit
      IsBounded fuel (some t) = (length t.sleeps < fuel) × All (λ d. d ≤ m) t.sleeps

      IsBounded-slept :
          (fuel d : ℕ) (o : Option (Trace A))
          → d ≤ m
          → IsBounded fuel o
          → IsBounded (suc fuel) (Option.map (slept d) o)
      IsBounded-slept fuel d none h b = tt
      IsBounded-slept fuel d (some t) h b = (omega arith, (h, b.1))

      loop_bounds :
          (fuel k : ℕ)
          → k + fuel ≡ suc max_retries
          → max_retries < u32_mod
          → IsBounded fuel (connect_loop is_client_error p max_retries m initiate fuel k)
      unfolding connect_loop
      loop_bounds zero k e small = tt
      loop_bounds (suc fuel) k e small = grind (
        arith,
        fit-eq_of_lt {E = Error} p u32_mod (k + 1),
        backoff-le,
        loop_bounds fuel (k + 1),
        IsBounded-slept,
      )

      -- A call of `connect` that ends has made at most `max_retries` waits, none of them longer than the
      -- maximum, with a `u32` for `max_retries`.
      pub connect_bounds :
          {t : Trace A}
          → max_retries < u32_mod
          → connect is_client_error p max_retries m initiate ≡ some t
          → (length t.sleeps ≤ max_retries) × All (λ d. d ≤ m) t.sleeps
      unfolding connect
      connect_bounds {t} small h =
          let bounds =
            subst (IsBounded (suc max_retries)) h
              (loop_bounds (suc max_retries) 0 (omega arith) small) in
          (omega arith, bounds.1)

pow-64 : (k : ℕ) → 2 ^ (k + 64) ≡ 2 ^ k * 2 ^ 64
pow-64 zero = refl
pow-64 (suc k) =
    let e : suc k + 64 ≡ suc (k + 64) = omega arith in
    rw (e, pow-suc 2 (k + 64), pow-suc 2 k) (omega (arith, pow-64 k))

pow_u64-overflow :
    (k : ℕ)
    → (fit {E = Error} debug u64_mod (2 ^ (k + 64)) ≡ panicked)
      × (fit {E = Error} release u64_mod (2 ^ (k + 64)) ≡ ok 0)
unfolding fit
pow_u64-overflow k =
    rw pow-64 (ground (arith, one-le-pow k 2 (omega arith)), ap ok (mul-mod_left (2 ^ k) u64_mod))

-- From attempt 58 on (and where `attempt + 6` fits a `u32`) `2u64.pow(attempt + 6)` overflows: a
-- debug build panics, and a release build does not wait at all.
pub backoff-overflow :
    (m attempt : ℕ)
    → 58 ≤ attempt
    → attempt + 6 < u32_mod
    → (backoff debug m attempt ≡ panicked) × (backoff release m attempt ≡ ok 0)
unfolding backoff
backoff-overflow m attempt h small =
    let e : attempt + 6 ≡ attempt - 58 + 64 = omega arith in
    let (panics, wraps) = pow_u64-overflow (attempt - 58) in
    rw
      (
        fit-eq_of_lt {E = Error} debug u32_mod (attempt + 6) small,
        fit-eq_of_lt {E = Error} release u32_mod (attempt + 6) small,
        e,
        panics,
        wraps,
      )
      (refl, ap ok (omega arith))
