-- ===== src/Websocket/Connect.antt =====
-- `connect` of src/tasks/tokio_tungstenite_reconnect/reconnecting_websocket.rs: the attempts, the
-- waits between them, and which error ends them.
pub mod Laws
pub mod Origin
use mathlib.Core.Option
use fpd.Base.{ℕ, zero, suc, ◌+◌, ◌≡◌, Bool, true, false, Option, none, some, List, [], ◌∷◌, min}
use fpd.Base.{Outcome, ok, err, panicked, ◌>>=◌, eqb, if◌then◌else◌, Profile, add_u32, pow_u64}
use fpd.Websocket.{Error, http, Response, from_millis}

-- The wait before the attempt that follows `attempt`, in nanoseconds.
unfoldable pub backoff : Profile → ℕ → ℕ → Outcome Error ℕ
backoff p max_backoff_duration attempt = do
  exponent ← add_u32 p attempt 6
  millis ← pow_u64 p 2 exponent
  ok (min (from_millis millis) max_backoff_duration)

-- What a call of `connect` did: the waits that it made, in order, and how it ended.
pub record Trace (A : Type 0) : Type 0 where
  pub sleeps : List ℕ
  pub result : Outcome Error A

abbrev pub ended : {A : Type 0} → Outcome Error A → Trace A
ended r = record { sleeps = []; result = r }

abbrev pub slept : {A : Type 0} → ℕ → Trace A → Trace A
slept d t = record t { sleeps = d ∷ t.sleeps }

module _ (is_client_error : Response → Bool) where
  -- The test on `err` that ends the loop before the retries are used up.
  abbrev pub is_final : Error → Bool
  is_final (http response) = is_client_error response
  is_final _ = false

  module _ {A : Type 0} (p : Profile) (max_retries max_backoff_duration : ℕ) where
    -- `initiate_connection` at each attempt. A round of fuel is an attempt; `none` is no fuel left.
    module _ (initiate : ℕ → Outcome Error A) where
      unfoldable pub connect_loop : ℕ → ℕ → Option (Trace A)
      connect_loop zero attempt = none
      connect_loop (suc fuel) attempt = elim (initiate attempt) [
        | ok a ↦ some (ended (ok a))
        | panicked ↦ some (ended panicked)
        | err e ↦
            if eqb attempt max_retries
            then some (ended (err e))
            else if is_final e
            then some (ended (err e))
            else elim (backoff p max_backoff_duration attempt) [
              | ok duration ↦ elim (add_u32 {E = Error} p attempt 1) [
                | ok next ↦ Option.map (slept duration) (connect_loop fuel next)
                | _ ↦ some (slept duration (ended panicked))
              ]
              | _ ↦ some (ended panicked)
            ]
      ]

      -- One attempt and `max_retries` retries.
      unfoldable pub connect : Option (Trace A)
      unfolding connect_loop
      connect = connect_loop (suc max_retries) 0
