-- ===== src/Websocket/Connect/Origin.antt =====
-- A connection that `connect` returns comes from one of its attempts.
use fpd.Base.{
  ℕ, zero, suc, ◌≡◌, refl, arith, Bool, Option, Option-cases, some, inl, inr, Outcome, ok, err,
  panicked, Profile, add_u32,
}
use fpd.Websocket.{Error, Response}
use fpd.Websocket.Connect.{Trace, connect_loop, connect}

data Ending {E : Type 0} {A : Type 0} (o : Outcome E A) : Type 0 where
  with_ok : (a : A) → o ≡ ok a → Ending o
  with_err : (e : E) → o ≡ err e → Ending o
  with_panic : o ≡ panicked → Ending o

ending : {E A : Type 0} (o : Outcome E A) → Ending o
ending (ok a) = with_ok a refl
ending (err e) = with_err e refl
ending panicked = with_panic refl

module _ (is_client_error : Response → Bool) {A : Type 0} (p : Profile) (max_retries m : ℕ)
    (initiate : ℕ → Outcome Error A) where
  abbrev From : A → Option (Trace A) → Type 0
  From a o = (t : Trace A) × (o ≡ some t) × (t.result ≡ ok a)

  abbrev Connects : A → Type 0
  Connects a = (k : ℕ) × (initiate k ≡ ok a)

  loop_origin :
      (fuel attempt : ℕ) {a : A}
      → From a (connect_loop is_client_error p max_retries m initiate fuel attempt)
      → Connects a
  unfolding connect_loop
  loop_origin zero attempt (t, e, r) = cc
  loop_origin (suc fuel) attempt {a} (t, e, r) = elim (ending (initiate attempt)) [
    | with_ok b h ↦ (attempt, ground arith)
    | with_panic h ↦ absurd (ground arith)
    | with_err x h ↦ elim (ending (add_u32 {E = Error} p attempt 1)) [
      | with_err y g ↦ absurd (ground arith)
      | with_panic g ↦ absurd (ground arith)
      | with_ok next g ↦
          elim (Option-cases (connect_loop is_client_error p max_retries m initiate fuel next)) [
            | inl out ↦ absurd (ground arith)
            | inr (later, f) ↦ loop_origin fuel next (later, f, ground arith)
          ]
    ]
  ]

  -- Whatever `connect` returns is what one of the attempts returned.
  pub connect-origin :
      {t : Trace A} {a : A}
      → connect is_client_error p max_retries m initiate ≡ some t
      → t.result ≡ ok a
      → (k : ℕ) × (initiate k ≡ ok a)
  unfolding connect
  connect-origin {t} h r = loop_origin (suc max_retries) 0 (t, h, r)
