-- ===== src/Service/StatusCheck/Laws.antt =====
-- How many retries a status check makes, and after which delays.
use fpd.Base.{
  ℕ, zero, suc, ◌≤◌, ◌<◌, ◌≡◌, refl, lt→ltb, ◌≢◌, arith, Option, none, some, List, [], ◌∷◌, String,
  Outcome, ok, err, panicked, ◌>>=◌,
}
use fpd.Base.Int.{ℤ, pos, negsuc, pos_part}
use fpd.Service.StatusCheck.{Floats, DataSourceCheckTask, new, next}

module _ (F : Floats) where
  open F use {F32, mul, as_secs_f32, from_secs_f32}

  -- The delays of a task that keeps failing: its own, and those of the tasks that follow it. `err`
  -- is no fuel left.
  unfoldable pub delays : ℕ → DataSourceCheckTask F → Outcome (Unit {0}) (List ℕ)
  delays zero task = err tt
  delays (suc fuel) task = do
    following ← next F task
    elim following [
      | none ↦ ok []
      | some (delay, rest) ↦ do later ← delays fuel rest; ok (delay ∷ later)
    ]

  -- The first delay is `delay`, and each is the one before it, times the factor.
  abbrev pub Grows : F32 → ℕ → List ℕ → Type 0
  Grows factor delay [] = Unit
  Grows factor delay (d ∷ rest) =
      (d ≡ delay)
      × (following : ℕ) × (from_secs_f32 (mul (as_secs_f32 delay) factor) ≡ some following)
      × Grows factor following rest

  -- What one task contributes.
  data Round (fuel : ℕ) (task : DataSourceCheckTask F) (result : Outcome (Unit {0}) (List ℕ))
      : Type 0 where
    stops : pos_part task.retries_left ≡ 0 → result ≡ ok [] → Round fuel task result
    panics : result ≡ panicked → Round fuel task result
    goes_on :
        (left following : ℕ)
        → task.retries_left ≡ pos (suc left)
        → from_secs_f32 (mul (as_secs_f32 task.delay_till_next) task.backoff_factor)
          ≡ some following
        → result ≡ (do
          later ← delays fuel (record task { retries_left = pos left; delay_till_next = following })
          ok (task.delay_till_next ∷ later))
        → Round fuel task result

  Round-by :
      (fuel : ℕ) (task : DataSourceCheckTask F) (r : ℤ) (o : Option ℕ)
      → task.retries_left ≡ r
      → from_secs_f32 (mul (as_secs_f32 task.delay_till_next) task.backoff_factor) ≡ o
      → Round fuel task (delays (suc fuel) task)
  unfolding delays next
  Round-by fuel task (pos zero) o e f = stops (ground arith) (ground arith)
  Round-by fuel task (negsuc n) o e f = stops (ground arith) (ground arith)
  Round-by fuel task (pos (suc n)) none e f = panics (ground arith)
  Round-by fuel task (pos (suc n)) (some d) e f = goes_on n d e f (ground arith)

  round : (fuel : ℕ) (task : DataSourceCheckTask F) → Round fuel task (delays (suc fuel) task)
  round fuel task = Round-by fuel task task.retries_left _ refl refl

  -- One round of fuel for each retry that a task has, and one more, is enough for its delays.
  pub delays_fuel :
      (n : ℕ) (task : DataSourceCheckTask F)
      → pos_part task.retries_left ≤ n
      → delays (suc n) task ≢ err tt
  delays_fuel zero task h e = elim (round zero task) [
    | stops z r ↦ ground arith
    | panics r ↦ ground arith
    | goes_on left following l f r ↦ ground arith
  ]
  delays_fuel (suc n) task h e = elim (round (suc n) task) [
    | stops z r ↦ ground arith
    | panics r ↦ ground arith
    | goes_on left following l f r ↦
        let rest = record task { retries_left = pos left; delay_till_next = following } in
        delays_fuel n rest (ground arith) (ground arith)
  ]

  -- A new task whose first delay is longer than the whole time of the checks has no retry.
  pub delays-new :
      (name : String) (total initial fuel : ℕ) (factor : F32)
      → total < initial
      → delays (suc fuel) (new F name total initial factor) ≡ ok []
  unfolding delays next new
  delays-new name total initial fuel factor h = rw (lt→ltb _ _ h)
