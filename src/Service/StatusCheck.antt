-- ===== src/Service/StatusCheck.antt =====
-- src/tasks/service/status_check.rs: the retries of a status check.
pub mod Laws
use fpd.Base.{ℕ, String, Option, none, some, Outcome, ok, ◌>>=◌, unwrap, ltb, if◌then◌else◌}
use fpd.Base.Int.{ℤ, pos, pred, is_nonpositive}

-- `f32` and the conversions of `Duration`s, in nanoseconds: `from_secs_f32` is `none` where the
-- code's call panics, out of range.
pub record Floats : Type 1 where
  pub F32 : Type 0
  pub one : F32
  pub one_and_a_half : F32
  pub add : F32 → F32 → F32
  pub sub : F32 → F32 → F32
  pub mul : F32 → F32 → F32
  pub div : F32 → F32 → F32
  pub ln : F32 → F32
  pub floor : F32 → F32
  pub to_isize : F32 → ℤ
  pub as_secs_f32 : ℕ → F32
  pub from_secs_f32 : F32 → Option ℕ

pub record DataSourceCheckTask (F : Floats) : Type 0 where
  pub name : String
  pub retries_left : ℤ
  pub delay_till_next : ℕ
  pub backoff_factor : F.F32

module _ (F : Floats) where
  open F use {F32, one, add, sub, mul, div, ln, floor, to_isize, as_secs_f32, from_secs_f32}

  -- log_b(1 + (b - 1) * total / initial), rounded down, less one
  abbrev pub series_length : ℕ → ℕ → F32 → ℤ
  series_length total_checks_duration initial_delay backoff_factor = to_isize (
      sub
        (floor (
          div
            (ln (
              add one (
                div (mul (sub backoff_factor one) (as_secs_f32 total_checks_duration))
                  (as_secs_f32 initial_delay))))
            (ln backoff_factor)))
        one)

  unfoldable pub new : String → ℕ → ℕ → F32 → DataSourceCheckTask F
  new name total_checks_duration initial_delay backoff_factor = record {
    name = name;
    retries_left =
        if ltb total_checks_duration initial_delay
        then pos 0
        else series_length total_checks_duration initial_delay backoff_factor;
    delay_till_next = initial_delay;
    backoff_factor = backoff_factor;
  }

  -- The delay and the task after it, if a retry is left. The call panics where the next delay is
  -- out of range.
  unfoldable pub next {ℓ} :
      {E : Type ℓ} → DataSourceCheckTask F → Outcome E (Option (ℕ × DataSourceCheckTask F))
  next task = if is_nonpositive task.retries_left then ok none else do
    delay ← unwrap (from_secs_f32 (mul (as_secs_f32 task.delay_till_next) task.backoff_factor))
    ok (
        some (
          task.delay_till_next,
          record task { retries_left = pred task.retries_left; delay_till_next = delay },
        ))
