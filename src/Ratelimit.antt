-- ===== src/Ratelimit.antt =====
-- ratelimit/limit.go, ratelimit/store.go and ratelimit/errors.go: limits, decisions and errors.
--
-- An int or int64 is a 64-bit pattern (Prelude/Words); a time.Duration is one in nanoseconds. The
-- text of an error of `validateLimit` is the check that failed.
pub mod Limits
pub mod Limiter
pub mod Memory
mod Tests
use fries.Prelude.{
  ℕ, ◌+◌, ◌-◌, ◌*◌, ◌/◌, ◌%◌, ◌^◌, Bool, true, false, not, ◌&&◌, ◌||◌, Option, none, some, ltb, leb,
  ◌==◌, if◌then◌else◌, String,
}
pub use fries.Prelude.Context.{Context, nil, live}
use fries.Prelude.Words.{max_int64, mul64, nonpos64}

pub record Limit : Type 0 where
  pub rate : ℕ
  pub period : ℕ
  pub burst : ℕ

pub record Decision : Type 0 where
  pub limit : Limit
  pub allowed : Bool
  pub remaining : ℕ
  pub retry_after : ℕ
  pub reset_after : ℕ

pub record TakeRequest : Type 0 where
  pub key : String
  pub limit : Limit
  pub cost : ℕ

pub data Fault : Type 0 where
  rate_not_positive period_not_positive burst_not_positive interval_too_short burst_overflows :
      Fault

-- `canceled` is a cause that a context reports; `taking` and `resetting` wrap a store's error.
pub data Error : Type 0 where
  invalid_context invalid_key invalid_cost nil_store : Error
  invalid_limit : Fault → Error
  canceled : String → Error
  taking : String → Error → Error
  resetting : String → Error → Error

pub data Result {ℓ} (A : Type ℓ) : Type ℓ where
  ok : A → Result A
  err : Error → Result A

infixl 5 ◌>>=◌
abbrev pub ◌>>=◌ {ℓ κ} : {A : Type ℓ} {B : Type κ} → Result A → (A → Result B) → Result B
ok a >>= f = f a
err e >>= f = err e

-- The error that the context reports when it is asked for the n-th time.
abbrev pub cause : Context → ℕ → Option Error
cause nil n = none
cause (live causes) n = elim (causes n) [ none ↦ none | some e ↦ some (canceled e) ]

-- `validateContext`, the same in the limiter and in the store; it asks for the n-th time.
unfoldable pub validate_context : Context → ℕ → Option Error
validate_context nil n = some invalid_context
validate_context (live causes) n = cause (live causes) n

-- time.Microsecond, in nanoseconds.
abbrev pub microsecond : ℕ
microsecond = 1000

abbrev pub second : ℕ
second = 1_000_000_000

unfoldable pub per_second : ℕ → Limit
per_second rate = record { rate = rate; period = second; burst = rate }

unfoldable pub per_minute : ℕ → Limit
per_minute rate = record { rate = rate; period = 60 * second; burst = rate }

unfoldable pub per_hour : ℕ → Limit
per_hour rate = record { rate = rate; period = 3600 * second; burst = rate }

-- Its arguments are positive where it is called.
unfoldable pub divide_round_up : ℕ → ℕ → ℕ
divide_round_up value divisor =
    if value % divisor == 0 then value / divisor else value / divisor + 1

unfoldable pub validate_limit : Limit → Option Error
unfolding nonpos64 mul64 divide_round_up
validate_limit limit =
    let interval_nanos = divide_round_up limit.period limit.rate in
    let interval = divide_round_up interval_nanos microsecond in
    if nonpos64 limit.rate
    then some (invalid_limit rate_not_positive)
    else if nonpos64 limit.period
    then some (invalid_limit period_not_positive)
    else if nonpos64 limit.burst
    then some (invalid_limit burst_not_positive)
    else if ltb (limit.period / microsecond) limit.rate
    then some (invalid_limit interval_too_short)
    else if ltb (max_int64 / interval) limit.burst
        || ltb (max_int64 / microsecond) (mul64 interval limit.burst)
    then some (invalid_limit burst_overflows)
    else none
