-- ===== src/Retry/Delays.antt =====
-- retry/backoff.go: the delays between attempts.
--
-- The random source answers each draw, by number and bound. A backoff is a function of the source and
-- the attempt, and hands the rest of the source back. A constructor panics on a bad delay.
pub mod Bounds
use fries.Prelude.{
  ℕ, zero, suc, ◌+◌, ◌/◌, Bool, true, false, ◌&&◌, ◌||◌, Option, none, some, if◌then◌else◌, ltb,
  leb, ◌==◌, not,
}
use fries.Prelude.Words.{half_word, max_int64, add64, sub64, mul64, lt64, nonpos64}

pub data Outcome {ℓ} (A : Type ℓ) : Type ℓ where
  panics : Outcome A
  returns : A → Outcome A

abbrev pub Random : Type 0
Random = ℕ → ℕ → ℕ

abbrev pub Backoff : Type 0
Backoff = Random → ℕ → Random × ℕ

-- A backoff that draws nothing.
abbrev pub steady : (ℕ → ℕ) → Backoff
steady f r attempt = (r, f attempt)

-- The test of validateDelay.
abbrev pub negative : ℕ → Bool
negative delay = lt64 delay 0

unfoldable pub no_backoff : Backoff
no_backoff = steady (λ attempt. 0)

unfoldable pub fixed : ℕ → Outcome Backoff
fixed delay = if negative delay then panics else returns (steady (λ attempt. delay))

unfoldable pub multiply_duration : ℕ → ℕ → ℕ
multiply_duration delay multiplier =
    if ltb (max_int64 / delay) multiplier then max_int64 else mul64 delay multiplier

unfoldable pub linear_delay : ℕ → ℕ → ℕ
unfolding multiply_duration
linear_delay delay attempt =
    if lt64 attempt 1 || (delay == 0) then 0 else multiply_duration delay attempt

unfoldable pub linear : ℕ → Outcome Backoff
unfolding linear_delay
linear delay = if negative delay then panics else returns (steady (linear_delay delay))

-- The loop over `attempt - 1`, and the last test.
unfoldable pub doubled : ℕ → ℕ → ℕ → ℕ
doubled maximum zero delay = if lt64 0 maximum && lt64 maximum delay then maximum else delay
doubled maximum (suc n) delay =
    let rest = doubled maximum n (mul64 delay 2) in
    if lt64 0 maximum && not (lt64 delay maximum)
    then maximum
    else (if lt64 (max_int64 / 2) delay
        then (if lt64 0 maximum then maximum else max_int64)
        else rest)

unfoldable pub exponential_delay : ℕ → ℕ → ℕ → ℕ
unfolding doubled
exponential_delay initial maximum attempt =
    if lt64 attempt 1 || (initial == 0) then 0 else doubled maximum (sub64 attempt 1) initial

unfoldable pub exponential : ℕ → ℕ → Backoff
unfolding exponential_delay
exponential initial maximum = steady (exponential_delay initial maximum)

unfoldable pub new_exponential : ℕ → ℕ → Outcome Backoff
unfolding exponential
new_exponential initial maximum =
    if negative initial || negative maximum
    then panics
    else (if lt64 0 maximum && lt64 maximum initial
        then panics
        else returns (exponential initial maximum))

-- The function that Jitter returns for a positive maximum.
unfoldable pub jittered : Backoff → ℕ → Backoff
jittered backoff maximum r attempt =
    let (r', delay) = backoff r attempt in
    let jitter = r' 0 (maximum + 1) in
    if nonpos64 delay then (r', delay) else (
      λ n. r' (suc n),
      if lt64 (sub64 max_int64 jitter) delay then max_int64 else add64 delay jitter,
    )

abbrev or_none : Option Backoff → Backoff
or_none none = no_backoff
or_none (some b) = b

unfoldable pub jitter : Option Backoff → ℕ → Outcome Backoff
unfolding jittered
jitter backoff maximum =
    if negative maximum
    then panics
    else (if maximum == 0
        then returns (or_none backoff)
        else returns (jittered (or_none backoff) maximum))
