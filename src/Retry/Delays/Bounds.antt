-- ===== src/Retry/Delays/Bounds.antt =====
-- The values of the backoffs of retry/backoff.go, and their clamps.
use fries.Prelude.{
  ℕ, zero, suc, ◌+◌, ◌*◌, ◌^◌, ◌/◌, ◌-◌, ◌↔◌, ◌≤◌, ◌<◌, ◌≡◌, ◌∙◌, arith, min, ltb, if◌then◌else◌,
  ◌⊎◌, ap,
}
use fries.Prelude.Words.{
  half_word, max_int64, mul64, mul64-exact, sub64-exact, lt64-ltb, add64-exact, nonpos64-exact,
}
use fries.Ratelimit.Limits.{div_le}
use fries.Retry.Delays.{
  Random, Backoff, multiply_duration, linear_delay, doubled, exponential_delay, jittered,
}

-- The upper bound of Exponential: a maximum of zero disables it.
abbrev pub cap : ℕ → ℕ
cap maximum = if ltb 0 maximum then maximum else max_int64

pow_pos : (n : ℕ) → 0 < 2 ^ n
pow_pos zero = omega arith
pow_pos (suc n) = omega (arith, pow_pos n)

double : (n : ℕ) → 2 ^ suc n ≡ 2 * 2 ^ n
double n = omega arith

times_two : (a b : ℕ) → a * (2 * b) ≡ a * 2 * b
times_two a b = grind arith

times_pos : (a b : ℕ) → 0 < b → a ≤ a * b
times_pos a b h = grind arith

doubled_lem :
    (maximum n delay : ℕ)
    → maximum < half_word
    → delay < half_word
    → 0 < delay
    → doubled maximum n delay ≡ min (cap maximum) (delay * 2 ^ n)
unfolding doubled
doubled_lem maximum zero delay hm hd pos =
    rw (lt64-ltb 0 maximum (omega arith) hm, lt64-ltb maximum delay hm hd) (ground arith)
doubled_lem maximum (suc n) delay hm hd pos =
    let next : delay * 2 < half_word
        → doubled maximum n (mul64 delay 2) ≡ min (cap maximum) (delay * 2 * 2 ^ n) =
      λ h.
        rw (mul64-exact delay 2 (omega arith))
          (doubled_lem maximum n (delay * 2) hm h (omega arith)) in
    let e : delay * 2 ^ suc n ≡ delay * 2 * 2 ^ n =
      ap (λ x. delay * x) (double n) ∙ times_two delay (2 ^ n) in
    let big = times_pos (delay * 2) (2 ^ n) (pow_pos n) in
    rw
      (
        lt64-ltb 0 maximum (omega arith) hm,
        lt64-ltb delay maximum hd hm,
        lt64-ltb (max_int64 / 2) delay (omega arith) hd,
        e,
      )
      (ground (arith, next, big))

-- Exponential: the delay after the n-th failed attempt is initial * 2 ^ (n - 1), clamped to the
-- maximum, or to the largest duration where the maximum is zero; no step of it overflows. (The
-- arguments are ones that do not make Exponential panic, and n is from 1 to the largest int.)
pub exponential_delay_lem :
    (initial maximum n : ℕ)
    → initial < half_word
    → maximum < half_word
    → suc n < half_word
    → exponential_delay initial maximum (suc n) ≡ min (cap maximum) (initial * 2 ^ n)
unfolding exponential_delay
exponential_delay_lem initial maximum n hi hm hn =
    let loop : 0 < initial → doubled maximum n initial ≡ min (cap maximum) (initial * 2 ^ n) =
      λ h. doubled_lem maximum n initial hm hi h in
    rw (lt64-ltb (suc n) 1 hn (omega arith), sub64-exact (suc n) 1 (omega arith) (omega arith))
      (ground (arith, loop))

-- Linear: the delay after the n-th failed attempt is n times the delay, clamped to the largest
-- duration. (The delay is not negative, and n is from 1 to the largest int.)
pub linear_delay_lem :
    (delay n : ℕ)
    → delay < half_word
    → 1 ≤ n
    → n < half_word
    → linear_delay delay n ≡ min max_int64 (delay * n)
unfolding linear_delay multiply_duration
linear_delay_lem delay n hd low hn =
    let exact : delay * n ≤ max_int64 → mul64 delay n ≡ delay * n =
      λ h. mul64-exact delay n (omega arith) in
    let fits : 0 < delay → (n ≤ max_int64 / delay) ↔ (delay * n ≤ max_int64) =
      λ h. div_le n max_int64 delay h in
    rw (lt64-ltb n 1 hn (omega arith)) (ground (arith, exact, fits))

-- Jitter adds a random duration from zero through its maximum to a positive delay, clamped to the
-- largest duration, and leaves another delay as it is. (The backoff gives 64-bit delays, the maximum
-- is positive, and a draw is below its bound.)
pub jittered_lem :
    (backoff : Backoff) (maximum : ℕ) (r : Random) (attempt : ℕ)
    → maximum < half_word
    → (backoff r attempt).1 < half_word
    → (backoff r attempt).0 0 (maximum + 1) < maximum + 1
    → ((backoff r attempt).1 ≤ (jittered backoff maximum r attempt).1)
      × ((jittered backoff maximum r attempt).1 ≤ min max_int64 ((backoff r attempt).1 + maximum))
      × ((0 < (backoff r attempt).1) ⊎ ((jittered backoff maximum r attempt).1 ≡ 0))
unfolding jittered
jittered_lem backoff maximum r attempt hm hd hj =
    let delay = (backoff r attempt).1 in
    let draw = (backoff r attempt).0 0 (maximum + 1) in
    rw
      (
        nonpos64-exact delay hd,
        sub64-exact max_int64 draw (omega arith) (omega arith),
        lt64-ltb (max_int64 - draw) delay (omega arith) hd,
      )
      (ground (arith, add64-exact delay draw))
