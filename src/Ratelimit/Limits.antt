-- ===== src/Ratelimit/Limits.antt =====
-- Which limits `validateLimit` of ratelimit/limit.go accepts.
use fries.Prelude.{ℕ, ◌+◌, ◌*◌, ◌/◌, ◌≤◌, ◌<◌, ◌≡◌, ◌↔◌, none, arith}
use fries.Prelude.Words.{word, half_word, max_int64, mul64, nonpos64_iff, mul64-exact}
use fries.Ratelimit.{Limit, microsecond, divide_round_up, validate_limit}

-- The interval between two units, in microseconds, as `emissionInterval` computes it.
abbrev pub interval_of : Limit → ℕ
interval_of limit = divide_round_up (divide_round_up limit.period limit.rate) microsecond

pub record IsUsable (limit : Limit) : Type 0 where
  pub rate_pos : 0 < limit.rate
  pub period_pos : 0 < limit.period
  pub burst_pos : 0 < limit.burst
  pub period_small : limit.period < half_word
  pub burst_small : limit.burst < half_word
  pub spaced : limit.rate * microsecond ≤ limit.period
  pub fits : interval_of limit * limit.burst * microsecond ≤ max_int64

-- Rounding up: the least number of divisors that covers the value.
pub divide_round_up_lem :
    (v d : ℕ) → 0 < d → (v ≤ divide_round_up v d * d) × (divide_round_up v d * d < v + d)
unfolding divide_round_up
divide_round_up_lem v d h = (grind arith, grind arith)

pub div_le : (a m i : ℕ) → 0 < i → (a ≤ m / i) ↔ (i * a ≤ m)
div_le a m i h = (grind arith, grind arith)

interval_pos : (limit : Limit) → 0 < limit.rate → 0 < limit.period → 0 < interval_of limit
interval_pos limit h k =
    let inner = divide_round_up_lem limit.period limit.rate h in
    let outer =
      divide_round_up_lem (divide_round_up limit.period limit.rate) microsecond (omega arith) in
    let nanos : 0 < divide_round_up limit.period limit.rate = grind arith in omega arith

accepted-IsUsable :
    (limit : Limit)
    → limit.rate < word
    → limit.period < word
    → limit.burst < word
    → validate_limit limit ≡ none
    → IsUsable limit
unfolding validate_limit
accepted-IsUsable limit hr hp hb e =
    let i = interval_of limit in
    let r = nonpos64_iff limit.rate hr in
    let p = nonpos64_iff limit.period hp in
    let b = nonpos64_iff limit.burst hb in
    let pos : 0 < limit.rate → 0 < limit.period → 0 < i = interval_pos limit in
    let d = div_le limit.burst max_int64 i in
    let x : i * limit.burst ≤ max_int64 → mul64 i limit.burst ≡ i * limit.burst =
      λ h. mul64-exact i limit.burst (omega arith) in
    record {
      rate_pos = ground (arith, r);
      period_pos = ground (arith, p);
      burst_pos = ground (arith, b);
      period_small = ground (arith, p);
      burst_small = ground (arith, b);
      spaced = ground arith;
      fits = ground (arith, r, p, b, pos, d, x);
    }

usable_accepted :
    (limit : Limit)
    → limit.rate < word
    → limit.period < word
    → limit.burst < word
    → IsUsable limit
    → validate_limit limit ≡ none
unfolding validate_limit
usable_accepted limit hr hp hb u =
    let i = interval_of limit in
    let pos : 0 < i = interval_pos limit u.rate_pos u.period_pos in
    let x = mul64-exact i limit.burst (omega (arith, u.fits)) in
    ground (
      arith,
      nonpos64_iff limit.rate hr,
      nonpos64_iff limit.period hp,
      nonpos64_iff limit.burst hb,
      u.fits,
      div_le limit.burst max_int64 i pos,
      x,
    )

-- validateLimit accepts a limit exactly if its three fields are positive 64-bit integers, there is a
-- microsecond at least for each unit, and the time in which the full burst is replenished, at the
-- rounded interval, fits a time.Duration in nanoseconds.
pub validate_limit_iff :
    (limit : Limit)
    → limit.rate < word
    → limit.period < word
    → limit.burst < word
    → (validate_limit limit ≡ none) ↔ IsUsable limit
validate_limit_iff limit hr hp hb =
    (accepted-IsUsable limit hr hp hb, usable_accepted limit hr hp hb)

pub mul_mono : (a b c : ℕ) → a ≤ b → a * c ≤ b * c
mul_mono a b c h = grind arith

-- At the interval of an accepted limit no more than Rate units are replenished in a Period.
pub interval_covers :
    (limit : Limit) → IsUsable limit → limit.period ≤ interval_of limit * microsecond * limit.rate
interval_covers limit u =
    let nanos = divide_round_up limit.period limit.rate in
    let inner = (divide_round_up_lem limit.period limit.rate u.rate_pos).0 in
    let outer = (divide_round_up_lem nanos microsecond (omega arith)).0 in
    omega (arith, mul_mono nanos (interval_of limit * microsecond) limit.rate outer)

pub interval_of_pos : (limit : Limit) → IsUsable limit → 0 < interval_of limit
interval_of_pos limit u = interval_pos limit u.rate_pos u.period_pos
