-- ===== src/Ratelimit/Memory/Exact.antt =====
-- `Take` of ratelimit/memory/store.go in exact arithmetic: for a usable limit, a cost within the
-- burst and a clock below 2 ^ 62 microseconds no 64-bit operation wraps.
use native.Mathlib.Nat.{zero-div}
use fries.Prelude.{
  inl, inr, Option-cases, Bool-cases, leb→le, ℕ, ◌+◌, ◌-◌, ◌*◌, ◌/◌, ◌^◌, ◌≤◌, ◌<◌, ◌≡◌, refl, max,
  true, false, Option, none, some, String, arith, leb, ltb, if◌then◌else◌,
}
use fries.Prelude.Words.{
  half_word, max_int64, sub64, add64-exact, sub64-exact, mul64-exact, lt64-ltb, nonpos64-exact,
  nonpos64_iff, sub64-lt, sub64_negative,
}
use fries.Ratelimit.{Limit, Decision, TakeRequest, microsecond}
use fries.Ratelimit.Limits.{IsUsable, interval_of}
use fries.Ratelimit.Memory.{
  Store, cleanup, emission_interval, remaining, microseconds, arrival, write, take_at,
}
use fries.Ratelimit.Memory.Invariant.{IsValid, find, kept, cleanup_lem}

-- The clock readings of the model.
abbrev pub InRange : ℕ → Type 0
InRange now = now < 2 ^ 62

-- The arrival time from which a key's next request is charged.
abbrev pub base : ℕ → Option ℕ → ℕ
base now none = now
base now (some tat) = max now tat

pub base-ge : (now : ℕ) (o : Option ℕ) → now ≤ base now o
base-ge now none = omega arith
base-ge now (some t) = omega arith

-- The time that a cost takes, and that a full burst takes.
abbrev pub charge : Limit → ℕ → ℕ
charge limit n = interval_of limit * n

remaining_exact :
    (now tat interval offset : ℕ)
    → now + offset < half_word
    → tat < half_word
    → remaining now tat interval offset ≡ (now + offset - tat) / interval
unfolding remaining
remaining_exact now tat interval offset h l =
    let sum = add64-exact now offset (omega arith) in
    let left = now + offset - tat in
    elim (Bool-cases (leb tat (now + offset))) [
      | inl g ↦
          let d = sub64-exact (now + offset) tat (omega arith) (leb→le tat (now + offset) g) in
          rw (sum, d, nonpos64-exact left (omega arith)) (ground (arith, zero-div interval))
      | inr g ↦
          let n = nonpos64_iff (sub64 (now + offset) tat) (sub64-lt (now + offset) tat) in
          let neg : half_word ≤ sub64 (now + offset) tat =
            sub64_negative (now + offset) tat h l (ground arith) in
          rw sum (ground (arith, n, zero-div interval))
    ]

microseconds_exact : (v : ℕ) → v * microsecond < half_word → microseconds v ≡ v * microsecond
unfolding microseconds
microseconds_exact v h =
    ground (arith, nonpos64-exact v (omega arith), mul64-exact v microsecond (omega arith))

interval_exact : (limit : Limit) → emission_interval limit ≡ interval_of limit
unfolding emission_interval
interval_exact limit = refl

arrival_exact :
    (now : ℕ) (o : Option ℕ)
    → now < half_word
    → ((t : ℕ) → o ≡ some t → t < half_word)
    → arrival now (kept now o) ≡ base now o
unfolding arrival
arrival_exact now none h k = refl
arrival_exact now (some t) h k = ground (arith, lt64-ltb now t h (k t refl))

pub charge_mono : (limit : Limit) (a b : ℕ) → a ≤ b → charge limit a ≤ charge limit b
charge_mono limit a b h = grind arith

-- No record is further ahead than the longest burst: so it is as long as the clock does not go back.
abbrev pub IsRecent : ℕ → Store → Type 0
IsRecent now s =
    (k : String) (t : ℕ) → find k s.records ≡ some t → t ≤ now + max_int64 / microsecond

-- The decisions in exact arithmetic, `b` the arrival time that the request meets.
abbrev pub rejection : Limit → ℕ → ℕ → ℕ → Decision
rejection limit now b cost = record {
  limit = limit;
  allowed = false;
  remaining = (now + charge limit limit.burst - b) / interval_of limit;
  retry_after = (b + charge limit cost - charge limit limit.burst - now) * microsecond;
  reset_after = (b - now) * microsecond;
}

abbrev pub acceptance : Limit → ℕ → ℕ → ℕ → Decision
acceptance limit now b cost = record {
  limit = limit;
  allowed = true;
  remaining = (now + charge limit limit.burst - (b + charge limit cost)) / interval_of limit;
  retry_after = 0;
  reset_after = (b + charge limit cost - now) * microsecond;
}

module _ (s : Store) (now : ℕ) (request : TakeRequest) (v : IsValid s) (n : InRange now)
    (r : IsRecent now s) (u : IsUsable request.limit)
    (hc : request.cost ≤ request.limit.burst) where
  open request use {limit, cost, key}

  burst_small : charge limit limit.burst * microsecond ≤ max_int64
  burst_small = u.fits

  abbrev met : ℕ
  met = base now (find key s.records)

  met_recent : met ≤ now + max_int64 / microsecond
  met_recent = elim (Option-cases (find key s.records)) [
    | inl e ↦ rw e (omega arith)
    | inr (t, e) ↦ rw e (omega (arith, r key t e))
  ]

  arrival-exact : arrival now (find key (cleanup s now).records) ≡ met
  arrival-exact =
      rw ((cleanup_lem s now (omega arith) v).1 key)
        (arrival_exact now (find key s.records) (omega arith) (λ t e. omega (arith, r key t e)))

  pub take_at_exact : take_at s now request ≡ (
      if ltb (now + charge limit limit.burst) (met + charge limit cost)
      then (cleanup s now, rejection limit now met cost)
      else (
        write (cleanup s now) key (met + charge limit cost) (find key (cleanup s now).records),
        acceptance limit now met cost,
      ))
  unfolding take_at
  take_at_exact =
      let offset = charge limit limit.burst in
      let c = charge limit cost in
      let less : c ≤ offset = charge_mono limit cost limit.burst hc in
      let o = mul64-exact (interval_of limit) limit.burst (omega arith) in
      let i = mul64-exact (interval_of limit) cost (omega arith) in
      let sum = add64-exact met c (omega (arith, met_recent)) in
      let end = add64-exact now offset (omega arith) in
      let test = lt64-ltb (now + offset) (met + c) (omega arith) (omega (arith, met_recent)) in
      let later : now ≤ met = base-ge now (find key s.records) in
      let away = sub64-exact met now (omega (arith, met_recent)) later in
      let away' = sub64-exact (met + c) now (omega (arith, met_recent)) (omega arith) in
      let back = sub64-exact (met + c) offset (omega (arith, met_recent)) in
      let wait = sub64-exact (met + c - offset) now (omega (arith, met_recent)) in
      rw (interval_exact limit, o, i, arrival-exact, sum, end, test, away, away')
        (ground (
          arith,
          remaining_exact now met (interval_of limit) offset (omega arith)
              (omega (arith, met_recent)),
          remaining_exact now (met + c) (interval_of limit) offset (omega arith)
              (omega (arith, met_recent)),
          back,
          wait,
          microseconds_exact (met - now) (omega (arith, met_recent)),
          microseconds_exact (met + c - now),
          microseconds_exact (met + c - offset - now) (omega (arith, met_recent)),
        ))
