-- ===== src/Ratelimit/Limiter/OverMemory.antt =====
-- A Limiter of ratelimit/limiter.go over the store of ratelimit/memory/store.go.
use fries.Prelude.{
  ℕ, ◌<◌, ◌≤◌, ◌≡◌, refl, ◌≢◌, false, inl, inr, Option, none, some, String, arith, Option-cases,
  Bool-cases, if_pos, if_neg, ◌||◌, string_discrete,
}
use fries.Prelude.Context.{asked}
use fries.Prelude.Words.{word, half_word, lt64}
use fries.Ratelimit.{
  TakeRequest, Limit, Decision, Error, Result, ok, err, Context, live, validate_context,
  validate_limit, cause,
}
use fries.Ratelimit.Limits.{IsUsable, validate_limit_iff}
use fries.Ratelimit.Limiter.{StoreOps, Limiter, answer, new_limiter, allow_n}
use fries.Ratelimit.Memory.{Store, take, take_at, reset}
use fries.Ratelimit.Memory.Invariant.{IsValid}
use fries.Ratelimit.Memory.Exact.{InRange, IsRecent}
use fries.Ratelimit.Memory.Level.{Takes, take_at-Takes}

-- The memory store, whose clock reads `now` during the call.
abbrev pub memory_at : ℕ → StoreOps Store
memory_at now = record {
  take = λ s ctx request. take s ctx now request;
  reset = λ s ctx key. reset s ctx now key;
}

-- Either the call failed and left the store as it was, or it made the decision of Take.
pub data Allows (s : Store) (now : ℕ) (limit : Limit) (key : String) (cost : ℕ)
    : Store × Result Decision → Type 0 where
  failed : (e : Error) → Allows s now limit key cost (s, err e)
  decided :
      {s' : Store} {d : Decision}
      → d.limit ≡ limit
      → Takes s now (record { key = key; limit = limit; cost = cost }) s' d
      → Allows s now limit key cost (s', ok d)

new_limiter_ok :
    {S : Type 0} (store : StoreOps S) (limit : Limit) {l : Limiter S}
    → new_limiter (some store) limit ≡ ok l
    → (validate_limit limit ≡ none) × (l ≡ record { store = store; limit = limit })
unfolding new_limiter
new_limiter_ok store limit e = ground arith

-- The limiter's test of the cost, on an int that is any 64-bit pattern.
cost_in_burst :
    (cost burst : ℕ)
    → cost < word
    → burst < half_word
    → lt64 cost 1 || lt64 burst cost ≡ false
    → (1 ≤ cost) × (cost ≤ burst)
unfolding lt64
cost_in_burst cost burst h k e = (ground arith, ground arith)

cost_passes :
    (cost burst : ℕ)
    → burst < half_word
    → 1 ≤ cost
    → cost ≤ burst
    → lt64 cost 1 || lt64 burst cost ≡ false
unfolding lt64
cost_passes cost burst k l h = ground arith

relabel :
    {s s' : Store} {now cost : ℕ} {key : String} {limit : Limit} {d : Decision}
    → Takes s now (record { key = key; limit = limit; cost = cost }) s' d
    → Allows s now limit key cost (s', ok (record d { limit = limit }))
relabel t = decided refl (record {
  decided = t.decided;
  charged = t.charged;
  waits = t.waits;
  left = t.left;
  resets = t.resets;
  valid = t.valid;
  recent = t.recent;
})

module _ (s : Store) (now : ℕ) (limit : Limit) (key : String) (cost : ℕ) (v : IsValid s)
    (n : InRange now) (r : IsRecent now s) (u : IsUsable limit) (hw : cost < word) where
  abbrev limiter : Limiter Store
  limiter = record { store = memory_at now; limit = limit }

  taken : TakeRequest
  taken = record { key = key; limit = limit; cost = cost }

  answered :
      1 ≤ cost
      → cost ≤ limit.burst
      → (ctx : Context) → Allows s now limit key cost (answer limiter key (take s ctx now taken))
  unfolding take answer taken
  answered low high ctx = elim (Option-cases (validate_context ctx 0)) [
    | inr (e, bad) ↦ rw (bad, take) (failed _)
    | inl fine ↦ elim (Option-cases (cause ctx 1)) [
      | inr (e, bad) ↦ rw (fine, take) (rw (bad, take) (failed _))
      | inl quiet ↦
          rw (fine, take) (rw (quiet, take) (relabel (take_at-Takes s now taken v n r u high)))
    ]
  ]

  allow_n-Allows : (ctx : Context) → Allows s now limit key cost (allow_n limiter s ctx key cost)
  unfolding allow_n taken
  allow_n-Allows ctx = elim (Option-cases (validate_context ctx 0)) [
    | inr (e, bad) ↦ rw (bad, allow_n) (failed e)
    | inl fine ↦ elim (string_discrete key "") [
      | yes p ↦ rw (fine, allow_n) (rw (if_pos _ p) (failed _))
      | no p ↦ elim (Bool-cases (lt64 cost 1 || lt64 limit.burst cost)) [
        | inl out ↦ rw (fine, allow_n) (rw (if_neg _ p, out) (failed _))
        | inr within ↦
            let (low, high) = cost_in_burst cost limit.burst hw u.burst_small within in
            rw (fine, allow_n) (rw (if_neg _ p, within) (answered low high (asked ctx)))
      ]
    ]
  ]

  allow_n_runs :
      (causes : ℕ → Option String)
      → ((k : ℕ) → causes k ≡ none)
      → key ≢ ""
      → 1 ≤ cost
      → cost ≤ limit.burst
      → (d : Decision) × ((allow_n limiter s (live causes) key cost).1 ≡ ok d)
  unfolding allow_n take taken answer validate_context
  allow_n_runs causes quiet p low high =
      let d : Decision = record (take_at s now taken).1 { limit = limit } in
      let passes = cost_passes cost limit.burst u.burst_small low high in
      (d, ground (arith, quiet 0, quiet 1, quiet 2, passes))

-- A call of AllowN on a limiter that New made over the memory store, for any context, key and 64-bit
-- cost, either fails and leaves the store as it was, or makes the decision of Take under the
-- limiter's limit. (The store is valid and its clock has not gone back.)
pub allow_n_lem :
    (l : Limiter Store) (s : Store) (now : ℕ) (limit : Limit) (key : String) (cost : ℕ)
    (ctx : Context)
    → new_limiter (some (memory_at now)) limit ≡ ok l
    → limit.rate < word
    → limit.period < word
    → limit.burst < word
    → IsValid s
    → InRange now
    → IsRecent now s
    → cost < word
    → Allows s now limit key cost (allow_n l s ctx key cost)
allow_n_lem l s now limit key cost ctx e hr hp hb v n r hw =
    let (passed, made) = new_limiter_ok (memory_at now) limit e in
    let u = (validate_limit_iff limit hr hp hb).0 passed in
    rw made (allow_n-Allows s now limit key cost v n r u hw ctx)

-- AllowN on a limiter that New made over the memory store does decide if the context reports no
-- cause, the key is not empty and the cost is from 1 to the burst. (Under the same conditions.)
pub allow_n_decides :
    (l : Limiter Store) (s : Store) (now : ℕ) (limit : Limit) (key : String) (cost : ℕ)
    (causes : ℕ → Option String)
    → new_limiter (some (memory_at now)) limit ≡ ok l
    → limit.rate < word
    → limit.period < word
    → limit.burst < word
    → IsValid s
    → InRange now
    → IsRecent now s
    → cost < word
    → ((k : ℕ) → causes k ≡ none)
    → key ≢ ""
    → 1 ≤ cost
    → cost ≤ limit.burst
    → (d : Decision) × ((allow_n l s (live causes) key cost).1 ≡ ok d)
allow_n_decides l s now limit key cost causes e hr hp hb v n r hw =
    let (passed, made) = new_limiter_ok (memory_at now) limit e in
    let u = (validate_limit_iff limit hr hp hb).0 passed in
    rw made (allow_n_runs s now limit key cost v n r u hw causes)
