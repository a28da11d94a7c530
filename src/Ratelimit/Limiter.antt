-- ===== src/Ratelimit/Limiter.antt =====
-- ratelimit/limiter.go: one limit applied through a store.
pub mod OverMemory
use fries.Prelude.{
  ℕ, suc, ◌+◌, ◌||◌, ◌≡◌, Option, none, some, String, ite, if◌then◌else◌, string_discrete,
}
use fries.Prelude.Context.{asked}
use fries.Prelude.Words.{lt64}
use fries.Ratelimit.{
  Limit, Decision, TakeRequest, Error, invalid_key, invalid_cost, nil_store, taking, resetting,
  Result, ok, err, Context, nil, live, validate_context, validate_limit,
}

-- The interface Store. `S` is the store's state with its clock.
pub record StoreOps (S : Type 0) : Type 0 where
  pub take : S → Context → TakeRequest → S × Result Decision
  pub reset : S → Context → String → S × Option Error

pub record Limiter (S : Type 0) : Type 0 where
  pub store : StoreOps S
  pub limit : Limit

module _ {S : Type 0} where
  unfoldable pub new_limiter : Option (StoreOps S) → Limit → Result (Limiter S)
  new_limiter none limit = err nil_store
  new_limiter (some store) limit = elim (validate_limit limit) [
    | some e ↦ err e
    | none ↦ ok (record { store = store; limit = limit })
  ]

  -- The answer of the store, wrapped.
  unfoldable pub answer : Limiter S → String → S × Result Decision → S × Result Decision
  answer l key (s, err e) = (s, err (taking key e))
  answer l key (s, ok d) = (s, ok (record d { limit = l.limit }))

  unfoldable pub allow_n : Limiter S → S → Context → String → ℕ → S × Result Decision
  unfolding answer
  allow_n l s ctx key cost = elim (validate_context ctx 0) [
    | some e ↦ (s, err e)
    | none ↦
        ite (string_discrete key "") (s, err invalid_key)
          (if lt64 cost 1 || lt64 l.limit.burst cost
            then (s, err invalid_cost)
            else answer l key
                (l.store.take s (asked ctx) (record { key = key; limit = l.limit; cost = cost })))
  ]

  unfoldable pub allow : Limiter S → S → Context → String → S × Result Decision
  unfolding allow_n
  allow l s ctx key = allow_n l s ctx key 1

  reset_answer : String → S × Option Error → S × Option Error
  reset_answer key (s, none) = (s, none)
  reset_answer key (s, some e) = (s, some (resetting key e))

  unfoldable pub reset_key : Limiter S → S → Context → String → S × Option Error
  unfolding reset_answer
  reset_key l s ctx key = elim (validate_context ctx 0) [
    | some e ↦ (s, some e)
    | none ↦
        ite (string_discrete key "") (s, some invalid_key)
          (reset_answer key (l.store.reset s (asked ctx) key))
  ]
