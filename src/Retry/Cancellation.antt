-- ===== src/Retry/Cancellation.antt =====
-- `DoValue` of retry/retry.go on a context that may be canceled at any moment.
use fries.Prelude.{
  ℕ, zero, suc, ◌+◌, ◌-◌, ◌≤◌, ◌<◌, ◌≡◌, refl, ◌≢◌, ◌∙◌, subst, inl, inr, ◌||◌, not, Option, none,
  some, List, arith, ◌==◌, Bool-cases, Option-cases,
}
use fries.Retry.Delays.{returns}
use fries.Retry.Errors.{Error, ErrorInfo, inspect_error}
use fries.Retry.{
  Config, World, Run, Operation, RetryOption, stop, wait, schedule, failed, attempted,
  attempts_from, do_value, new_config, default_config, asked,
}
use fries.Retry.Do.{after_runs, new_config_attempts}

-- The call returns after at most `limit` runs of the operation.
abbrev pub Bounded : {H T : Type 0} → Config → Operation H T → ℕ → H → Option (Run H T) → Type 0
Bounded c op limit h o =
    (r : Run _ _) × (n : ℕ) × (o ≡ some r) × (n ≤ limit) × (r.world.host ≡ after_runs c op n h)

module _ {H T : Type 0} (c : Config) (op : Operation H T) where
  stopped :
      (limit n : ℕ) (h : H) (w : World H) (v : T) (e : Option Error)
      → n ≤ limit
      → w.host ≡ after_runs c op n h
      → Bounded c op limit h (stop w v e)
  stopped limit n h w v e l host = (_, n, refl, l, host)

  one_run : (h : H) → (op h).0 ≡ after_runs c op 1 h
  unfolding after_runs
  one_run h = refl

  module _ (fuel attempt : ℕ) (h : H) (next : T → World H → Option (Run H T))
      (later : (v : T) (w' : World H)
        → attempt ≢ c.max_attempts
        → w'.host ≡ (op h).0
        → Bounded c op (suc fuel) h (next v w')) where
    schedule-Bounded :
        (info : ErrorInfo) (v : T) (w : World H)
        → attempt ≢ c.max_attempts
        → w.host ≡ (op h).0
        → Bounded c op (suc fuel) h (schedule c attempt info v w next)
    unfolding schedule wait
    schedule-Bounded info v w goes host = elim (Option-cases (w.context 0)) [
      | inl f ↦ rw (f, schedule, wait) (later v _ goes host)
      | inr (e, f) ↦
          rw (f, schedule, wait)
            (stopped (suc fuel) 1 h _ v (some e) (omega arith) (host ∙ one_run h))
    ]

    failed-Bounded :
        (info : ErrorInfo) (v : T) (w : World H)
        → w.host ≡ (op h).0
        → Bounded c op (suc fuel) h (failed c attempt info v w next)
    unfolding failed
    failed-Bounded info v w host = elim (Bool-cases info.permanent) [
      | inl p ↦ rw (p, failed) (stopped (suc fuel) 1 h w v _ (omega arith) (host ∙ one_run h))
      | inr p ↦ elim (Bool-cases ((attempt == c.max_attempts) || not (c.retry_if info.cause))) [
        | inl q ↦
            rw (p, failed)
              (rw (q, failed) (stopped (suc fuel) 1 h w v _ (omega arith) (host ∙ one_run h)))
        | inr q ↦ rw (p, failed) (rw (q, failed) (schedule-Bounded info v w (ground arith) host))
      ]
    ]

    attempted-Bounded :
        (v : T) (o : Option Error) (w : World H)
        → w.host ≡ (op h).0
        → Bounded c op (suc fuel) h (attempted c attempt (v, o) w next)
    unfolding attempted
    attempted-Bounded v none w host =
        stopped (suc fuel) 1 h w v none (omega arith) (host ∙ one_run h)
    attempted-Bounded v (some e) w host = elim (Option-cases (w.context 0)) [
      | inl f ↦ rw (f, attempted) (failed-Bounded (inspect_error e) v _ host)
      | inr (x, f) ↦
          rw (f, attempted) (stopped (suc fuel) 1 h _ v (some x) (omega arith) (host ∙ one_run h))
    ]

  one_later :
      (limit : ℕ) (h : H) (o : Option (Run H T))
      → Bounded c op limit (op h).0 o
      → Bounded c op (suc limit) h o
  unfolding after_runs
  one_later limit h o (r, n, e, l, host) = (r, suc n, e, omega arith, host)

  attempts_from-Bounded_step :
      (fuel attempt : ℕ) (result : T) (w : World H)
      → ((v : T) (w' : World H)
          → attempt ≢ c.max_attempts
          → w'.host ≡ (op w.host).0
          → Bounded c op (suc fuel) w.host (attempts_from c op fuel (suc attempt) v w'))
      → Bounded c op (suc fuel) w.host (attempts_from c op (suc fuel) attempt result w)
  unfolding attempts_from after_runs
  attempts_from-Bounded_step fuel attempt result w later = elim (Option-cases (w.context 0)) [
    | inr (x, f) ↦
        rw (f, attempts_from) (stopped (suc fuel) 0 w.host _ result (some x) (omega arith) refl)
    | inl f ↦
        rw (f, attempts_from)
          (attempted-Bounded fuel attempt w.host (attempts_from c op fuel (suc attempt)) later
            (op w.host).1 (op w.host).2 (record (asked w) { host = (op w.host).0 }) refl)
  ]

  attempts_from-Bounded :
      (fuel attempt : ℕ) (result : T) (w : World H)
      → attempt + fuel ≡ c.max_attempts
      → Bounded c op (suc fuel) w.host (attempts_from c op (suc fuel) attempt result w)
  attempts_from-Bounded zero attempt result w e =
      attempts_from-Bounded_step zero attempt result w
        (λ v w' n host. absurd (n (omega (arith, e))))
  attempts_from-Bounded (suc fuel) attempt result w e =
      attempts_from-Bounded_step (suc fuel) attempt result w λ v w' n host.
        one_later (suc fuel) w.host _ (
          subst (λ h. Bounded c op (suc fuel) h (attempts_from c op (suc fuel) (suc attempt) v w'))
            host (attempts_from-Bounded fuel (suc attempt) v w' (omega arith)))

-- Whenever the context is canceled, DoValue returns, and has run the operation no more often than the
-- configured attempts: the caller's state is the one after that many runs.
pub do_value-Bounded :
    {H T : Type 0} (zero_value : T) (op : Operation H T) (options : List RetryOption) (w : World H)
    → (o : Option (Run H T)) × (do_value zero_value (some op) options w ≡ returns o)
      × Bounded (new_config options) op (new_config options).max_attempts w.host o
unfolding do_value new_config default_config
do_value-Bounded zero_value op options w =
    let c = new_config options in
    let some_attempts : 0 < c.max_attempts =
      new_config_attempts options default_config (omega arith) in
    let exact : suc (c.max_attempts - 1) ≡ c.max_attempts = omega arith in
    (
      _,
      refl,
      subst (λ n. Bounded c op n w.host (attempts_from c op n 1 zero_value w)) exact
          (attempts_from-Bounded c op (c.max_attempts - 1) 1 zero_value w (omega arith)),
    )
