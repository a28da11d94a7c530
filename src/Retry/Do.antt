-- ===== src/Retry/Do.antt =====
-- The loop of `DoValue`, retry/retry.go, against a description of which attempt it stops at.
use fries.Prelude.{
  ℕ, zero, suc, ◌+◌, ◌-◌, ◌<◌, ◌≡◌, refl, ap, ◌≢◌, ◌∙◌, subst, sym, ◌∙◌, subst, sym, ◌⊎◌, inl, inr,
  true, false, ◌||◌, not, Option, none, some, List, [], ◌∷◌, ◌++◌, arith, length, length-append,
  ◌==◌, Bool-cases, Option-cases,
}
use fries.Prelude.Words.{nonpos64-false}
use fries.Retry.Delays.{returns}
use fries.Retry.Errors.{Error, strip, is_permanent, find_after, inspect_error, ErrorInfo}
use fries.Retry.{
  Config, World, Run, Operation, RetryOption, with_max_attempts, with_backoff, with_retry_if,
  with_notify, absent, apply, apply_all, default_config, new_config, do_value, asked, wait,
  schedule, failed, attempted, attempts_from,
}

module _ {H T : Type 0} (c : Config) (op : Operation H T) where
  -- The caller's state after n runs.
  unfoldable pub after_runs : ℕ → H → H
  after_runs zero h = h
  after_runs (suc n) h = after_runs n (op h).0

  -- An attempt with this error is followed by another.
  abbrev pub Retried : Option Error → Type 0
  Retried none = ⊥
  Retried (some e) = (is_permanent e ≡ false) × (c.retry_if (strip e) ≡ true)

  -- It is not, whichever attempt it is.
  abbrev pub Stops : Option Error → Type 0
  Stops none = Unit
  Stops (some e) = (is_permanent e ≡ true) ⊎ (c.retry_if (strip e) ≡ false)

  -- The first n attempts are.
  unfoldable pub AllRetried : ℕ → H → Type 0
  AllRetried zero h = Unit
  AllRetried (suc n) h = Retried (op h).2 × AllRetried n (op h).0

-- The error that is returned for an attempt: the one below the markers.
abbrev pub stripped : Option Error → Option Error
stripped none = none
stripped (some e) = some (strip e)

-- What a run leaves behind whose context reports no error, from the caller's state h on, with at most
-- `limit` attempts left and after the number of waits.
pub record Ran {H T : Type 0} (c : Config) (op : Operation H T) (limit : ℕ) (h : H) (waits : ℕ)
    (o : Option (Run H T)) : Type 0 where
  -- The attempts before the last one.
  pub count : ℕ
  pub world : World H
  pub bounded : count < limit
  pub retried : AllRetried c op count h
  pub last : Stops c op (op (after_runs c op count h)).2 ⊎ (suc count ≡ limit)
  pub answer :
      o
      ≡ some (record {
        world = world;
        result = (op (after_runs c op count h)).1;
        error = stripped (op (after_runs c op count h)).2;
      })
  pub host : world.host ≡ (op (after_runs c op count h)).0
  pub waited : length world.waits ≡ waits + count

one_more : (waits : List ℕ) (d : ℕ) → length (waits ++ (d ∷ [])) ≡ suc (length waits)
one_more waits d = omega (arith, length-append waits (d ∷ []))

inspect_error_lem :
    (x : Error)
    → ((inspect_error x).permanent ≡ is_permanent x) × ((inspect_error x).cause ≡ strip x)
unfolding inspect_error
inspect_error_lem x = elim (Option-cases (find_after x)) [
  | inl f ↦ rw f (refl, refl)
  | inr (d, f) ↦ rw f (refl, refl)
]

module _ {H T : Type 0} (c : Config) (op : Operation H T) where
  ends_here :
      (fuel : ℕ) (h : H) (w : World H) (error : Option Error)
      → Stops c op (op h).2 ⊎ (fuel ≡ 0)
      → error ≡ stripped (op h).2
      → w.host ≡ (op h).0
      → Ran c op
          (suc fuel)
          h
          (length w.waits)
          (some (record { world = w; result = (op h).1; error = error }))
  unfolding after_runs AllRetried
  ends_here fuel h w error last e host = record {
    count = 0;
    world = w;
    bounded = omega arith;
    retried = tt;
    last = ground (arith, last);
    answer = rw e refl;
    host = host;
    waited = omega arith;
  }

  goes_on :
      (fuel : ℕ) (h : H) (n m : ℕ) (o : Option (Run H T))
      → Retried c op (op h).2
      → m ≡ suc n
      → Ran c op fuel (op h).0 m o
      → Ran c op (suc fuel) h n o
  unfolding after_runs AllRetried
  goes_on fuel h n m o here e r = record {
    count = suc r.count;
    world = r.world;
    bounded = omega (arith, r.bounded);
    retried = (here, r.retried);
    last = ground (arith, r.last);
    answer = r.answer;
    host = r.host;
    waited = omega (arith, r.waited);
  }

  schedule_lem :
      (fuel attempt : ℕ) (h : H) (info : ErrorInfo) (v : T) (w : World H)
      (next : T → World H → Option (Run H T))
      → Retried c op (op h).2
      → w.context 0 ≡ none
      → ((w' : World H)
          → w'.host ≡ w.host
          → w'.context ≡ (asked w).context
          → length w'.waits ≡ suc (length w.waits)
          → Ran c op fuel (op h).0 (length w'.waits) (next v w'))
      → Ran c op (suc fuel) h (length w.waits) (schedule c attempt info v w next)
  unfolding schedule wait
  schedule_lem fuel attempt h info v w next again quiet later =
      rw (quiet, schedule, wait)
        (goes_on fuel h _ _ _ again (one_more w.waits _) (later _ refl refl (one_more w.waits _)))

  failed_lem :
      (fuel attempt : ℕ) (h : H) (x : Error) (info : ErrorInfo) (w : World H)
      (next : T → World H → Option (Run H T))
      → (op h).2 ≡ some x
      → info.permanent ≡ is_permanent x
      → info.cause ≡ strip x
      → w.host ≡ (op h).0
      → (attempt ≡ c.max_attempts → fuel ≡ 0)
      → w.context 0 ≡ none
      → ((w' : World H)
          → attempt ≢ c.max_attempts
          → w'.host ≡ w.host
          → w'.context ≡ (asked w).context
          → length w'.waits ≡ suc (length w.waits)
          → Ran c op fuel (op h).0 (length w'.waits) (next (op h).1 w'))
      → Ran c op (suc fuel) h (length w.waits) (failed c attempt info (op h).1 w next)
  unfolding failed
  failed_lem fuel attempt h x info w next f permanent cause host at_max quiet later =
      elim (Bool-cases info.permanent) [
        | inl p ↦
            rw (p, failed)
              (ends_here fuel h w (some info.cause) (rw f (inl (inl (sym permanent ∙ p))))
                (rw (f, cause) refl) host)
        | inr p ↦ elim (Bool-cases ((attempt == c.max_attempts) || not (c.retry_if info.cause))) [
          | inl q ↦
              rw (p, failed)
                (rw (q, failed)
                  (ends_here fuel h w (some info.cause)
                    (rw f (ground (arith, at_max, ap c.retry_if cause))) (rw (f, cause) refl) host))
          | inr q ↦
              rw (p, failed)
                (rw (q, failed)
                  (schedule_lem fuel attempt h info (op h).1 w next
                    (rw f (ground (arith, permanent, p, ap c.retry_if cause))) quiet
                    (λ w'. later w' (ground arith))))
        ]
      ]

  attempt_lem :
      (fuel attempt : ℕ) (result : T) (w : World H)
      → (attempt ≡ c.max_attempts → fuel ≡ 0)
      → ((k : ℕ) → w.context k ≡ none)
      → ((w' : World H)
          → attempt ≢ c.max_attempts
          → w'.host ≡ (op w.host).0
          → w'.context ≡ (λ k. w.context (suc (suc (suc k))))
          → length w'.waits ≡ suc (length w.waits)
          → Ran c op fuel
              (op w.host).0
              (length w'.waits)
              (attempts_from c op fuel (suc attempt) (op w.host).1 w'))
      → Ran c op (suc fuel) w.host (length w.waits) (attempts_from c op (suc fuel) attempt result w)
  unfolding attempts_from attempted
  attempt_lem fuel attempt result w at_max quiet later =
      rw (quiet 0, attempts_from)
        (elim (Option-cases (op w.host).2) [
          | inl f ↦
              rw (f, attempted) (ends_here fuel w.host _ none (rw f (inl tt)) (rw f refl) refl)
          | inr (x, f) ↦
              let info = inspect_error_lem x in
              rw (f, attempted)
                (rw (quiet 1, attempted)
                  (failed_lem fuel attempt w.host x (inspect_error x) _
                    (attempts_from c op fuel (suc attempt)) f info.0 info.1 refl at_max (quiet 2)
                    later))
        ])

  attempts_lem :
      (fuel attempt : ℕ) (result : T) (w : World H)
      → attempt + fuel ≡ c.max_attempts
      → ((k : ℕ) → w.context k ≡ none)
      → Ran c op (suc fuel) w.host (length w.waits) (attempts_from c op (suc fuel) attempt result w)
  attempts_lem zero attempt result w e quiet =
      attempt_lem zero attempt result w (λ _. refl) quiet
        (λ w' n _ _ _. absurd (n (omega (arith, e))))
  attempts_lem (suc fuel) attempt result w e quiet =
      attempt_lem (suc fuel) attempt result w (λ p. omega (arith, e)) quiet
        λ w' n host context waits.
          subst
            (λ h.
              Ran c op (suc fuel) h (length w'.waits)
                (attempts_from c op (suc fuel) (suc attempt) (op w.host).1 w'))
            host
            (attempts_lem fuel (suc attempt) (op w.host).1 w' (omega arith)
              (λ k. rw context (quiet (suc (suc (suc k))))))

pub new_config_attempts :
    (os : List RetryOption) (c : Config) → 0 < c.max_attempts → 0 < (apply_all c os).max_attempts
unfolding apply_all apply
new_config_attempts [] c h = h
new_config_attempts (with_max_attempts n ∷ os) c h =
    new_config_attempts os (apply c (with_max_attempts n)) (ground (arith, nonpos64-false n))
new_config_attempts (with_backoff none ∷ os) c h = new_config_attempts os c h
new_config_attempts (with_backoff (some b) ∷ os) c h = new_config_attempts os _ h
new_config_attempts (with_retry_if none ∷ os) c h = new_config_attempts os c h
new_config_attempts (with_retry_if (some b) ∷ os) c h = new_config_attempts os _ h
new_config_attempts (with_notify b ∷ os) c h = new_config_attempts os _ h
new_config_attempts (absent ∷ os) c h = new_config_attempts os c h

-- DoValue, on a context that reports no error and with any options, returns. It runs the operation
-- once more than `count`, never more often than the configured attempts: each of the first `count`
-- runs fails with an error that is not marked permanent and that the predicate accepts, and the last
-- one succeeds, fails otherwise, or is the last configured attempt. The result is that of the last
-- run with its error below the markers, and there is one wait for each run before it.
pub do_value_lem :
    {H T : Type 0} (zero_value : T) (op : Operation H T) (options : List RetryOption) (w : World H)
    → ((k : ℕ) → w.context k ≡ none)
    → (o : Option (Run H T)) × (do_value zero_value (some op) options w ≡ returns o)
      × Ran (new_config options) op (new_config options).max_attempts w.host (length w.waits) o
unfolding do_value new_config default_config
do_value_lem zero_value op options w quiet =
    let c = new_config options in
    let some_attempts : 0 < c.max_attempts =
      new_config_attempts options default_config (omega arith) in
    let exact : suc (c.max_attempts - 1) ≡ c.max_attempts = omega arith in
    (
      _,
      refl,
      subst (λ n. Ran c op n w.host (length w.waits) (attempts_from c op n 1 zero_value w)) exact
          (attempts_lem c op (c.max_attempts - 1) 1 zero_value w (omega arith) quiet),
    )
