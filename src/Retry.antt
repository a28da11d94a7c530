-- ===== src/Retry.antt =====
-- retry/retry.go and retry/config.go: operations that are run again until they succeed.
--
-- An int or time.Duration is a 64-bit pattern (Prelude/Words), a duration in nanoseconds. The context
-- is never nil; it is what `ctx.Err()` answers each time that the program asks, by number: before an
-- attempt, after a failed one, and at the end of a wait, where an error stands for a cancellation
-- that comes before the timer. An operation acts on the caller's state `H`. The events of a run are
-- what the NotifyFunc is called with, and its waits the delays that timers are set to.
pub mod Delays
pub mod Errors
pub mod Do
pub mod Cancellation
mod Tests
use fries.Prelude.{
  ℕ, suc, zero, ◌*◌, Bool, true, false, not, ◌||◌, ◌&&◌, Option, none, some, List, [], ◌∷◌, ◌++◌,
  String, if◌then◌else◌, ◌==◌,
}
use fries.Prelude.Words.{nonpos64, lt64}
use fries.Retry.Delays.{Backoff, Random, Outcome, panics, returns, negative, exponential}
use fries.Retry.Errors.{Error, ErrorInfo, inspect_error, is_canceled, is_deadline_exceeded}

pub record Event : Type 0 where
  pub attempt : ℕ
  pub max_attempts : ℕ
  pub error : Error
  pub delay : ℕ

pub record Config : Type 0 where
  pub max_attempts : ℕ
  pub backoff : Backoff
  pub retry_if : Error → Bool
  pub notify : Bool

-- The options; `with_notify` says whether its function is not nil, and `absent` is a nil option.
pub data RetryOption : Type 0 where
  with_max_attempts : ℕ → RetryOption
  with_backoff : Option Backoff → RetryOption
  with_retry_if : Option (Error → Bool) → RetryOption
  with_notify : Bool → RetryOption
  absent : RetryOption

unfoldable pub apply : Config → RetryOption → Config
unfolding nonpos64
apply c (with_max_attempts attempts) =
    if nonpos64 attempts then c else record c { max_attempts = attempts }
apply c (with_backoff none) = c
apply c (with_backoff (some backoff)) = record c { backoff = backoff }
apply c (with_retry_if none) = c
apply c (with_retry_if (some predicate)) = record c { retry_if = predicate }
apply c (with_notify notify) = record c { notify = notify }
apply c absent = c

unfoldable pub apply_all : Config → List RetryOption → Config
unfolding apply
apply_all c [] = c
apply_all c (o ∷ os) = apply_all (apply c o) os

unfoldable pub default_retry_if : Error → Bool
unfolding is_canceled is_deadline_exceeded
default_retry_if e = not (is_canceled e) && not (is_deadline_exceeded e)

abbrev millisecond : ℕ
millisecond = 1_000_000

unfoldable pub default_config : Config
unfolding default_retry_if exponential
default_config = record {
  max_attempts = 3;
  backoff = exponential (100 * millisecond) (1_000 * millisecond);
  retry_if = default_retry_if;
  notify = false;
}

unfoldable pub new_config : List RetryOption → Config
unfolding apply_all default_config
new_config = apply_all default_config

-- What a call leaves behind.
pub record World (H : Type 0) : Type 0 where
  pub host : H
  pub context : ℕ → Option Error
  pub random : Random
  pub events : List Event
  pub waits : List ℕ

pub record Run (H T : Type 0) : Type 0 where
  pub world : World H
  pub result : T
  pub error : Option Error

abbrev pub Operation : Type 0 → Type 0 → Type 0
Operation H T = H → H × T × Option Error

-- `ctx.Err()` has been called once more.
abbrev pub asked : {H : Type 0} → World H → World H
asked w = record w { context = λ n. w.context (suc n) }

-- The delay before the next attempt.
abbrev pub choose_delay : ErrorInfo → ℕ → ℕ
choose_delay info delay =
    if info.override then info.override_delay else (if negative delay then 0 else delay)

module _ {H T : Type 0} where
  abbrev pub stop : World H → T → Option Error → Option (Run H T)
  stop w v e = some (record { world = w; result = v; error = e })

  -- `wait`: the answer of the context when the timer or the cancellation has come.
  unfoldable pub wait : World H → ℕ → T → (T → World H → Option (Run H T)) → Option (Run H T)
  wait w delay v next =
      let w' = asked (record w { waits = w.waits ++ (delay ∷ []) }) in
      elim (w.context 0) [ some e ↦ stop w' v (some e) | none ↦ next v w' ]

  -- The choice of the delay, the call of notify, and the wait.
  unfoldable pub schedule :
      Config → ℕ → ErrorInfo → T → World H → (T → World H → Option (Run H T)) → Option (Run H T)
  unfolding wait
  schedule c attempt info v w next =
      let (random, backed_off) = c.backoff w.random attempt in
      let delay = choose_delay info backed_off in
      let event : Event = record {
        attempt = attempt;
        max_attempts = c.max_attempts;
        error = info.cause;
        delay = delay;
      } in
      let events = if c.notify then w.events ++ (event ∷ []) else w.events in
      wait (record w { random = random; events = events }) delay v next

  -- After an attempt failed and the context gave no error.
  unfoldable pub failed :
      Config → ℕ → ErrorInfo → T → World H → (T → World H → Option (Run H T)) → Option (Run H T)
  unfolding schedule
  failed c attempt info v w next =
      if info.permanent
      then stop w v (some info.cause)
      else (if (attempt == c.max_attempts) || not (c.retry_if info.cause)
          then stop w v (some info.cause)
          else schedule c attempt info v w next)

  -- After an attempt.
  unfoldable pub attempted :
      Config → ℕ → T × Option Error → World H → (T → World H → Option (Run H T)) → Option (Run H T)
  unfolding failed
  attempted c attempt (v, none) w next = stop w v none
  attempted c attempt (v, some e) w next = elim (w.context 0) [
    | some e' ↦ stop (asked w) v (some e')
    | none ↦ failed c attempt (inspect_error e) v (asked w) next
  ]

  -- The loop from an attempt on. It is given fuel; `none` stands for fuel that ran out.
  unfoldable pub attempts_from : Config → Operation H T → ℕ → ℕ → T → World H → Option (Run H T)
  unfolding attempted
  attempts_from c operation zero attempt result w = none
  attempts_from c operation (suc fuel) attempt result w =
      let next : T → World H → Option (Run H T) = attempts_from c operation fuel (suc attempt) in
      elim (w.context 0) [
        | some e ↦ stop (asked w) result (some e)
        | none ↦
            let (h, v, o) = operation w.host in
            attempted c attempt (v, o) (record (asked w) { host = h }) next
      ]

  -- `DoValue`; `zero_value` is the zero value of T.
  unfoldable pub do_value :
      T → Option (Operation H T) → List RetryOption → World H → Outcome (Option (Run H T))
  unfolding attempts_from new_config
  do_value zero_value none options w = panics
  do_value zero_value (some operation) options w =
      let c = new_config options in
      returns (attempts_from c operation c.max_attempts 1 zero_value w)

-- `Do`: an operation without a value.
unfoldable pub do_operation :
    {H : Type 0}
    → Option (H → H × Option Error)
    → List RetryOption
    → World H
    → Outcome (Option (Run H (Unit {0})))
unfolding do_value
do_operation none options w = panics
do_operation (some operation) options w =
    do_value tt (some (λ h. ((operation h).0, tt, (operation h).1))) options w
