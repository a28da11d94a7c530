-- ===== src/Retry/Tests.antt =====
-- retry: runs, and the theorems at concrete operations.
use fries.Prelude.{ℕ, zero, suc, ◌≡◌, refl, Option, none, some, List, [], ◌∷◌}
use fries.Prelude.Words.{lt64, mul64, sub64, nonpos64}
use fries.Retry.Delays.{Random, returns, doubled, exponential_delay, exponential}
use fries.Retry.Errors.{
  Error, plain, after_error, inspect_error, is_permanent, find_after, strip, is_canceled,
  is_deadline_exceeded,
}
use fries.Retry.{
  World, Run, RetryOption, with_max_attempts, new_config, default_config, default_retry_if, apply,
  apply_all, wait, schedule, failed, attempted, attempts_from, do_value,
}
use fries.Retry.Do.{Ran, do_value_lem}
use fries.Retry.Cancellation.{Bounded, do_value-Bounded}

program : Unit {0}
unfolding doubled exponential_delay exponential lt64 mul64 sub64 nonpos64 inspect_error is_permanent
    find_after strip is_canceled is_deadline_exceeded default_retry_if apply apply_all
    default_config new_config wait schedule failed attempted attempts_from do_value
program = tt

-- An operation that counts its runs and succeeds in the third one.
flaky : ℕ → ℕ × ℕ × Option Error
flaky zero = (1, 0, some (plain "down"))
flaky (suc zero) = (2, 0, some (after_error 5 (plain "busy")))
flaky (suc (suc n)) = (suc (suc (suc n)), 7, none)

abbrev dice : Random
dice n bound = 0

abbrev silent : ℕ → Option Error
silent n = none

abbrev start : World ℕ
start = record { host = 0; context = silent; random = dice; events = []; waits = [] }

flaky_run :
    do_value 0 (some flaky) [] start
    ≡ returns (
        some (record {
          world = record {
            host = 3;
            context = silent;
            random = dice;
            events = [];
            waits = 100_000_000 ∷ 5 ∷ [];
          };
          result = 7;
          error = none;
        }))
unfolding program flaky
flaky_run = refl

abbrev two : List RetryOption
two = with_max_attempts 2 ∷ []

exhausted_run :
    (do_value 0 (some flaky) two start)
    ≡ returns (
        some (record {
          world = record {
            host = 2;
            context = silent;
            random = dice;
            events = [];
            waits = 100_000_000 ∷ [];
          };
          result = 0;
          error = some (plain "busy");
        }))
unfolding program flaky
exhausted_run = refl

do_value_lem_example :
    (o : Option (Run ℕ ℕ)) × (do_value 0 (some flaky) two start ≡ returns o)
    × Ran (new_config two) flaky (new_config two).max_attempts 0 0 o
do_value_lem_example = do_value_lem 0 flaky two start (λ k. refl)

do_value-Bounded_example :
    (o : Option (Run ℕ ℕ)) × (do_value 0 (some flaky) two start ≡ returns o)
    × Bounded (new_config two) flaky (new_config two).max_attempts 0 o
do_value-Bounded_example = do_value-Bounded 0 flaky two start
