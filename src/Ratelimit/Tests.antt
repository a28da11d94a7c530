-- ===== src/Ratelimit/Tests.antt =====
-- ratelimit and ratelimit/memory: runs, and the theorems at concrete requests.
use fries.Prelude.{
  ℕ, ap, ◌+◌, ◌-◌, ◌≤◌, ◌≡◌, refl, ◌≢◌, true, false, none, some, List, [], ◌∷◌, String, arith,
  string_discrete, differ, lookup, insert, delete, Option,
}
use fries.Prelude.Words.{add64, sub64, mul64, lt64, nonpos64}
use fries.Ratelimit.{
  Limit, Decision, TakeRequest, ok, live, per_second, validate_limit, divide_round_up,
}
use fries.Ratelimit.Limits.{IsUsable}
use fries.Ratelimit.Limiter.{Limiter, new_limiter, allow_n}
use fries.Ratelimit.Limiter.OverMemory.{memory_at, Allows, allow_n_lem, allow_n_decides}
use fries.Ratelimit.Memory.{
  Store, new_store, push, remove, fix, expire, cleanup, emission_interval, remaining, microseconds,
  arrival, write, take_at, reset_at,
}
use fries.Ratelimit.Memory.Invariant.{new_store-IsValid}
use fries.Ratelimit.Memory.Exact.{IsRecent, charge}
use fries.Ratelimit.Memory.Level.{Takes, take_at-Takes}
use fries.Ratelimit.Memory.Window.{Call, granted, granted_window}

program : Unit {0}
unfolding add64 sub64 mul64 lt64 nonpos64 divide_round_up push remove fix expire cleanup
    emission_interval remaining microseconds arrival write take_at reset_at new_store lookup insert
    delete string_discrete granted
program = tt

-- Five units a second: one each 200 milliseconds.
abbrev five : Limit
five = record { rate = 5; period = 1_000_000_000; burst = 5 }

abbrev ask : ℕ → TakeRequest
ask cost = record { key = "a"; limit = five; cost = cost }

abbrev noon : ℕ
noon = 1_700_000_000_000_000

per_second_run : per_second 5 ≡ five
unfolding per_second
per_second_run = refl

five-IsUsable : IsUsable five
unfolding divide_round_up
five-IsUsable = omega arith

new_store-IsRecent : IsRecent noon new_store
unfolding program
new_store-IsRecent k t e = cc

-- A burst of five, and then no more for 200 milliseconds.
burst_run : (take_at new_store noon (ask 5)).1.allowed ≡ true
unfolding program
burst_run = refl

drained : Store
drained = (take_at new_store noon (ask 5)).0

refused_run : (take_at drained noon (ask 2)).1 ≡ record {
  limit = five;
  allowed = false;
  remaining = 0;
  retry_after = 400_000_000;
  reset_after = 1_000_000_000;
}
unfolding program drained
refused_run = refl

first-Takes : Takes new_store noon (ask 5) drained (take_at new_store noon (ask 5)).1
unfolding drained
first-Takes =
    take_at-Takes new_store noon (ask 5) new_store-IsValid (omega arith) new_store-IsRecent
      five-IsUsable (omega arith)

take_at-Takes_example :
    Takes drained noon (ask 2) (take_at drained noon (ask 2)).0 (take_at drained noon (ask 2)).1
take_at-Takes_example =
    take_at-Takes drained noon (ask 2) first-Takes.valid (omega arith) first-Takes.recent
      five-IsUsable (omega arith)

refused : (take_at drained noon (ask 2)).1.allowed ≡ false
refused = ap (λ d. d.allowed) refused_run

abbrev calls : List Call
calls =
    record { time = noon; key = "a"; cost = 5 }
    ∷ record { time = noon; key = "b"; cost = 1 }
    ∷ record { time = noon + 100_000; key = "a"; cost = 1 }
    ∷ record { time = noon + 500_000; key = "a"; cost = 2 }
    ∷ []

granted_run : granted five "a" new_store calls ≡ 7
unfolding program
granted_run = refl

granted_window_example :
    charge five (granted five "a" new_store calls) ≤ (noon + 500_000 - noon) + charge five 5
granted_window_example =
    granted_window five "a" new_store noon (noon + 500_000) calls five-IsUsable new_store-IsValid
      new_store-IsRecent (omega arith) (omega arith)

abbrev limiter : Limiter Store
limiter = record { store = memory_at noon; limit = five }

made : new_limiter (some (memory_at noon)) five ≡ ok limiter
unfolding new_limiter validate_limit lt64
made = refl

abbrev silent : ℕ → Option String
silent k = none

allow_n_lem_example :
    Allows new_store noon five "a" 2 (allow_n limiter new_store (live silent) "a" 2)
allow_n_lem_example =
    allow_n_lem limiter new_store noon five "a" 2 (live silent) made (omega arith) (omega arith)
      (omega arith) new_store-IsValid (omega arith) new_store-IsRecent (omega arith)

named : ◌≢◌ {A = String} "a" ""
unfolding string_discrete
named = differ (string_discrete "a" "") tt

allow_n_decides_example :
    (d : Decision) × ((allow_n limiter new_store (live silent) "a" 2).1 ≡ ok d)
allow_n_decides_example =
    allow_n_decides limiter new_store noon five "a" 2 silent made (omega arith) (omega arith)
      (omega arith) new_store-IsValid (omega arith) new_store-IsRecent (omega arith) (λ _. refl)
      named (omega arith) (omega arith)
