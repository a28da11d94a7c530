-- ===== src/Idempotency/Replay.antt =====
-- `DoValue` of idempotency/value.go over the store of idempotency/memory/store.go.
use fries.Prelude.{ℕ, ◌≢◌, Option, some, List, String}
use fries.Idempotency.{Error}
use fries.Idempotency.Memory.{Store, begin_at, complete_at}
use fries.Idempotency.Memory.Claims.{Call, run}
use fries.Idempotency.Executor.{
  Outcome, Config, ExecuteConfig, ExecuteOption, new_execute_config, Claim,
}
use fries.Idempotency.Executor.OverMemory.{caller, executor, begin_request, complete_request}
use fries.Idempotency.Value.{Codec, ValueResult, execute_value}

-- The store after a DoValue has completed its key with the bytes.
abbrev pub stored : ExecuteConfig → String → String → List ℕ → ℕ → ℕ → List Call → Store → Store
stored x key token bytes start stop cs s =
    (complete_at (run (begin_at s start (begin_request x key token)).0 cs) stop
      (complete_request x key token bytes)).0

module _ {H T : Type 0} (codec : Codec T) (zero_value : T) (config : Config)
    (options : List ExecuteOption) (key token : String) (f : H → H × T × Option Error) (h : H)
    (s : Store) (start stop : ℕ) (cs : List Call) (named : key ≢ "") where
  abbrev x : ExecuteConfig
  x = new_execute_config config options

  abbrev outcome : Outcome ((Store × H) × ValueResult T × Option Error)
  outcome =
      execute_value codec zero_value (some (executor config start stop)) (caller token cs) key
        (some f) options (s, h)

  abbrev claim_of : Claim
  claim_of = record { key = key; token = token; result_ttl = x.result_ttl }
