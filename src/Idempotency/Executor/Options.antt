-- ===== src/Idempotency/Executor/Options.antt =====
-- The options of idempotency/config.go: a duration that is not positive leaves the default.
use fries.Prelude.{◌<◌, List, [], ◌∷◌, arith}
use fries.Prelude.Words.{nonpos64-false}
use fries.Idempotency.Executor.{
  Config, ConfigOption, ExecuteConfig, ExecuteOption, apply, apply_all, new_config, apply_execute,
  apply_execute_all, new_execute_config,
}

abbrev pub IsPositive : Config → Type 0
IsPositive c = (0 < c.execution_ttl) × (0 < c.result_ttl) × (0 < c.finalization_timeout)

abbrev pub IsPositiveExecute : ExecuteConfig → Type 0
IsPositiveExecute c = (0 < c.execution_ttl) × (0 < c.result_ttl)

apply-IsPositive : (c : Config) (o : ConfigOption) → IsPositive c → IsPositive (apply c o)
unfolding apply
apply-IsPositive c (ConfigOption.with_finalization_timeout t) h = ground (arith, nonpos64-false t)
apply-IsPositive c (ConfigOption.with_execution_ttl t) h = ground (arith, nonpos64-false t)
apply-IsPositive c (ConfigOption.with_result_ttl t) h = ground (arith, nonpos64-false t)
apply-IsPositive c ConfigOption.absent h = h

apply_all-IsPositive :
    (c : Config) (os : List ConfigOption) → IsPositive c → IsPositive (apply_all c os)
unfolding apply_all
apply_all-IsPositive c [] h = h
apply_all-IsPositive c (o ∷ os) h = apply_all-IsPositive (apply c o) os (apply-IsPositive c o h)

apply_execute-IsPositive :
    (c : ExecuteConfig) (o : ExecuteOption)
    → IsPositiveExecute c
    → IsPositiveExecute (apply_execute c o)
unfolding apply_execute
apply_execute-IsPositive c (ExecuteOption.with_execution_ttl t) h = ground (arith, nonpos64-false t)
apply_execute-IsPositive c (ExecuteOption.with_result_ttl t) h = ground (arith, nonpos64-false t)
apply_execute-IsPositive c (ExecuteOption.with_fingerprint t) h = h
apply_execute-IsPositive c ExecuteOption.absent h = h

apply_execute_all-IsPositive :
    (c : ExecuteConfig) (os : List ExecuteOption)
    → IsPositiveExecute c
    → IsPositiveExecute (apply_execute_all c os)
unfolding apply_execute_all
apply_execute_all-IsPositive c [] h = h
apply_execute_all-IsPositive c (o ∷ os) h =
    apply_execute_all-IsPositive (apply_execute c o) os (apply_execute-IsPositive c o h)

pub new_config-IsPositive : (os : List ConfigOption) → IsPositive (new_config os)
unfolding new_config
new_config-IsPositive os = apply_all-IsPositive _ os (ground arith, ground arith, ground arith)

-- Whatever options New and a call are given, the times that the call claims its key and keeps its
-- result for are positive.
pub execute_config_positive :
    (os : List ConfigOption) (xs : List ExecuteOption)
    → IsPositiveExecute (new_execute_config (new_config os) xs)
unfolding new_execute_config
execute_config_positive os xs =
    let h = new_config-IsPositive os in apply_execute_all-IsPositive _ xs (h.0, h.1)
