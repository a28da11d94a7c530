-- ===== src/Idempotency/Executor/Once.antt =====
-- `Do` of idempotency/executor.go runs a handler once.
use fries.Prelude.{List}
use fries.Idempotency.Executor.{
  ConfigOption, new_config, ExecuteOption, ExecuteConfig, new_execute_config,
}

abbrev pub config_of : List ConfigOption → List ExecuteOption → ExecuteConfig
config_of os xs = new_execute_config (new_config os) xs
