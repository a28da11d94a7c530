-- ===== src/Idempotency/Value.antt =====
-- idempotency/value.go: handlers that return a value, which a completed key replays. The codec is a
-- parameter; decodeValue unmarshals into a fresh destination of the type.
use fries.Prelude.{ℕ, Bool, true, false, Option, none, some, List, String}
use fries.Idempotency.{Error, encode_error, decode_error, Result, ok, err}
use fries.Idempotency.Executor.{
  StoreOps, Outcome, panics, returns, ExecuteOption, Executor, Claim, Begun, claimed, replayed,
  Environment, validate_execution, complete_claim, abort_claim, join_errors, begin_claim,
  new_execute_config,
}

-- A codec, as far as DoValue uses it.
pub record Codec (T : Type 0) : Type 0 where
  pub marshal : T → Result (List ℕ)
  pub unmarshal : List ℕ → Result T

pub record ValueResult (T : Type 0) : Type 0 where
  pub value : T
  pub replayed : Bool

-- DoValue, for values of a type `T` with the zero value `zero`.
module _ {T : Type 0} (codec : Codec T) (zero_value : T) where
  abbrev pub nothing : ValueResult T
  nothing = record { value = zero_value; replayed = false }

  -- `decodeValue`, and the result of a replay.
  unfoldable pub replay_value : List ℕ → ValueResult T × Option Error
  replay_value bytes = elim (codec.unmarshal bytes) [
    | err e ↦ (record { value = zero_value; replayed = true }, some (decode_error e))
    | ok value ↦ (record { value = value; replayed = true }, none)
  ]

  module _ {S : Type 0} where
    unfoldable pub store_value : StoreOps S → Environment S → Claim → T → S → S × Option Error
    unfolding complete_claim
    store_value store env c value s = elim (codec.marshal value) [
      | err e ↦ (s, some (encode_error e))
      | ok bytes ↦ complete_claim store env c bytes s
    ]

    module _ {H : Type 0} where
      unfoldable pub finish_value :
          StoreOps S
          → Environment S
          → Claim
          → S
          → H × T × Option Error
          → (S × H) × ValueResult T × Option Error
      unfolding join_errors abort_claim store_value
      finish_value store env c s (h, value, some e) =
          let (s', e') = join_errors e (abort_claim store env c (env.during s)) in
          ((s', h), record { value = value; replayed = false }, some e')
      finish_value store env c s (h, value, none) =
          let (s', e) = store_value store env c value (env.during s) in
          ((s', h), record { value = value; replayed = false }, e)

      unfoldable pub run_begun_value :
          StoreOps S
          → Environment S
          → (H → H × T × Option Error)
          → H
          → S × Result Begun
          → (S × H) × ValueResult T × Option Error
      unfolding finish_value replay_value
      run_begun_value store env handler h (s, err e) = ((s, h), nothing, some e)
      run_begun_value store env handler h (s, ok (replayed bytes)) =
          let (result, e) = replay_value bytes in ((s, h), result, e)
      run_begun_value store env handler h (s, ok (claimed c)) =
          finish_value store env c s (handler h)

      unfoldable pub execute_value :
          Option (Executor S)
          → Environment S
          → String
          → Option (H → H × T × Option Error)
          → List ExecuteOption
          → S × H
          → Outcome ((S × H) × ValueResult T × Option Error)
      unfolding run_begun_value begin_claim new_execute_config
      execute_value none env key handler options (s, h) = panics
      execute_value (some e) env key handler options (s, h) =
          elim (validate_execution env.context key) [
            | some failure ↦ returns ((s, h), nothing, some failure)
            | none ↦ elim handler [
              | none ↦ panics
              | some f ↦ returns (
                  run_begun_value e.store env f h
                    (begin_claim e env key (new_execute_config e.config options) s))
            ]
          ]
