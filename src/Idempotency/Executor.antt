-- ===== src/Idempotency/Executor.antt =====
-- idempotency/executor.go and idempotency/config.go: handlers guarded by a store of claims.
--
-- The store's state `S` and the handler's own state `H` are passed from step to step. The random
-- token (crypto/rand, as hexadecimal text) and what the contexts answer come from the environment: a
-- call asks its context once before and once after the store's Begin, and the finalization context
-- is never canceled by the caller.
pub mod OverMemory
pub mod Options
pub mod Once
use fries.Prelude.{
  ℕ, ◌*◌, suc, Bool, true, false, Option, none, some, List, [], ◌∷◌, String, ite, if◌then◌else◌,
  string_discrete,
}
use fries.Prelude.Words.{nonpos64}
use fries.Prelude.Context.{asked}
use fries.Idempotency.{
  BeginStatus, acquired, in_progress, completed, BeginRequest, BeginResult, CompleteRequest,
  AbortRequest, Error, invalid_context, invalid_key, key_in_progress, invalid_status, token_error,
  encode_error, decode_error, join, Result, ok, err, Context, nil, live, cause,
}

-- The interface Store.
pub record StoreOps (S : Type 0) : Type 0 where
  pub begin : S → Context → BeginRequest → S × Result BeginResult
  pub complete : S → Context → CompleteRequest → S × Option Error
  pub abort : S → Context → AbortRequest → S × Option Error

-- A nil store or handler makes the call panic.
pub data Outcome (A : Type 0) : Type 0 where
  panics : Outcome A
  returns : A → Outcome A

pub record Config : Type 0 where
  pub execution_ttl : ℕ
  pub result_ttl : ℕ
  pub finalization_timeout : ℕ

pub record ExecuteConfig : Type 0 where
  pub execution_ttl : ℕ
  pub result_ttl : ℕ
  pub fingerprint : String

-- The options of New and of a call, `absent` for a nil option. Their durations are 64-bit patterns.
pub data ConfigOption : Type 0 where
  with_finalization_timeout with_execution_ttl with_result_ttl : ℕ → ConfigOption
  absent : ConfigOption

pub data ExecuteOption : Type 0 where
  with_execution_ttl with_result_ttl : ℕ → ExecuteOption
  with_fingerprint : String → ExecuteOption
  absent : ExecuteOption

abbrev second : ℕ
second = 1_000_000_000

unfoldable pub apply : Config → ConfigOption → Config
unfolding nonpos64
apply c (ConfigOption.with_finalization_timeout timeout) =
    if nonpos64 timeout then c else record c { finalization_timeout = timeout }
apply c (ConfigOption.with_execution_ttl ttl) =
    if nonpos64 ttl then c else record c { execution_ttl = ttl }
apply c (ConfigOption.with_result_ttl ttl) =
    if nonpos64 ttl then c else record c { result_ttl = ttl }
apply c ConfigOption.absent = c

unfoldable pub apply_all : Config → List ConfigOption → Config
unfolding apply
apply_all c [] = c
apply_all c (o ∷ os) = apply_all (apply c o) os

unfoldable pub new_config : List ConfigOption → Config
unfolding apply_all
new_config = apply_all (record {
  execution_ttl = 30 * second;
  result_ttl = 86_400 * second;
  finalization_timeout = 5 * second;
})

unfoldable pub apply_execute : ExecuteConfig → ExecuteOption → ExecuteConfig
unfolding nonpos64
apply_execute c (ExecuteOption.with_execution_ttl ttl) =
    if nonpos64 ttl then c else record c { execution_ttl = ttl }
apply_execute c (ExecuteOption.with_result_ttl ttl) =
    if nonpos64 ttl then c else record c { result_ttl = ttl }
apply_execute c (ExecuteOption.with_fingerprint fingerprint) = record c {
  fingerprint = fingerprint;
}
apply_execute c ExecuteOption.absent = c

unfoldable pub apply_execute_all : ExecuteConfig → List ExecuteOption → ExecuteConfig
unfolding apply_execute
apply_execute_all c [] = c
apply_execute_all c (o ∷ os) = apply_execute_all (apply_execute c o) os

unfoldable pub new_execute_config : Config → List ExecuteOption → ExecuteConfig
unfolding apply_execute_all
new_execute_config c =
    apply_execute_all
      (record { execution_ttl = c.execution_ttl; result_ttl = c.result_ttl; fingerprint = "" })

pub record Executor (S : Type 0) : Type 0 where
  pub store : StoreOps S
  pub config : Config

unfoldable pub new_executor :
    {S : Type 0} → Option (StoreOps S) → List ConfigOption → Outcome (Executor S)
unfolding new_config
new_executor none options = panics
new_executor (some store) options = returns (record { store = store; config = new_config options })

pub record Claim : Type 0 where
  pub key : String
  pub token : String
  pub result_ttl : ℕ

-- `beginResult`: a claim, or the stored result of a completed key.
pub data Begun : Type 0 where
  claimed : Claim → Begun
  replayed : List ℕ → Begun

-- What the environment decides about one call.
pub record Environment (S : Type 0) : Type 0 where
  pub context : Context
  pub token : Result String
  pub finalization : ℕ → Option String
  -- What other callers do to the store while the handler runs.
  pub during : S → S

unfoldable pub validate_execution : Context → String → Option Error
validate_execution nil key = some invalid_context
validate_execution (live causes) key = ite (string_discrete key "") (some invalid_key) none

-- The switch on the status.
unfoldable pub begun_with : Claim → BeginResult → Result Begun
begun_with c result = elim result.status [
  | acquired ↦ ok (claimed c)
  | in_progress ↦ err key_in_progress
  | completed ↦ ok (replayed result.result)
  | BeginStatus.invalid n ↦ err (invalid_status (BeginStatus.invalid n))
]

module _ {S : Type 0} where
  -- `claim.complete` and `claim.abort`, on the finalization context.
  unfoldable pub complete_claim : StoreOps S → Environment S → Claim → List ℕ → S → S × Option Error
  complete_claim store env c result s =
      store.complete s (live env.finalization)
        (record { key = c.key; token = c.token; result = result; ttl = c.result_ttl })

  unfoldable pub abort_claim : StoreOps S → Environment S → Claim → S → S × Option Error
  abort_claim store env c s =
      store.abort s (live env.finalization) (record { key = c.key; token = c.token })

  -- errors.Join with an error that may be nil.
  unfoldable pub join_errors : Error → S × Option Error → S × Error
  join_errors e (s, none) = (s, e)
  join_errors e (s, some e') = (s, join e e')

  -- The context has been canceled during Begin: give an acquired claim back.
  unfoldable pub give_back :
      StoreOps S → Environment S → Claim → Error → BeginStatus → S → S × Error
  unfolding abort_claim join_errors
  give_back store env c e acquired s = join_errors e (abort_claim store env c s)
  give_back store env c e status s = (s, e)

  failing : S × Error → S × Result Begun
  failing (s, e) = (s, err e)

  -- After the store's Begin.
  unfoldable pub after_begin :
      StoreOps S → Environment S → Claim → S × Result BeginResult → S × Result Begun
  unfolding give_back failing begun_with
  after_begin store env c (s, err e) = (s, err e)
  after_begin store env c (s, ok result) = elim (cause (asked (asked env.context)) 0) [
    | some e ↦ failing (give_back store env c e result.status s)
    | none ↦ (s, begun_with c result)
  ]

  unfoldable pub begin_claim :
      Executor S → Environment S → String → ExecuteConfig → S → S × Result Begun
  unfolding after_begin
  begin_claim e env key execution s = elim (cause env.context 0) [
    | some failure ↦ (s, err failure)
    | none ↦ elim env.token [
      | err failure ↦ (s, err (token_error failure))
      | ok token ↦
          after_begin e.store env
            (record { key = key; token = token; result_ttl = execution.result_ttl })
            (e.store.begin s (asked env.context) (record {
              key = key;
              token = token;
              fingerprint = execution.fingerprint;
              ttl = execution.execution_ttl;
            }))
    ]
  ]

  module _ {H : Type 0} where
    -- After the handler: abort a failed claim, complete the others with no result.
    unfoldable pub finish :
        StoreOps S → Environment S → Claim → S → H × Option Error → (S × H) × Option Error
    unfolding join_errors abort_claim complete_claim
    finish store env c s (h, some e) =
        let (s', e') = join_errors e (abort_claim store env c (env.during s)) in ((s', h), some e')
    finish store env c s (h, none) =
        let (s', e) = complete_claim store env c [] (env.during s) in ((s', h), e)

    unfoldable pub run_begun :
        StoreOps S
        → Environment S
        → (H → H × Option Error)
        → H
        → S × Result Begun
        → (S × H) × Option Error
    unfolding finish
    run_begun store env handler h (s, err e) = ((s, h), some e)
    run_begun store env handler h (s, ok (replayed result)) = ((s, h), none)
    run_begun store env handler h (s, ok (claimed c)) = finish store env c s (handler h)

    unfoldable pub execute :
        Executor S
        → Environment S
        → String
        → Option (H → H × Option Error)
        → List ExecuteOption
        → S × H
        → Outcome ((S × H) × Option Error)
    unfolding run_begun begin_claim new_execute_config
    execute e env key handler options (s, h) = elim (validate_execution env.context key) [
      | some failure ↦ returns ((s, h), some failure)
      | none ↦ elim handler [
        | none ↦ panics
        | some f ↦ returns (
            run_begun e.store env f h
              (begin_claim e env key (new_execute_config e.config options) s))
      ]
    ]
