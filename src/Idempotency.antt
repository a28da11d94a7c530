-- ===== src/Idempotency.antt =====
-- idempotency/store.go and idempotency/errors.go: claims on idempotency keys.
--
-- A time is a number of nanoseconds since the zero time.Time, which is 0; data is a list of bytes.
pub mod Memory
pub mod Executor
pub mod Value
pub mod Replay
mod Tests
use fries.Prelude.{ℕ, Option, none, some, List, String}
pub use fries.Prelude.Context.{Context, nil, live}

-- `invalid` is any number that is none of the constants.
pub data BeginStatus : Type 0 where
  acquired in_progress completed : BeginStatus
  invalid : ℕ → BeginStatus

pub record BeginRequest : Type 0 where
  pub key : String
  pub token : String
  pub fingerprint : String
  pub ttl : ℕ

pub record BeginResult : Type 0 where
  pub status : BeginStatus
  pub result : List ℕ

pub record CompleteRequest : Type 0 where
  pub key : String
  pub token : String
  pub result : List ℕ
  pub ttl : ℕ

pub record AbortRequest : Type 0 where
  pub key : String
  pub token : String

-- `canceled` is a context's cause, `failed` an error of a handler, a codec or a store of another
-- kind, and `join` is errors.Join of two errors.
pub data Error : Type 0 where
  invalid_context invalid_key key_in_progress key_conflict claim_lost : Error
  canceled failed : String → Error
  invalid_status : BeginStatus → Error
  token_error encode_error decode_error : Error → Error
  join : Error → Error → Error

pub data Result {ℓ} (A : Type ℓ) : Type ℓ where
  ok : A → Result A
  err : Error → Result A

abbrev pub cause : Context → ℕ → Option Error
cause nil n = none
cause (live causes) n = elim (causes n) [ none ↦ none | some e ↦ some (canceled e) ]
