-- ===== src/Queue.antt =====
-- queue/task.go and queue/queue.go: the tasks that the queue adapters store.
--
-- A task is a value, so Clone, which copies its payload and metadata, gives the same task. A nil map
-- is the empty one. A time is its offset in nanoseconds from an origin before every time in use, a
-- duration a 64-bit pattern (Prelude/Words).
pub mod Memory
pub mod Faults
pub mod Observer
pub mod Pending
pub mod Producer
pub mod Worker
mod Tests
use fries.Prelude.{ℕ, Option, none, some, List, String, ite, string_discrete}

pub record Task : Type 0 where
  pub id : String
  pub type_ : String
  pub queue : String
  pub payload : List ℕ
  pub metadata : List (String × String)
  pub attempt : ℕ
  pub created_at : ℕ
  pub available_at : ℕ

abbrev pub default_queue : String
default_queue = "default"

-- `ConsumerConfig.Normalize`, and the same default for a task: the name of its queue.
unfoldable pub or_default : String → String
or_default name = ite (string_discrete name "") default_queue name

-- `canceled` is what ctx.Err() reports.
pub data Error : Type 0 where
  canceled : String → Error
  consumer_closed : Error

-- `ctx.Err()`, asked for the n-th time.
abbrev pub failure : (ℕ → Option String) → ℕ → Option Error
failure causes n = elim (causes n) [ none ↦ none | some e ↦ some (canceled e) ]
