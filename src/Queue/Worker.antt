-- ===== src/Queue/Worker.antt =====
-- queue/worker.go, queue/handler.go, queue/typed.go: options, and how a worker handles a delivery.
--
-- A handler acts on the host state `S`. It and a delivery's Ack, Retry and DeadLetter are given the
-- timeout of their context, `none` for no timeout; what becomes of a context shows in their answers.
-- `D` are the deliveries of a queue with state `Q`. A codec's Unmarshal gives a payload or an error.
pub mod Verdict
pub mod Loop
pub mod Lifecycle
pub mod OverMemory
mod Tests
use fries.Prelude.{
  ℕ, Bool, true, false, not, Option, none, some, List, [], ◌∷◌, ◌++◌, String, if◌then◌else◌, ite,
  insert, lookup, string_discrete, ◌⊎◌, inl, inr,
}
use fries.Prelude.Words.{nonpos64, lt64}
use fries.Queue.{Task, default_queue}
use fries.Queue.Faults.{
  Fault, is_discard, dead_letter_reason, retry_after_delay, error_text, handler_not_found,
  exhausted_reason,
}
use fries.Queue.Observer.{
  Event, EventKind, task_received, handler_started, handler_succeeded, handler_failed, task_acked,
  task_retried, task_dead_lettered, task_settlement_failed, SettlementAction, unspecified,
  settlement_ack, settlement_retry, settlement_dead_letter, task_info,
}
use fries.Queue.Producer.{named}
use fries.Retry.Delays.{Backoff, Random, panics, returns, no_backoff, fixed}

abbrev pub Handler : Type 0 → Type 0
Handler S = Option ℕ → S → Task → S × Option Fault

abbrev pub Middleware : Type 0 → Type 0
Middleware S = Handler S → Handler S

-- The loop over the middleware backward: the first one is the outermost.
unfoldable pub chain : {S : Type 0} → Handler S → List (Middleware S) → Handler S
chain handler [] = handler
chain handler (m ∷ ms) = m (chain handler ms)

pub record WorkerConfig (S : Type 0) : Type 0 where
  pub queue : String
  pub consumer_name : String
  pub concurrency : ℕ
  pub handler_timeout : ℕ
  pub settlement_timeout : ℕ
  pub max_attempts : ℕ
  pub backoff : Backoff
  pub retry_if : Task → Fault → Bool
  pub observer : Bool
  pub middleware : List (Middleware S)
  pub handlers : List (String × Handler S)

-- A nil backoff, predicate or handler is `none`.
pub data WorkerOption (S : Type 0) : Type 0 where
  with_queue with_consumer_name : String → WorkerOption S
  with_concurrency with_handler_timeout with_settlement_timeout with_max_attempts :
      ℕ → WorkerOption S
  with_backoff : Option Backoff → WorkerOption S
  with_retry_if : Option (Task → Fault → Bool) → WorkerOption S
  with_observer : Bool → WorkerOption S
  with_middleware : List (Middleware S) → WorkerOption S
  handle : String → Option (Handler S) → WorkerOption S

-- A decoded payload beside its task.
pub record TaskFor (A : Type 0) : Type 0 where
  pub task : Task
  pub payload : A

abbrev pub Unmarshal : Type 0 → Type 0
Unmarshal A = List ℕ → A ⊎ Fault

abbrev pub HandlerFor : Type 0 → Type 0 → Type 0
HandlerFor S A = Option ℕ → S → TaskFor A → S × Option Fault

pub record Tasker (S A : Type 0) : Type 0 where
  pub task_type : String
  pub handle_task : HandlerFor S A

-- A nil codec is `none`.
abbrev pub codec_or : {A : Type 0} → Unmarshal A → Option (Unmarshal A) → Unmarshal A
codec_or default_codec none = default_codec
codec_or default_codec (some codec) = codec

module _ {S A : Type 0} where
  abbrev pub decoded : Option ℕ → S → Task → HandlerFor S A → A ⊎ Fault → S × Option Fault
  decoded timeout s task handler (inl payload) =
      handler timeout s (record { task = task; payload = payload })
  decoded timeout s task handler (inr e) = (s, some e)

  unfoldable pub typed_handler : Unmarshal A → HandlerFor S A → Handler S
  typed_handler codec handler timeout s task = decoded timeout s task handler (codec task.payload)

  unfoldable pub handle_for_with_codec :
      Unmarshal A → String → Option (Unmarshal A) → Option (HandlerFor S A) → WorkerOption S
  unfolding typed_handler
  handle_for_with_codec default_codec task_type codec none = handle task_type none
  handle_for_with_codec default_codec task_type codec (some handler) =
      handle task_type (some (typed_handler (codec_or default_codec codec) handler))

  unfoldable pub handle_payload_with_codec :
      Unmarshal A
      → String
      → Option (Unmarshal A)
      → Option (Option ℕ → S → A → S × Option Fault)
      → WorkerOption S
  unfolding handle_for_with_codec
  handle_payload_with_codec default_codec task_type codec none = handle task_type none
  handle_payload_with_codec default_codec task_type codec (some handler) =
      handle_for_with_codec default_codec task_type codec
        (some (λ timeout s t. handler timeout s t.payload))

  unfoldable pub handle_tasker : Unmarshal A → Option (Tasker S A) → WorkerOption S
  unfolding handle_for_with_codec
  handle_tasker default_codec none = handle "" none
  handle_tasker default_codec (some tasker) =
      handle_for_with_codec default_codec tasker.task_type none (some tasker.handle_task)

abbrev second : ℕ
second = 1_000_000_000

unfoldable pub default_backoff : Backoff
unfolding fixed no_backoff
default_backoff = elim (fixed second) [ panics ↦ no_backoff | returns backoff ↦ backoff ]

module _ {S : Type 0} where
  unfoldable pub apply_worker : WorkerConfig S → WorkerOption S → WorkerConfig S
  unfolding nonpos64 lt64
  apply_worker c (with_queue name) = record c { queue = named c.queue name }
  apply_worker c (with_consumer_name name) = record c { consumer_name = named c.consumer_name name }
  apply_worker c (with_concurrency n) = if nonpos64 n then c else record c { concurrency = n }
  apply_worker c (with_handler_timeout t) =
      if nonpos64 t then c else record c { handler_timeout = t }
  apply_worker c (with_settlement_timeout t) =
      if nonpos64 t then c else record c { settlement_timeout = t }
  apply_worker c (with_max_attempts n) = if lt64 n 1 then c else record c { max_attempts = n }
  apply_worker c (with_backoff none) = c
  apply_worker c (with_backoff (some backoff)) = record c { backoff = backoff }
  apply_worker c (with_retry_if none) = c
  apply_worker c (with_retry_if (some predicate)) = record c { retry_if = predicate }
  apply_worker c (with_observer observer) = record c { observer = observer }
  apply_worker c (with_middleware ms) = record c { middleware = c.middleware ++ ms }
  apply_worker c (handle task_type none) = c
  apply_worker c (handle task_type (some handler)) =
      ite (string_discrete task_type "") c
        (record c { handlers = insert string_discrete task_type handler c.handlers })

  unfoldable pub apply_worker_all : WorkerConfig S → List (WorkerOption S) → WorkerConfig S
  unfolding apply_worker
  apply_worker_all c [] = c
  apply_worker_all c (o ∷ os) = apply_worker_all (apply_worker c o) os

  unfoldable pub new_worker_config : List (WorkerOption S) → WorkerConfig S
  unfolding apply_worker_all default_backoff
  new_worker_config = apply_worker_all (record {
    queue = default_queue;
    consumer_name = "";
    concurrency = 1;
    handler_timeout = 0;
    settlement_timeout = 30_000_000_000;
    max_attempts = 3;
    backoff = default_backoff;
    retry_if = λ task e. true;
    observer = false;
    middleware = [];
    handlers = [];
  })

-- What a queue's deliveries do.
pub record Deliveries (Q D : Type 0) : Type 0 where
  pub task : D → Option Task
  pub ack : Q → Option ℕ → D → Q × Option Fault
  pub retry : Q → Option ℕ → D → ℕ → Q × Option Fault
  pub dead_letter : Q → Option ℕ → D → String → Q × Option Fault

pub record World (S Q : Type 0) : Type 0 where
  pub host : S
  pub queue : Q
  pub random : Random
  pub events : List Event

-- `context.WithTimeout`, unless the timeout is not positive.
unfoldable pub timeout_of : ℕ → Option ℕ
unfolding nonpos64
timeout_of t = if nonpos64 t then none else some t

-- `max(delay, 0)`.
unfoldable pub at_least_zero : ℕ → ℕ
unfolding lt64
at_least_zero delay = if lt64 delay 0 then 0 else delay

module _ {S : Type 0} (c : WorkerConfig S) where
  abbrev pub worker_event : EventKind → Task → Event
  worker_event kind task = record {
    kind = kind;
    queue = c.queue;
    consumer_name = c.consumer_name;
    task = task_info (some task);
    settlement = unspecified;
    delay = 0;
    reason = "";
    error = none;
  }

  abbrev pub settlement_failed_event : Task → SettlementAction → ℕ → String → Fault → Event
  settlement_failed_event task action delay reason e =
      record (worker_event task_settlement_failed task) {
        settlement = action;
        delay = delay;
        reason = reason;
        error = some e;
      }

  module _ {Q : Type 0} where
    abbrev pub observe : World S Q → Event → World S Q
    observe w e = if c.observer then record w { events = w.events ++ (e ∷ []) } else w

    -- The queue has answered a settlement: the event for it, and its error.
    abbrev pub settled :
        World S Q → Event → (Fault → Event) → Q × Option Fault → World S Q × Option Fault
    settled w done failed (q, none) = (observe (record w { queue = q }) done, none)
    settled w done failed (q, some e) = (observe (record w { queue = q }) (failed e), some e)

  module _ {Q D : Type 0} where
    unfoldable pub ack : Deliveries Q D → World S Q → Task → D → World S Q × Option Fault
    unfolding timeout_of
    ack b w task d =
        settled w (worker_event task_acked task)
          (λ e. settlement_failed_event task settlement_ack 0 "" e)
          (b.ack w.queue (timeout_of c.settlement_timeout) d)

    unfoldable pub retry : Deliveries Q D → World S Q → Task → D → ℕ → World S Q × Option Fault
    unfolding timeout_of
    retry b w task d delay =
        settled w
          (record (worker_event task_retried task) { settlement = settlement_retry; delay = delay })
          (λ e. settlement_failed_event task settlement_retry delay "" e)
          (b.retry w.queue (timeout_of c.settlement_timeout) d delay)

    unfoldable pub dead_letter :
        Deliveries Q D → World S Q → Task → D → String → World S Q × Option Fault
    unfolding timeout_of
    dead_letter b w task d reason =
        settled w
          (record (worker_event task_dead_lettered task) {
            settlement = settlement_dead_letter;
            reason = reason;
          })
          (λ e. settlement_failed_event task settlement_dead_letter 0 reason e)
          (b.dead_letter w.queue (timeout_of c.settlement_timeout) d reason)

    module _ (duration_text : ℕ → String) (b : Deliveries Q D) where
      -- The last test of `process`, and the retry after the backoff.
      unfoldable pub back_off : World S Q → Task → D → Fault → World S Q × Option Fault
      unfolding retry dead_letter at_least_zero error_text
      back_off w task d e =
          let (random, delay) = c.backoff w.random task.attempt in
          if c.retry_if task e
          then retry b (record w { random = random }) task d (at_least_zero delay)
          else dead_letter b w task d (error_text duration_text e)

      -- After the tests for the package's own errors and the attempts.
      abbrev pub retry_or : World S Q → Task → D → Fault → Option ℕ → World S Q × Option Fault
      retry_or w task d e (some delay) = retry b w task d delay
      retry_or w task d e none = back_off w task d e

      abbrev pub bury_or : World S Q → Task → D → Fault → Option String → World S Q × Option Fault
      bury_or w task d e (some reason) = dead_letter b w task d reason
      bury_or w task d e none =
          if not (lt64 task.attempt c.max_attempts)
          then dead_letter b w task d (exhausted_reason (error_text duration_text e))
          else retry_or w task d e (retry_after_delay e)

      -- `process` once the handler has returned.
      unfoldable pub process_handled :
          World S Q → Task → D → Option Fault → World S Q × Option Fault
      unfolding ack retry dead_letter back_off is_discard dead_letter_reason retry_after_delay
          error_text lt64
      process_handled w task d none = ack b (observe w (worker_event handler_succeeded task)) task d
      process_handled w task d (some e) =
          let w' = observe w (record (worker_event handler_failed task) { error = some e }) in
          if is_discard e then ack b w' task d else bury_or w' task d e (dead_letter_reason e)

      abbrev pub handled : World S Q → Task → D → S × Option Fault → World S Q × Option Fault
      handled w task d (s, error) = process_handled (record w { host = s }) task d error

      -- `process` with the handler of the task's type.
      unfoldable pub process_with :
          World S Q → Task → D → Option (Handler S) → World S Q × Option Fault
      unfolding process_handled dead_letter timeout_of chain
      process_with w task d none = dead_letter b w task d handler_not_found
      process_with w task d (some handler) =
          handled (observe w (worker_event handler_started task)) task d
            (chain handler c.middleware (timeout_of c.handler_timeout) w.host task)

      unfoldable pub process : World S Q → Task → D → World S Q × Option Fault
      unfolding process_with
      process w task d = process_with w task d (lookup string_discrete task.type_ c.handlers)
