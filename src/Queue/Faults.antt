-- ===== src/Queue/Faults.antt =====
-- queue/handler_error.go and queue/errors.go: the errors that a worker and a producer see.
--
-- An error is a text, the error of a context (context.Canceled or context.DeadlineExceeded), one of
-- the package's own, a text around an error (fmt.Errorf with %w) or two joined errors. errors.Is and
-- errors.AsType walk an error in this order. The text of a duration is given by `duration_text`.
use Prim.Native.String.{◌++◌ as append}
use fries.Prelude.{
  ℕ, Bool, true, false, ◌||◌, Option, none, some, String, if◌then◌else◌, ite, string_discrete,
}
use fries.Prelude.Words.{lt64}
use fries.Queue.{Error, canceled, consumer_closed}

pub data Fault : Type 0 where
  plain : String → Fault
  context_error : String → Fault
  consumer_closed_error invalid_task_type already_running producer_is_nil : Fault
  -- ErrDiscard, *retryAfterError and *deadLetterError
  discard : Fault
  retry_after_error : ℕ → Fault
  dead_letter_error : String → Fault
  wrapped : String → Fault → Fault
  joined : Fault → Fault → Fault

abbrev pub fault_of : Option Error → Option Fault
fault_of none = none
fault_of (some (canceled e)) = some (context_error e)
fault_of (some consumer_closed) = some consumer_closed_error

unfoldable pub retry_after : ℕ → Fault
retry_after delay = retry_after_error (if lt64 delay 0 then 0 else delay)

abbrev default_dead_letter_reason : String
default_dead_letter_reason = "queue: dead letter requested"

unfoldable pub dead_letter : String → Fault
dead_letter reason =
    dead_letter_error (ite (string_discrete reason "") default_dead_letter_reason reason)

-- `errors.Is(err, ErrDiscard)`.
unfoldable pub is_discard : Fault → Bool
is_discard discard = true
is_discard (wrapped s e) = is_discard e
is_discard (joined e e') = is_discard e || is_discard e'
is_discard _ = false

-- `isStopError`.
unfoldable pub is_stop_error : Fault → Bool
is_stop_error (context_error s) = true
is_stop_error (wrapped s e) = is_stop_error e
is_stop_error (joined e e') = is_stop_error e || is_stop_error e'
is_stop_error _ = false

-- `errors.Is(err, ErrConsumerClosed)`.
unfoldable pub is_consumer_closed : Fault → Bool
is_consumer_closed consumer_closed_error = true
is_consumer_closed (wrapped s e) = is_consumer_closed e
is_consumer_closed (joined e e') = is_consumer_closed e || is_consumer_closed e'
is_consumer_closed _ = false

abbrev pub or_else : {A : Type 0} → Option A → Option A → Option A
or_else none o = o
or_else (some a) o = some a

unfoldable pub retry_after_delay : Fault → Option ℕ
retry_after_delay (retry_after_error delay) = some delay
retry_after_delay (wrapped s e) = retry_after_delay e
retry_after_delay (joined e e') = or_else (retry_after_delay e) (retry_after_delay e')
retry_after_delay _ = none

unfoldable pub dead_letter_reason : Fault → Option String
dead_letter_reason (dead_letter_error reason) = some reason
dead_letter_reason (wrapped s e) = dead_letter_reason e
dead_letter_reason (joined e e') = or_else (dead_letter_reason e) (dead_letter_reason e')
dead_letter_reason _ = none

-- `err.Error()`.
module _ (duration_text : ℕ → String) where
  unfoldable pub error_text : Fault → String
  error_text (plain s) = s
  error_text (context_error s) = s
  error_text consumer_closed_error = "queue: consumer closed"
  error_text invalid_task_type = "queue: task type is required"
  error_text already_running = "queue: worker already running"
  error_text producer_is_nil = "queue: producer is nil"
  error_text discard = "queue: discard task"
  error_text (retry_after_error delay) = append "queue: retry after " (duration_text delay)
  error_text (dead_letter_error reason) = append "queue: dead letter: " reason
  error_text (wrapped s e) = append s (append ": " (error_text e))
  error_text (joined e e') = append (error_text e) (append "\n" (error_text e'))

abbrev pub handler_not_found : String
handler_not_found = "queue: handler not found"

-- The dead-letter reason `"%s: %v"` of a task that has no attempt left.
abbrev pub exhausted_reason : String → String
exhausted_reason text = append "queue: retry exhausted: " text
