-- ===== src/Retry/Errors.antt =====
-- The errors of retry/retry.go: markers, errors that wrap others, and what inspectError finds.
--
-- An error that is not a marker is a text, a context error, a text around an error (fmt.Errorf with
-- %w) or two joined errors (errors.Join). errors.AsType and errors.Is walk an error in this order.
use fries.Prelude.{ℕ, Bool, true, false, ◌||◌, Option, none, some, String, if◌then◌else◌}
use fries.Retry.Delays.{negative, Outcome, panics, returns}

pub data Error : Type 0 where
  plain : String → Error
  context_canceled deadline_exceeded : Error
  wrapped : String → Error → Error
  joined : Error → Error → Error
  -- *permanentError and *afterError
  permanent_error : Error → Error
  after_error : ℕ → Error → Error

unfoldable pub permanent : Option Error → Option Error
permanent none = none
permanent (some e) = some (permanent_error e)

unfoldable pub after : ℕ → Option Error → Outcome (Option Error)
after delay none = if negative delay then panics else returns none
after delay (some e) = if negative delay then panics else returns (some (after_error delay e))

-- `errors.AsType[*permanentError]` finds one.
unfoldable pub is_permanent : Error → Bool
is_permanent (plain s) = false
is_permanent context_canceled = false
is_permanent deadline_exceeded = false
is_permanent (wrapped s e) = is_permanent e
is_permanent (joined e e') = is_permanent e || is_permanent e'
is_permanent (permanent_error e) = true
is_permanent (after_error d e) = is_permanent e

or_else : Option ℕ → Option ℕ → Option ℕ
or_else none o = o
or_else (some d) o = some d

-- The delay of the `*afterError` that errors.AsType finds first.
unfoldable pub find_after : Error → Option ℕ
unfolding or_else
find_after (plain s) = none
find_after context_canceled = none
find_after deadline_exceeded = none
find_after (wrapped s e) = find_after e
find_after (joined e e') = or_else (find_after e) (find_after e')
find_after (permanent_error e) = find_after e
find_after (after_error d e) = some d

-- The loop that takes markers off the root.
unfoldable pub strip : Error → Error
strip (permanent_error e) = strip e
strip (after_error d e) = strip e
strip (plain s) = plain s
strip context_canceled = context_canceled
strip deadline_exceeded = deadline_exceeded
strip (wrapped s e) = wrapped s e
strip (joined e e') = joined e e'

pub record ErrorInfo : Type 0 where
  pub cause : Error
  pub permanent : Bool
  pub override : Bool
  pub override_delay : ℕ

abbrev overridden : Error → Bool → Option ℕ → ErrorInfo
overridden cause permanent none = record {
  cause = cause;
  permanent = permanent;
  override = false;
  override_delay = 0;
}
overridden cause permanent (some d) = record {
  cause = cause;
  permanent = permanent;
  override = true;
  override_delay = d;
}

unfoldable pub inspect_error : Error → ErrorInfo
unfolding is_permanent find_after strip
inspect_error e = overridden (strip e) (is_permanent e) (find_after e)

-- `errors.Is(err, context.Canceled)` and `errors.Is(err, context.DeadlineExceeded)`.
unfoldable pub is_canceled : Error → Bool
is_canceled (plain s) = false
is_canceled context_canceled = true
is_canceled deadline_exceeded = false
is_canceled (wrapped s e) = is_canceled e
is_canceled (joined e e') = is_canceled e || is_canceled e'
is_canceled (permanent_error e) = is_canceled e
is_canceled (after_error d e) = is_canceled e

unfoldable pub is_deadline_exceeded : Error → Bool
is_deadline_exceeded (plain s) = false
is_deadline_exceeded context_canceled = false
is_deadline_exceeded deadline_exceeded = true
is_deadline_exceeded (wrapped s e) = is_deadline_exceeded e
is_deadline_exceeded (joined e e') = is_deadline_exceeded e || is_deadline_exceeded e'
is_deadline_exceeded (permanent_error e) = is_deadline_exceeded e
is_deadline_exceeded (after_error d e) = is_deadline_exceeded e
