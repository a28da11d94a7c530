-- ===== src/Debounce.antt =====
-- debounce/{debouncer,config,worker}.go: the latest of several values is handled after a quiet time.
--
-- An invocation is the number in which it was made with its value and due time; `completed` records
-- the calls of `complete`, so an invocation's channel is closed when its number is there. `wake` says
-- whether the channel of that name, which has room for one, is full. Times are offsets in nanoseconds.
pub mod System
pub mod Completions
pub mod Latest
pub mod Moves
pub mod Reached
mod Tests
use fries.Prelude.{
  ℕ, suc, Bool, true, false, Option, none, some, List, [], ◌∷◌, ◌++◌, String, if◌then◌else◌, ltb,
  ◌||◌, ◌+◌, ◌-◌, ◌⊎◌, inl, inr,
}
use fries.Prelude.Words.{nonpos64}
use fries.Prelude.Context.{Context, nil, live}

pub data Error : Type 0 where
  invalid_delay nil_handler invalid_context closed : Error
  -- The cause of a context's end, and an error of the handler.
  cause : String → Error
  handler_error : String → Error

-- `with_on_error` says whether its function is not nil; `absent` is a nil option.
pub data DebounceOption : Type 0 where
  with_on_error : Bool → DebounceOption
  absent : DebounceOption

-- The setting `onError` after the options.
unfoldable pub new_config : Bool → List DebounceOption → Bool
new_config on_error [] = on_error
new_config on_error (with_on_error fn ∷ os) = new_config fn os
new_config on_error (absent ∷ os) = new_config on_error os

pub record Invocation (T : Type 0) : Type 0 where
  pub id : ℕ
  pub value : T
  pub due : ℕ

pub record Debouncer (T : Type 0) : Type 0 where
  pub delay : ℕ
  pub on_error : Bool
  pub closed : Bool
  -- The processing context has a cause.
  pub cancelled : Bool
  pub wake : Bool
  pub pending : Option (Invocation T)
  pub ready : Option (Invocation T)
  pub running : Option (Invocation T)
  pub made : ℕ
  pub completed : List (ℕ × Option Error)
  pub reported : List Error

unfoldable pub validate_context : Context → Option Error
validate_context nil = some invalid_context
validate_context (live causes) = elim (causes 0) [ none ↦ none | some reason ↦ some (cause reason) ]

pub data Selected : Type 0 where
  -- The invocation to wait for, and whether to look again.
  waits_for : ℕ → Bool → Selected
  idle : Selected
  shut : Selected

abbrev is_some : {A : Type 0} → Option A → Bool
is_some none = false
is_some (some a) = true

-- What `next` tells the worker.
pub data Next (T : Type 0) : Type 0 where
  leave : Next T
  run : Invocation T → Next T
  sleep : ℕ → Next T

unfoldable pub reported_by : Bool → Option Error → List Error → List Error
reported_by true (some e) errs = errs ++ (e ∷ [])
reported_by true none errs = errs
reported_by false e errs = errs

module _ {T : Type 0} where
  -- The debouncer that `New` makes once its tests have passed.
  unfoldable pub opened : ℕ → List DebounceOption → Debouncer T
  unfolding new_config
  opened delay options = record {
    delay = delay;
    on_error = new_config false options;
    closed = false;
    cancelled = false;
    wake = false;
    pending = none;
    ready = none;
    running = none;
    made = 0;
    completed = [];
    reported = [];
  }

  unfoldable pub new_checked :
      Option Error → Bool → Bool → ℕ → List DebounceOption → Debouncer T ⊎ Error
  unfolding opened
  new_checked (some e) no_delay handler delay options = inr e
  new_checked none true handler delay options = inr invalid_delay
  new_checked none false false delay options = inr nil_handler
  new_checked none false true delay options = inl (opened delay options)

  -- `handler` says whether it is not nil.
  unfoldable pub new_debouncer : Context → ℕ → Bool → List DebounceOption → Debouncer T ⊎ Error
  unfolding validate_context nonpos64 new_checked
  new_debouncer ctx delay handler options =
      new_checked (validate_context ctx) (nonpos64 delay) handler delay options

  -- `Trigger` once the debouncer is open, by the pending invocation.
  unfoldable pub stored : ℕ → T → Option (Invocation T) → Debouncer T → Debouncer T
  stored now value none d = record d {
    pending = some (record { id = d.made; value = value; due = now + d.delay });
    made = suc d.made;
    wake = true;
  }
  stored now value (some c) d = record d {
    pending = some (record c { value = value; due = now + d.delay });
    wake = true;
  }

  unfoldable pub trigger_at : Bool → ℕ → T → Debouncer T → Debouncer T × Option Error
  unfolding stored
  trigger_at true now value d = (d, some closed)
  trigger_at false now value d = (stored now value d.pending d, none)

  unfoldable pub trigger : ℕ → T → Debouncer T → Debouncer T × Option Error
  unfolding trigger_at
  trigger now value d = trigger_at (d.closed || d.cancelled) now value d

  unfoldable pub selected_running : Option (Invocation T) → Selected
  selected_running none = idle
  selected_running (some c) = waits_for c.id false

  -- `selectFlush`, by the frozen and the pending invocation.
  unfoldable pub frozen :
      (ready pending : Option (Invocation T)) → Debouncer T → Debouncer T × Selected
  unfolding selected_running
  frozen (some c) pending d = (d, waits_for c.id (is_some pending))
  frozen none (some c) d =
      (record d { ready = some c; pending = none; wake = true }, waits_for c.id false)
  frozen none none d = (d, selected_running d.running)

  unfoldable pub select_flush_at : Bool → Debouncer T → Debouncer T × Selected
  unfolding frozen
  select_flush_at true d = (d, shut)
  select_flush_at false d = frozen d.ready d.pending d

  unfoldable pub select_flush : Debouncer T → Debouncer T × Selected
  unfolding select_flush_at
  select_flush d = select_flush_at (d.closed || d.cancelled) d

  -- What completing a slot with ErrClosed records.
  unfoldable pub discarded :
      Option (Invocation T) → List (ℕ × Option Error) → List (ℕ × Option Error)
  discarded none done = done
  discarded (some c) done = (c.id, some closed) ∷ done

  unfoldable pub stop_at : Bool → Debouncer T → Debouncer T
  unfolding discarded
  stop_at true d = d
  stop_at false d = record d {
    closed = true;
    cancelled = true;
    completed = discarded d.ready (discarded d.pending d.completed);
    pending = none;
    ready = none;
    wake = true;
  }

  unfoldable pub stop : Debouncer T → Debouncer T
  unfolding stop_at
  stop d = stop_at d.closed d

  unfoldable pub due_at : Bool → ℕ → Invocation T → Debouncer T → Debouncer T × Next T
  due_at true remaining c d = (d, sleep remaining)
  due_at false remaining c d = (record d { running = some c; pending = none }, run c)

  unfoldable pub chosen :
      ℕ → (ready pending : Option (Invocation T)) → Debouncer T → Debouncer T × Next T
  unfolding due_at
  chosen now (some c) pending d = (record d { running = some c; ready = none }, run c)
  chosen now none none d = (d, sleep 0)
  chosen now none (some c) d = due_at (ltb now c.due) (c.due - now) c d

  unfoldable pub next_at : Bool → ℕ → Debouncer T → Debouncer T × Next T
  unfolding chosen
  next_at true now d = (d, leave)
  next_at false now d = chosen now d.ready d.pending d

  unfoldable pub next : ℕ → Debouncer T → Debouncer T × Next T
  unfolding next_at
  next now d = next_at (d.closed || d.cancelled) now d

  -- `execute` after the handler returned.
  unfoldable pub executed : Invocation T → Option Error → Debouncer T → Debouncer T
  unfolding reported_by
  executed c err d = record d {
    reported = reported_by d.on_error err d.reported;
    completed = (c.id, err) ∷ d.completed;
    running = none;
  }
