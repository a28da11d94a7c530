-- ===== src/Batcher.antt =====
-- batcher/{batcher,config,worker}.go: items are combined into batches that one worker handles.
--
-- The handler acts on the host state `H`. A flush request carries the number of its completion. The
-- worker keeps what it did: the batches it passed to the handler, the results it reported, and the
-- completions of flushes. A deadline of the timer is not computed: `armed` says whether it is set.
pub mod System
mod Tests
use fries.Prelude.{
  ℕ, Bool, true, false, Option, none, some, List, [], ◌∷◌, ◌++◌, String, if◌then◌else◌, ◌==◌,
  length, ◌⊎◌, inl, inr,
}
use fries.Prelude.Words.{nonpos64, lt64}
use fries.Prelude.Context.{Context, nil, live}

pub data Error : Type 0 where
  invalid_option : String → Error
  nil_handler invalid_context closed full : Error
  -- The cause of a context's end, and an error of the handler.
  cause : String → Error
  handler_error : String → Error

pub record Config : Type 0 where
  pub batch_size : ℕ
  pub flush_interval : ℕ
  pub queue_size : ℕ
  pub on_result : Bool

-- `with_on_result` says whether its function is not nil; `absent` is a nil option.
pub data BatcherOption : Type 0 where
  with_batch_size with_flush_interval with_queue_size : ℕ → BatcherOption
  with_on_result : Bool → BatcherOption
  absent : BatcherOption

unfoldable pub apply : Config → BatcherOption → Config
apply c (with_batch_size size) = record c { batch_size = size }
apply c (with_flush_interval interval) = record c { flush_interval = interval }
apply c (with_queue_size size) = record c { queue_size = size }
apply c (with_on_result fn) = record c { on_result = fn }
apply c absent = c

unfoldable pub apply_all : Config → List BatcherOption → Config
unfolding apply
apply_all c [] = c
apply_all c (o ∷ os) = apply_all (apply c o) os

unfoldable pub check : Config → Config ⊎ Error
unfolding nonpos64 lt64
check c =
    if nonpos64 c.batch_size
    then inr (invalid_option "batch size must be positive")
    else (if nonpos64 c.flush_interval
        then inr (invalid_option "flush interval must be positive")
        else (if lt64 c.queue_size 0
            then inr (invalid_option "queue size must not be negative")
            else inl c))

unfoldable pub new_config : List BatcherOption → Config ⊎ Error
unfolding apply_all check
new_config options = check (
    apply_all
      (record {
        batch_size = 100;
        flush_interval = 1_000_000_000;
        queue_size = 1000;
        on_result = false;
      })
      options)

pub record Result : Type 0 where
  pub size : ℕ
  pub error : Option Error

pub data Request (T : Type 0) : Type 0 where
  item : T → Request T
  barrier : ℕ → Request T

abbrev pub Handler : Type 0 → Type 0 → Type 0
Handler H T = H → List T → H × Option Error

pub record Worker (H T : Type 0) : Type 0 where
  pub host : H
  pub batch : List T
  pub armed : Bool
  pub first_err : Option Error
  pub handled : List (List T)
  pub results : List Result
  pub completed : List (ℕ × Option Error)

unfoldable pub new_worker : {H T : Type 0} → H → Worker H T
new_worker h = record {
  host = h;
  batch = [];
  armed = false;
  first_err = none;
  handled = [];
  results = [];
  completed = [];
}

-- `err != nil && w.firstErr == nil`.
abbrev pub keep_first : Option Error → Option Error → Option Error
keep_first (some e) error = some e
keep_first none error = error

module _ {H T : Type 0} (c : Config) (handler : Handler H T) where
  -- After the call of the handler with the batch.
  abbrev pub reported : Worker H T → List T → H × Option Error → Worker H T
  reported w batch (h, error) = record w {
    host = h;
    batch = [];
    armed = false;
    first_err = keep_first w.first_err error;
    handled = w.handled ++ (batch ∷ []);
    results =
        if c.on_result
        then w.results ++ (record { size = length batch; error = error } ∷ [])
        else w.results;
  }

  abbrev pub flush_batch : Worker H T → List T → Worker H T
  flush_batch w [] = w
  flush_batch w (x ∷ xs) = reported w (x ∷ xs) (handler w.host (x ∷ xs))

  unfoldable pub flush : Worker H T → Worker H T
  flush w = flush_batch w w.batch

  -- The item in the batch, and the timer set for the first one.
  abbrev pub added : Worker H T → T → Worker H T
  added w x = record w { batch = w.batch ++ (x ∷ []); armed = true }

  unfoldable pub accept : Worker H T → Request T → Worker H T
  unfolding flush
  accept w (barrier k) =
      let w' = flush w in record w' { completed = w'.completed ++ ((k, w'.first_err) ∷ []) }
  accept w (item x) = let w' = added w x in if length w'.batch == c.batch_size then flush w' else w'

-- The end of a wait on a completion: it is done, or the context is, where the completion is looked at
-- once more.
pub data Wake : Type 0 where
  done : Option Error → Wake
  canceled : String → Option (Option Error) → Wake

unfoldable pub wait : Option (Option Error) → Wake → Option Error
wait (some error) wake = error
wait none (done error) = error
wait none (canceled reason (some error)) = error
wait none (canceled reason none) = some (cause reason)

-- `validateContext`.
unfoldable pub validate_context : Context → Option Error
validate_context nil = some invalid_context
validate_context (live causes) = elim (causes 0) [ none ↦ none | some reason ↦ some (cause reason) ]

abbrev pub checked : Option Error → Bool → Config ⊎ Error → Config ⊎ Error
checked (some e) has_handler config = inr e
checked none false config = inr nil_handler
checked none true config = config

-- The tests of `New`.
unfoldable pub new_batcher : Context → Bool → List BatcherOption → Config ⊎ Error
unfolding validate_context new_config
new_batcher ctx has_handler options =
    checked (validate_context ctx) has_handler (new_config options)
