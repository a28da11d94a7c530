-- ===== src/Debounce/System.antt =====
-- debounce/{debouncer,worker}.go: callers of Trigger, Flush and Close, and the worker's loop.
use fries.Prelude.{ℕ, ◌≡◌, Bool, true, false, Option, List, ltb}
use fries.Debounce.{
  Error, DebounceOption, Invocation, Debouncer, opened, trigger, select_flush, stop, Next, leave,
  run, sleep, next, executed,
}

-- Where the worker stands: before `next`, in `execute`, in its select with or without a timer, after
-- the loop, and after it has closed `done`.
pub data Pc (T : Type 0) : Type 0 where
  looking : Pc T
  executing : Invocation T → Pc T
  waiting : Bool → Pc T
  leaving gone : Pc T

pub record System (T : Type 0) : Type 0 where
  pub debouncer : Debouncer T
  pub worker : Pc T

unfoldable pub went : {T : Type 0} → Next T → Pc T
went leave = leaving
went (run c) = executing c
went (sleep delay) = waiting (ltb 0 delay)

pub data Step {T : Type 0} (s : System T) : System T → Type 0 where
  triggers :
      (now : ℕ) (value : T) → Step s (record s { debouncer = (trigger now value s.debouncer).0 })
  selects : Step s (record s { debouncer = (select_flush s.debouncer).0 })
  -- `Close` up to its wait, and the function that runs after a cancellation.
  stops : Step s (record s { debouncer = stop s.debouncer })
  cancels : Step s (record s { debouncer = record s.debouncer { cancelled = true } })
  looks :
      (now : ℕ)
      → s.worker ≡ looking
      → Step s
          (record { debouncer = (next now s.debouncer).0; worker = went (next now s.debouncer).1 })
  executes :
      (c : Invocation T) (err : Option Error)
      → s.worker ≡ executing c
      → Step s (record { debouncer = executed c err s.debouncer; worker = looking })
  wakes :
      (timer : Bool)
      → s.worker ≡ waiting timer
      → s.debouncer.wake ≡ true
      → Step s (record { debouncer = record s.debouncer { wake = false }; worker = looking })
  ticks : s.worker ≡ waiting true → Step s (record s { worker = looking })
  ends :
      (timer : Bool)
      → s.worker ≡ waiting timer
      → s.debouncer.cancelled ≡ true
      → Step s (record { debouncer = stop s.debouncer; worker = looking })
  leaves : s.worker ≡ leaving → Step s (record { debouncer = stop s.debouncer; worker = gone })

-- A state that is reached from what `New` returns.
pub data Reach {T : Type 0} (delay : ℕ) (options : List DebounceOption) : System T → Type 0 where
  here : Reach delay options (record { debouncer = opened delay options; worker = looking })
  further : {s t : System T} → Reach delay options s → Step s t → Reach delay options t
