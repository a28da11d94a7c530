-- ===== src/Debounce/Tests.antt =====
-- Runs of debounce at concrete inputs.
use fries.Prelude.{ℕ, ◌≡◌, refl, true, none, some, [], ◌∷◌, arith, inl}
use fries.Prelude.Context.{live}
use fries.Debounce.{
  Debouncer, with_on_error, absent, handler_error, opened, new_config, new_debouncer,
  validate_context, new_checked, stored, trigger_at, trigger, frozen, select_flush_at, select_flush,
  discarded, stop_at, stop, due_at, chosen, next_at, next, reported_by, executed,
}
use fries.Debounce.System.{
  System, Reach, here, further, triggers, selects, stops, looks, executes, wakes, leaves, went,
}
use fries.Debounce.Completions.{Kept, times}
use fries.Debounce.Moves.{Alert}
use fries.Debounce.Reached.{completed_once, wake_not_lost, close_completes}
use fries.Debounce.Latest.{Runs, trigger-Runs_latest}
use fries.Prelude.Words.{nonpos64, lt64}

abbrev started : Debouncer ℕ
unfolding opened new_config
started = opened 10 (absent ∷ with_on_error true ∷ [])

new_debouncer_test :
    new_debouncer {T = ℕ} (live (λ n. none)) 10 true (absent ∷ with_on_error true ∷ [])
    ≡ inl started
unfolding new_debouncer validate_context new_checked nonpos64 lt64 opened new_config
new_debouncer_test = refl

record At : Type 0 where
  system : System ℕ
  reach : Reach 10 (absent ∷ with_on_error true ∷ []) system

-- Two triggers, and the worker sleeps until the second one is due.
abbrev asleep : At
unfolding opened new_config trigger trigger_at stored next next_at chosen due_at went
asleep = record {
  system = _;
  reach = further (further (further here (triggers 0 5)) (triggers 4 6)) (looks 8 refl);
}

completed_once_example : Kept asleep.system.debouncer
unfolding asleep
completed_once_example =
    completed_once 10 (absent ∷ with_on_error true ∷ []) asleep.system asleep.reach

wake_not_lost_example : Alert true asleep.system.debouncer
unfolding asleep opened new_config trigger trigger_at stored next next_at chosen due_at went
wake_not_lost_example =
    wake_not_lost 10 (absent ∷ with_on_error true ∷ []) asleep.system true asleep.reach refl

-- A flush and its run, another trigger, and a close.
abbrev over : At
unfolding asleep opened new_config trigger trigger_at stored next next_at chosen due_at went
    select_flush select_flush_at frozen executed reported_by stop stop_at discarded
over = record {
  system = _;
  reach =
      further
        (further
          (further
            (further
              (further
                (further (further (further asleep.reach selects) (wakes true refl refl))
                  (looks 9 refl))
                (executes (record { id = 0; value = 6; due = 14 }) (some (handler_error "bad"))
                  refl))
              (triggers 20 7))
            stops)
          (looks 21 refl))
        (leaves refl);
}

close_completes_example :
    (over.system.debouncer.closed ≡ true)
    × (over.system.debouncer.pending ≡ none)
    × (over.system.debouncer.ready ≡ none)
    × (over.system.debouncer.running ≡ none)
    × (times 1 over.system.debouncer.completed ≡ 1)
unfolding over asleep opened new_config trigger trigger_at stored next next_at chosen due_at went
    select_flush select_flush_at frozen executed reported_by stop stop_at discarded
close_completes_example =
    close_completes 10 (absent ∷ with_on_error true ∷ []) over.system 1 over.reach refl
      (omega arith)

trigger-Runs_latest_example : Runs 8 14 6 (trigger 4 6 (trigger 0 5 started).0).0
unfolding started opened new_config trigger trigger_at stored
trigger-Runs_latest_example = trigger-Runs_latest 8 4 6 (trigger 0 5 started).0 refl refl refl
