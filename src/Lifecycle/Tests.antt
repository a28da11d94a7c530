-- ===== src/Lifecycle/Tests.antt =====
-- Runs of lifecycle/runner.go at concrete inputs.
use fries.Prelude.{
  ℕ, suc, ◌≡◌, refl, ◌⊎◌, true, false, Option, none, some, List, [], ◌∷◌, ◌++◌, String, ℕ_discrete,
}
use fries.Lifecycle.{
  background, Error, plain, provider_error, joined, and_error, no_errors, stopping_down, Provider,
  Runner, State, state_new, judge, backward, World, Returned, bootstrap, shutdown, run,
}
use fries.Lifecycle.Run.{Ran, run-Ran}
use fries.Lifecycle.Threads.{
  Shared, boot_enter, boot_step, boot_end, stop_call, check_started, check_stopping, stop_step,
  stop_end, System, pick, Reach, here, further,
}
use fries.Lifecycle.Threads.Invariant.{busy}
use fries.Lifecycle.Threads.Reached.{
  stops_reverse, stopped_all, one_call_busy, no_deadlock, CanMove,
}

-- A provider that counts its calls and answers both as told.
abbrev counting : String → Option Error → Provider ℕ
counting name error = record {
  name = name;
  bootstrap = λ h ctx. (suc h, (some ctx, none));
  shutdown = λ h ctx. (suc h, (some ctx, error));
}

abbrev one : Runner ℕ
one = record {
  providers = counting "db" none ∷ [];
  shutdown_timeout = 5;
  state = state_new;
  started = [];
  start_done = false;
  stop_done = false;
  shutdown_err = none;
}

abbrev failing_stop : Runner ℕ
failing_stop = record one {
  providers = counting "db" (some (plain "busy")) ∷ counting "api" none ∷ [];
}

abbrev world : World ℕ
world = record { host = 0; calls = [] }

run-Ran_example :
    (s : Returned ℕ) × (run failing_stop world none none ≡ some s) × Ran failing_stop world none s
run-Ran_example = run-Ran failing_stop world none none refl

-- A system and how it is reached.
record At : Type 0 where
  system : System ℕ
  reach : Reach one system

-- Call 0 starts the runner; call 1 begins to shut it down; call 2 waits for it.
abbrev entered : At
entered = record { system = _; reach = further here (pick 0 (boot_enter none refl)) }

abbrev begun : At
unfolding ℕ_discrete judge
begun = record {
  system = _;
  reach = further entered.reach (pick 0 (boot_step (some background, none) refl));
}

abbrev ready : At
unfolding ℕ_discrete judge
ready = record { system = _; reach = further begun.reach (pick 0 boot_end) }

abbrev stopping : At
unfolding ℕ_discrete judge
stopping = record {
  system = _;
  reach =
      further
        (further (further ready.reach (pick 1 (stop_call none))) (pick 1 (check_started refl)))
        (pick 2 (stop_call none));
}

abbrev blocked : At
unfolding ℕ_discrete judge
blocked = record { system = _; reach = further stopping.reach (pick 2 (check_stopping refl)) }

abbrev stopped_system : At
unfolding ℕ_discrete judge backward
stopped_system = record {
  system = _;
  reach =
      further (further blocked.reach (pick 1 (stop_step (some background, none))))
        (pick 1 stop_end);
}

stops_reverse_example :
    (rest : List (Provider ℕ)) × (todo : List (Provider ℕ)) × (one.providers
      ≡ blocked.system.shared.boots ++ rest)
    × (backward blocked.system.shared.boots ≡ blocked.system.shared.stops ++ todo)
unfolding ℕ_discrete judge
stops_reverse_example = stops_reverse refl blocked.reach

stopped_all_example :
    stopped_system.system.shared.stops ≡ backward stopped_system.system.shared.boots
unfolding ℕ_discrete judge backward stopped_system
stopped_all_example = stopped_all refl stopped_system.reach refl

one_call_busy_example : ◌≡◌ {A = ℕ} 1 1
unfolding ℕ_discrete judge
one_call_busy_example = one_call_busy refl blocked.reach 1 1 refl refl

no_deadlock_example :
    CanMove blocked.system 2
    ⊎ ((j : ℕ) × (busy (blocked.system.pc j) ≡ true) × CanMove blocked.system j)
unfolding ℕ_discrete judge
no_deadlock_example = no_deadlock refl blocked.reach 2 refl

abbrev fresh : Shared ℕ
fresh = record { runner = failing_stop; boots = []; stops = [] }

abbrev stop_now : Shared ℕ
stop_now = record fresh {
  runner = record failing_stop { state = State.state_started; started = failing_stop.providers };
}

-- Shutdown goes on after an error, and returns it.
abbrev stop_out : Returned ℕ
stop_out = record {
  runner = record stop_now.runner {
    state = State.state_stopped;
    started = [];
    stop_done = true;
    shutdown_err =
        some (joined (and_error (provider_error "shutdown" "db" (plain "busy")) no_errors));
  };
  world = record {
    host = 2;
    calls =
        record { phase = stopping_down; name = "api"; succeeded = true }
        ∷ record { phase = stopping_down; name = "db"; succeeded = false }
        ∷ [];
  };
  context = background;
  error = some (joined (and_error (provider_error "shutdown" "db" (plain "busy")) no_errors));
}
