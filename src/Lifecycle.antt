-- ===== src/Lifecycle.antt =====
-- lifecycle/{config,provider,runner}.go: providers that start in order and stop in the reverse order.
--
-- A context is the expression that built it: providers derive one from another, and the runner drops
-- a cancellation and sets a timeout. `Option Context` has `none` for nil. A provider acts on the host
-- state `H`; its name stands for its type, which the errors print. `calls` is a record of the calls
-- that the runner made, with whether each succeeded.
mod Providers
pub mod Threads
pub mod Calls
pub mod Run
mod Tests
pub use Providers.{
  Context, Error, Errors, Reply, Provider, Config, LifecycleOption, default_shutdown_timeout,
  background, caller, with_value, without_cancel, with_timeout, plain, already_started,
  provider_error, nil_context_error, joined, no_errors, and_error, with_providers,
  with_shutdown_timeout, absent,
}
unfoldable pub use Providers.{
  bootstrap_func, shutdown_func, present, join_present, join, normalize_context, keep_present,
  apply, apply_all, new_config,
}
use fries.Prelude.{
  ℕ, Bool, true, false, Option, none, some, List, [], ◌∷◌, ◌++◌, String, ◌⊎◌, inl, inr,
  if◌then◌else◌,
}
use fries.Prelude.Words.{nonpos64}

pub data State : Type 0 where
  state_new state_starting state_started state_stopping state_stopped : State

-- `start_done` and `stop_done` say whether these channels are closed.
pub record Runner (H : Type 0) : Type 0 where
  pub providers : List (Provider H)
  pub shutdown_timeout : ℕ
  pub state : State
  pub started : List (Provider H)
  pub start_done : Bool
  pub stop_done : Bool
  pub shutdown_err : Option Error

pub data Phase : Type 0 where
  booting handling stopping_down : Phase

pub record Call : Type 0 where
  pub phase : Phase
  pub name : String
  pub succeeded : Bool

pub record World (H : Type 0) : Type 0 where
  pub host : H
  pub calls : List Call

abbrev pub phase_name : Phase → String
phase_name booting = "bootstrap"
phase_name handling = "handler"
phase_name stopping_down = "shutdown"

-- The tests of a provider's answer: the context it gives, or the error for it.
unfoldable pub judge : Phase → String → Reply → Context ⊎ Error
judge phase name (next, some e) = inr (provider_error (phase_name phase) name e)
judge phase name (none, none) = inr (nil_context_error (phase_name phase) name)
judge phase name (some next, none) = inl next

-- The context of `withShutdownTimeout`.
unfoldable pub shutdown_context : ℕ → Context → Context
shutdown_context timeout ctx = with_timeout timeout (without_cancel ctx)

pub record Returned (H : Type 0) : Type 0 where
  pub runner : Runner H
  pub world : World H
  pub context : Context
  pub error : Option Error

module _ {H : Type 0} where
  unfoldable pub new_runner : List (LifecycleOption H) → Runner H
  unfolding new_config
  new_runner options =
      let c = new_config options in
      record {
        providers = c.providers;
        shutdown_timeout = c.shutdown_timeout;
        state = state_new;
        started = [];
        start_done = false;
        stop_done = false;
        shutdown_err = none;
      }

  -- `slices.Backward`.
  unfoldable pub backward : List (Provider H) → List (Provider H)
  backward [] = []
  backward (p ∷ ps) = backward ps ++ (p ∷ [])

  -- The host after a call, and the call noted.
  abbrev pub noted : World H → H → Phase → String → Bool → World H
  noted w h phase name ok = record {
    host = h;
    calls = w.calls ++ (record { phase = phase; name = name; succeeded = ok } ∷ []);
  }

  -- A step of the loop of `Runner.bootstrap`, with the host and the judged answer of the provider.
  abbrev pub boot_with :
      World H
      → Context
      → List (Provider H)
      → Provider H
      → H
      → Context ⊎ Error
      → (World H
          → Context
          → List (Provider H)
          → World H × Context × List (Provider H) × Option Error)
      → World H × Context × List (Provider H) × Option Error
  boot_with w ctx started p h (inl next) go =
      go (noted w h booting p.name true) next (started ++ (p ∷ []))
  boot_with w ctx started p h (inr e) go = (noted w h booting p.name false, ctx, started, some e)

  -- The loop of `Runner.bootstrap`, with the providers started so far.
  unfoldable pub bootstrap_from :
      World H
      → Context
      → List (Provider H)
      → List (Provider H)
      → World H × Context × List (Provider H) × Option Error
  unfolding judge
  bootstrap_from w ctx started [] = (w, ctx, started, none)
  bootstrap_from w ctx started (p ∷ ps) =
      let (h, reply) = p.bootstrap w.host ctx in
      boot_with w ctx started p h (judge booting p.name reply)
        (λ w' next started'. bootstrap_from w' next started' ps)

  -- A step of the loop of `Runner.shutdown`.
  abbrev pub stop_with :
      World H
      → Context
      → List (Option Error)
      → Provider H
      → H
      → Context ⊎ Error
      → (World H → Context → List (Option Error) → World H × Context × Option Error)
      → World H × Context × Option Error
  stop_with w ctx errs p h (inl next) go = go (noted w h stopping_down p.name true) next errs
  stop_with w ctx errs p h (inr e) go =
      go (noted w h stopping_down p.name false) ctx (errs ++ (some e ∷ []))

  -- The loop of `Runner.shutdown`, with the errors so far, over the providers that remain.
  unfoldable pub shutdown_each :
      World H → Context → List (Option Error) → List (Provider H) → World H × Context × Option Error
  unfolding judge join
  shutdown_each w ctx errs [] = (w, ctx, join errs)
  shutdown_each w ctx errs (p ∷ ps) =
      let (h, reply) = p.shutdown w.host ctx in
      stop_with w ctx errs p h (judge stopping_down p.name reply)
        (λ w' next errs'. shutdown_each w' next errs' ps)

  unfoldable pub shutdown_providers :
      World H → Context → List (Provider H) → World H × Context × Option Error
  unfolding shutdown_each backward
  shutdown_providers w ctx ps = shutdown_each w ctx [] (backward ps)

  -- What Bootstrap and Shutdown leave in the runner when they are done.
  abbrev pub set_started : Runner H → List (Provider H) → Runner H
  set_started r ps = record r { started = ps; state = state_started; start_done = true }

  abbrev pub set_rolled_back : Runner H → Option Error → Runner H
  set_rolled_back r error = record r {
    state = state_stopped;
    shutdown_err = error;
    start_done = true;
  }

  abbrev pub set_stopped : Runner H → Option Error → Runner H
  set_stopped r error = record r {
    started = [];
    shutdown_err = error;
    state = state_stopped;
    stop_done = true;
  }

  -- `Bootstrap` after the loop of its providers, the rollback included.
  unfoldable pub bootstrapped :
      Runner H → World H × Context × List (Provider H) × Option Error → Returned H
  unfolding shutdown_providers shutdown_context join
  bootstrapped r (w, ctx, started, none) = record {
    runner = set_started r started;
    world = w;
    context = ctx;
    error = none;
  }
  bootstrapped r (w, ctx, started, some e) =
      let (w', ctx', rollback) =
        shutdown_providers w (shutdown_context r.shutdown_timeout ctx) started in
      record {
        runner = set_rolled_back r rollback;
        world = w';
        context = ctx';
        error = join (some e ∷ rollback ∷ []);
      }

  abbrev pub refuse : Runner H → World H → Context → Returned H
  refuse r w ctx = record { runner = r; world = w; context = ctx; error = some already_started }

  -- `Runner.Bootstrap` of a caller that is alone, by the state that it reads.
  unfoldable pub bootstrap_at : State → Runner H → World H → Context → Returned H
  unfolding bootstrapped bootstrap_from
  bootstrap_at state_new r w ctx =
      bootstrapped (record r { state = state_starting }) (bootstrap_from w ctx [] r.providers)
  bootstrap_at state_starting r w ctx = refuse r w ctx
  bootstrap_at state_started r w ctx = refuse r w ctx
  bootstrap_at state_stopping r w ctx = refuse r w ctx
  bootstrap_at state_stopped r w ctx = refuse r w ctx

  unfoldable pub bootstrap : Runner H → World H → Option Context → Returned H
  unfolding bootstrap_at normalize_context
  bootstrap r w ctx = bootstrap_at r.state r w (normalize_context ctx)

  -- `Shutdown` after the loop of its providers.
  abbrev pub shut_down : Runner H → World H × Context × Option Error → Returned H
  shut_down r (w, ctx, error) = record {
    runner = set_stopped r error;
    world = w;
    context = ctx;
    error = error;
  }

  -- `Runner.Shutdown` of a caller that is alone; `none` is a wait for a call that is under way.
  unfoldable pub shutdown_at : State → Runner H → World H → Context → Option (Returned H)
  unfolding shutdown_providers
  shutdown_at state_new r w ctx =
      some (record { runner = r; world = w; context = ctx; error = none })
  shutdown_at state_starting r w ctx = none
  shutdown_at state_started r w ctx =
      some (shut_down (record r { state = state_stopping }) (shutdown_providers w ctx r.started))
  shutdown_at state_stopping r w ctx = none
  shutdown_at state_stopped r w ctx =
      some (record { runner = r; world = w; context = ctx; error = r.shutdown_err })

  unfoldable pub shutdown : Runner H → World H → Option Context → Option (Returned H)
  unfolding shutdown_at normalize_context
  shutdown r w ctx = shutdown_at r.state r w (normalize_context ctx)

  -- The handler of `Run`, with its call noted; a nil one does nothing.
  unfoldable pub handle :
      Option (H → Context → H × Option Error) → World H → Context → World H × Option Error
  handle none w ctx = (w, none)
  handle (some handler) w ctx =
      let (h, error) = handler w.host ctx in
      (noted w h handling "" (elim error [ none ↦ true | some e ↦ false ]), error)

  -- The deferred part of `Run`.
  unfoldable pub close_run : Runner H → Context → World H × Option Error → Option (Returned H)
  unfolding shutdown shutdown_context join
  close_run r ctx (w, error) =
      elim (shutdown r w (some (shutdown_context r.shutdown_timeout ctx))) [
        | none ↦ none
        | some s ↦ some (record s { error = join (error ∷ s.error ∷ []) })
      ]

  -- `Run` after Bootstrap.
  unfoldable pub run_with :
      Option (H → Context → H × Option Error) → Returned H → Option (Returned H)
  unfolding close_run handle
  run_with handler b = elim b.error [
    | some e ↦ some b
    | none ↦ close_run b.runner b.context (handle handler b.world b.context)
  ]

  unfoldable pub run :
      Runner H
      → World H
      → Option Context
      → Option (H → Context → H × Option Error)
      → Option (Returned H)
  unfolding bootstrap run_with
  run r w ctx handler = run_with handler (bootstrap r w ctx)
