-- ===== src/Lifecycle/Providers.antt =====
-- lifecycle/{config,provider}.go: contexts, errors, providers and the options of a runner.
use fries.Prelude.{ℕ, Option, none, some, List, [], ◌∷◌, ◌++◌, String, if◌then◌else◌}
use fries.Prelude.Words.{nonpos64}

pub data Context : Type 0 where
  background : Context
  caller : String → Context
  with_value : String → Context → Context
  without_cancel : Context → Context
  with_timeout : ℕ → Context → Context

mutual
  pub data Error : Type 0 where
    plain : String → Error
    already_started : Error
    -- fmt.Errorf with %w, and without a cause
    provider_error : (phase name : String) → Error → Error
    nil_context_error : (phase name : String) → Error
    -- *errors.joinError
    joined : Errors → Error

  pub data Errors : Type 0 where
    no_errors : Errors
    and_error : Error → Errors → Errors

-- What a provider returns.
abbrev pub Reply : Type 0
Reply = Option Context × Option Error

pub record Provider (H : Type 0) : Type 0 where
  pub name : String
  pub bootstrap : H → Context → H × Reply
  pub shutdown : H → Context → H × Reply

-- `BootstrapFunc` and `ShutdownFunc`.
module _ {H : Type 0} where
  unfoldable pub bootstrap_func : String → (H → Context → H × Reply) → Provider H
  bootstrap_func name f = record {
    name = name;
    bootstrap = f;
    shutdown = λ h ctx. (h, (some ctx, none));
  }

  unfoldable pub shutdown_func : String → (H → Context → H × Reply) → Provider H
  shutdown_func name f = record {
    name = name;
    bootstrap = λ h ctx. (h, (some ctx, none));
    shutdown = f;
  }

pub record Config (H : Type 0) : Type 0 where
  pub providers : List (Provider H)
  pub shutdown_timeout : ℕ

-- The options; a nil provider is `none`, and `absent` is a nil option.
pub data LifecycleOption (H : Type 0) : Type 0 where
  with_providers : List (Option (Provider H)) → LifecycleOption H
  with_shutdown_timeout : ℕ → LifecycleOption H
  absent : LifecycleOption H

abbrev pub default_shutdown_timeout : ℕ
default_shutdown_timeout = 5_000_000_000

-- `errors.Join`: nil errors are dropped, and nothing that remains is nil.
unfoldable pub present : List (Option Error) → Errors
present [] = no_errors
present (none ∷ es) = present es
present (some e ∷ es) = and_error e (present es)

unfoldable pub join_present : Errors → Option Error
join_present no_errors = none
join_present (and_error e es) = some (joined (and_error e es))

unfoldable pub join : List (Option Error) → Option Error
unfolding present join_present
join es = join_present (present es)

unfoldable pub normalize_context : Option Context → Context
normalize_context none = background
normalize_context (some ctx) = ctx

module _ {H : Type 0} where
  unfoldable pub keep_present : List (Option (Provider H)) → List (Provider H)
  keep_present [] = []
  keep_present (none ∷ ps) = keep_present ps
  keep_present (some p ∷ ps) = p ∷ keep_present ps

  unfoldable pub apply : Config H → LifecycleOption H → Config H
  unfolding keep_present nonpos64
  apply c (with_providers ps) = record c { providers = c.providers ++ keep_present ps }
  apply c (with_shutdown_timeout timeout) =
      if nonpos64 timeout then c else record c { shutdown_timeout = timeout }
  apply c absent = c

  unfoldable pub apply_all : Config H → List (LifecycleOption H) → Config H
  unfolding apply
  apply_all c [] = c
  apply_all c (o ∷ os) = apply_all (apply c o) os

  unfoldable pub new_config : List (LifecycleOption H) → Config H
  unfolding apply_all
  new_config = apply_all (record { providers = []; shutdown_timeout = default_shutdown_timeout })
