-- ===== src/Lifecycle/Threads.antt =====
-- lifecycle/runner.go with any number of callers at once: each call of Bootstrap or Shutdown is a
-- thread, which goes from one change of the runner, or one call of a provider, to the next.
--
-- A section that holds the lock is one step. A provider may answer anything. `boots` lists the
-- providers whose Bootstrap succeeded, `stops` those whose Shutdown was called, in time.
pub mod Invariant
pub mod Moves
pub mod Reached
pub mod Alone
use fries.Prelude.{
  ℕ, ◌≡◌, ◌≢◌, ◌⊎◌, inl, inr, Bool, true, false, Option, none, some, List, [], ◌∷◌, ◌++◌, ite,
  ℕ_discrete,
}
use fries.Lifecycle.{
  Context, Error, Reply, Provider, Runner, state_new, state_starting, state_started, state_stopping,
  state_stopped, booting, stopping_down, normalize_context, judge, backward, shutdown_context, join,
  set_started, set_rolled_back, set_stopped,
}

pub record Shared (H : Type 0) : Type 0 where
  pub runner : Runner H
  pub boots : List (Provider H)
  pub stops : List (Provider H)

-- Where a call stands, with the local variables that are live there; the rollback and the shutdown
-- have the providers that remain, the last one first.
pub data Pc (H : Type 0) : Type 0 where
  idle : Pc H
  booting_at : Context → (started rest : List (Provider H)) → Pc H
  rolling_at : Context → Error → List (Option Error) → List (Provider H) → Pc H
  checking : Context → Pc H
  awaiting_start : Context → Pc H
  awaiting_stop : Context → Pc H
  stopping_at : Context → List (Option Error) → List (Provider H) → Pc H
  returned : Context → Option Error → Pc H

-- The context and the errors after the answer of a provider to Shutdown.
abbrev pub stop_context : Context → Context ⊎ Error → Context
stop_context ctx (inl next) = next
stop_context ctx (inr e) = ctx

abbrev pub stop_errors : List (Option Error) → Context ⊎ Error → List (Option Error)
stop_errors errs (inl next) = errs
stop_errors errs (inr e) = errs ++ (some e ∷ [])

module _ {H : Type 0} where
  abbrev pub with_boot : Shared H → Provider H → Shared H
  with_boot m p = record m { boots = m.boots ++ (p ∷ []) }

  abbrev pub with_stop : Shared H → Provider H → Shared H
  with_stop m p = record m { stops = m.stops ++ (p ∷ []) }

  abbrev pub with_runner : Shared H → Runner H → Shared H
  with_runner m r = record m { runner = r }

pub data Move {H : Type 0} (m : Shared H) : Pc H → Shared H → Pc H → Type 0 where
  boot_refused :
      (ctx : Option Context)
      → m.runner.state ≢ state_new
      → Move m idle m (returned (normalize_context ctx) (some Error.already_started))
  boot_enter :
      (ctx : Option Context)
      → m.runner.state ≡ state_new
      → Move m idle
          (with_runner m (record m.runner { state = state_starting }))
          (booting_at (normalize_context ctx) [] m.runner.providers)
  boot_step :
      {ctx next : Context} {started rest : List (Provider H)} {p : Provider H} (reply : Reply)
      → judge booting p.name reply ≡ inl next
      → Move m
          (booting_at ctx started (p ∷ rest))
          (with_boot m p)
          (booting_at next (started ++ (p ∷ [])) rest)
  boot_fail :
      {ctx : Context} {e : Error} {started rest : List (Provider H)} {p : Provider H}
      (reply : Reply)
      → judge booting p.name reply ≡ inr e
      → Move m
          (booting_at ctx started (p ∷ rest))
          m
          (rolling_at (shutdown_context m.runner.shutdown_timeout ctx) e [] (backward started))
  boot_end :
      {ctx : Context} {started : List (Provider H)}
      → Move m
          (booting_at ctx started [])
          (with_runner m (set_started m.runner started))
          (returned ctx none)
  roll_step :
      {ctx : Context} {e : Error} {errs : List (Option Error)} {p : Provider H}
      {todo : List (Provider H)} (reply : Reply)
      → Move m (rolling_at ctx e errs (p ∷ todo)) (with_stop m p) (
          rolling_at
            (stop_context ctx (judge stopping_down p.name reply))
            e
            (stop_errors errs (judge stopping_down p.name reply))
            todo)
  roll_end :
      {ctx : Context} {e : Error} {errs : List (Option Error)}
      → Move m
          (rolling_at ctx e errs [])
          (with_runner m (set_rolled_back m.runner (join errs)))
          (returned ctx (join (some e ∷ join errs ∷ [])))
  stop_call : (ctx : Option Context) → Move m idle m (checking (normalize_context ctx))
  check_new :
      {ctx : Context} → m.runner.state ≡ state_new → Move m (checking ctx) m (returned ctx none)
  check_starting :
      {ctx : Context}
      → m.runner.state ≡ state_starting
      → Move m (checking ctx) m (awaiting_start ctx)
  check_started :
      {ctx : Context}
      → m.runner.state ≡ state_started
      → Move m
          (checking ctx)
          (with_runner m (record m.runner { state = state_stopping }))
          (stopping_at ctx [] (backward m.runner.started))
  check_stopping :
      {ctx : Context}
      → m.runner.state ≡ state_stopping
      → Move m (checking ctx) m (awaiting_stop ctx)
  check_stopped :
      {ctx : Context}
      → m.runner.state ≡ state_stopped
      → Move m (checking ctx) m (returned ctx m.runner.shutdown_err)
  wake_start :
      {ctx : Context} → m.runner.start_done ≡ true → Move m (awaiting_start ctx) m (checking ctx)
  wake_stop :
      {ctx : Context} → m.runner.stop_done ≡ true → Move m (awaiting_stop ctx) m (checking ctx)
  stop_step :
      {ctx : Context} {errs : List (Option Error)} {p : Provider H} {todo : List (Provider H)}
      (reply : Reply)
      → Move m (stopping_at ctx errs (p ∷ todo)) (with_stop m p) (
          stopping_at
            (stop_context ctx (judge stopping_down p.name reply))
            (stop_errors errs (judge stopping_down p.name reply))
            todo)
  stop_end :
      {ctx : Context} {errs : List (Option Error)}
      → Move m
          (stopping_at ctx errs [])
          (with_runner m (set_stopped m.runner (join errs)))
          (returned ctx (join errs))

-- All calls, by number.
pub record System (H : Type 0) : Type 0 where
  pub shared : Shared H
  pub pc : ℕ → Pc H

abbrev pub update : {A : Type 0} → (ℕ → A) → ℕ → A → ℕ → A
update f i a j = ite (ℕ_discrete i j) a (f j)

pub data Step {H : Type 0} (s : System H) : System H → Type 0 where
  pick :
      (i : ℕ) {m : Shared H} {p : Pc H}
      → Move s.shared (s.pc i) m p
      → Step s (record { shared = m; pc = update s.pc i p })

abbrev pub start : {H : Type 0} → Runner H → System H
start r = record { shared = record { runner = r; boots = []; stops = [] }; pc = λ i. idle }

pub data Reach {H : Type 0} (r : Runner H) : System H → Type 0 where
  here : Reach r (start r)
  further : {s t : System H} → Reach r s → Step s t → Reach r t
