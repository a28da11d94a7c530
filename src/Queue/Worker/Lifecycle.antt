-- ===== src/Queue/Worker/Lifecycle.antt =====
-- Run and Stop of queue/worker.go: which call of Run holds the worker, and what Run returns.
--
-- A call of Run has a number, that of the channel it makes. The loops that it starts run at once; what
-- they make of the world, and what they return in the order in which they end, is given.
use fries.Prelude.{
  ℕ, ◌≡◌, refl, sym, ap, ◌∙◌, subst, Bool, true, false, Option, none, some, List, [], ◌∷◌, ◌++◌,
  ite, if_pos, ℕ_discrete,
}
use fries.Queue.Faults.{Fault, already_running}
use fries.Queue.Observer.{Event, EventKind, worker_started, worker_stopped, unspecified, task_info}
use fries.Queue.Worker.{WorkerConfig, World, observe}

-- The fields of Worker that its lock guards, by the channel `done`; `closed` lists those closed.
pub record Worker : Type 0 where
  pub done : Option ℕ
  pub closed : List ℕ

-- `start`: the worker, and whether the call of Run goes on.
abbrev pub start_at : Option ℕ → Worker → ℕ → Worker × Bool
start_at (some held) w done = (w, false)
start_at none w done = (record w { done = some done }, true)

unfoldable pub start : Worker → ℕ → Worker × Bool
start w done = start_at w.done w done

abbrev pub released : Option ℕ → ℕ → Option ℕ
released none done = none
released (some held) done = ite (ℕ_discrete held done) none (some held)

unfoldable pub finish : Worker → ℕ → Worker
finish w done = record w { done = released w.done done; closed = done ∷ w.closed }

-- `Stop`: the channel that it waits for, none if no Run is under way.
abbrev pub stop : Worker → Option ℕ
stop w = w.done

-- What `errs` gives first: the error of the loop that ended first with one.
unfoldable pub first_error : List (Option Fault) → Option Fault
first_error [] = none
first_error (none ∷ es) = first_error es
first_error (some e ∷ es) = some e

abbrev pub lifecycle_event : {S : Type 0} → WorkerConfig S → EventKind → Option Fault → Event
lifecycle_event c kind error = record {
  kind = kind;
  queue = c.queue;
  consumer_name = c.consumer_name;
  task = task_info none;
  settlement = unspecified;
  delay = 0;
  reason = "";
  error = error;
}

module _ {S Q : Type 0} (c : WorkerConfig S) where
  -- `Run` after `start`.
  unfoldable pub run_started :
      (World S Q → World S Q × List (Option Fault))
      → World S Q
      → ℕ
      → Worker × Bool
      → Worker × World S Q × Option Fault
  unfolding finish first_error task_info
  run_started loops w done (worker, false) = (worker, w, some already_running)
  run_started loops w done (worker, true) =
      let (w', errs) = loops (observe c w (lifecycle_event c worker_started none)) in
      (
        finish worker done,
        observe c w' (lifecycle_event c worker_stopped (first_error errs)),
        first_error errs,
      )

  unfoldable pub run :
      Worker
      → (World S Q → World S Q × List (Option Fault))
      → World S Q
      → ℕ
      → Worker × World S Q × Option Fault
  unfolding run_started start
  run worker loops w done = run_started loops w done (start worker done)

-- Calls of Run, in time: the worker, and the calls that are between `start` and `finish`.
pub record System : Type 0 where
  pub worker : Worker
  pub active : List ℕ

pub data Step (s : System) : System → Type 0 where
  enters :
      (done : ℕ) (worker : Worker)
      → start s.worker done ≡ (worker, true)
      → Step s (record { worker = worker; active = done ∷ s.active })
  refused : (done : ℕ) → (start s.worker done).1 ≡ false → Step s s
  leaves :
      (front : List ℕ) (done : ℕ) (back : List ℕ)
      → s.active ≡ front ++ (done ∷ back)
      → Step s (record { worker = finish s.worker done; active = front ++ back })

abbrev pub new_system : System
new_system = record { worker = record { done = none; closed = [] }; active = [] }

pub data Reach : System → Type 0 where
  here : Reach new_system
  further : {s t : System} → Reach s → Step s t → Reach t

-- No call is active and the worker is free, or one is and the worker has its channel.
abbrev pub IsHeld : Option ℕ → List ℕ → Type 0
IsHeld none active = active ≡ []
IsHeld (some k) active = active ≡ k ∷ []

started :
    (o : Option ℕ) (w w' : Worker) (done : ℕ)
    → start_at o w done ≡ (w', true)
    → (o ≡ none) × (w'.done ≡ some done)
started (some held) w w' done e = let no : ◌≡◌ {A = Bool} false true = ap (λ r. r.1) e in cc
started none w w' done e = (refl, ap (λ r. r.0.done) (sym e))

-- The only call leaves.
left :
    (k : ℕ) (front : List ℕ) (done : ℕ) (back : List ℕ)
    → k ∷ [] ≡ front ++ (done ∷ back)
    → (k ≡ done) × (front ++ back ≡ [])
left k [] done back e = (cc, cc)
left k (f ∷ []) done back e = cc
left k (f ∷ g ∷ front) done back e = cc

leaves-IsHeld :
    (o : Option ℕ) (active front : List ℕ) (done : ℕ) (back : List ℕ)
    → IsHeld o active
    → active ≡ front ++ (done ∷ back)
    → IsHeld (released o done) (front ++ back)
leaves-IsHeld none active [] done back h e = let no = sym h ∙ e in cc
leaves-IsHeld none active (f ∷ front) done back h e = let no = sym h ∙ e in cc
leaves-IsHeld (some k) active front done back h e =
    let (same, rest) = left k front done back (sym h ∙ e) in
    subst (λ o. IsHeld o (front ++ back)) (sym (if_pos (ℕ_discrete k done) same none (some k))) rest

Step-IsHeld :
    {s t : System} → Step s t → IsHeld s.worker.done s.active → IsHeld t.worker.done t.active
unfolding start finish
Step-IsHeld {s} (enters done worker e) h =
    let (free, held) = started s.worker.done s.worker worker done e in
    subst (λ o. IsHeld o (done ∷ s.active)) (sym held)
      (ap (◌∷◌ done) (subst (λ o. IsHeld o s.active) free h))
Step-IsHeld (refused done e) h = h
Step-IsHeld {s} (leaves front done back e) h =
    leaves-IsHeld s.worker.done s.active front done back h e

-- However calls of Run begin and end, at most one is active at any time, and `done` tells it: a worker
-- without a channel has no active call, so a new call may start and Stop returns at once; a worker with
-- one has exactly the call whose channel it is, the one that Stop waits for.
pub Reach-IsHeld : {s : System} → Reach s → IsHeld (stop s.worker) s.active
Reach-IsHeld here = refl
Reach-IsHeld (further h st) = Step-IsHeld st (Reach-IsHeld h)
