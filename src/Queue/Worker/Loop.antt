-- ===== src/Queue/Worker/Loop.antt =====
-- The loop of a worker, queue/worker.go: it receives deliveries and processes them until it is stopped.
--
-- A round is one turn of the loop, with what its contexts answer. `running` is a loop that goes on
-- after the rounds given.
use fries.Prelude.{
  ℕ, ◌≡◌, refl, subst, inl, inr, Bool, true, false, ◌&&◌, ◌||◌, Option, none, some, List, [], ◌∷◌,
  String, if◌then◌else◌, All, Bool-cases,
}
use fries.Queue.{Task}
use fries.Queue.Faults.{Fault, is_stop_error, is_consumer_closed}
use fries.Queue.Observer.{task_received}
use fries.Queue.Worker.{WorkerConfig, Deliveries, World, worker_event, observe, process}

-- What a queue's consumers do.
pub record Consumers (Q D : Type 0) : Type 0 where
  pub new_consumer : Q → Q × Option Fault
  pub receive : Q → Q × Option D × Option Fault
  pub close : Q → Q

pub record Round : Type 0 where
  -- `<-pollCtx.Done()` is ready, `pollCtx.Err()` after a failed receive, `runCtx.Err()` after a failed
  -- process: whether there is one.
  pub poll_done : Bool
  pub poll_failed : Bool
  pub run_failed : Bool

pub data Progress : Type 0 where
  running : Progress
  ended : Option Fault → Progress

-- `isNormalStopError`, given whether the context has an error.
unfoldable pub is_normal_stop_error : Bool → Fault → Bool
unfolding is_stop_error is_consumer_closed
is_normal_stop_error failed e = is_stop_error e || (is_consumer_closed e && failed)

module _ {S Q D : Type 0} (c : WorkerConfig S) (duration_text : ℕ → String)
    (b : Deliveries Q D) where
  -- After `process`.
  unfoldable pub processed :
      Round → (World S Q → World S Q × Progress) → World S Q × Option Fault → World S Q × Progress
  unfolding is_stop_error
  processed round next (w, none) = next w
  processed round next (w, some e) =
      (w, ended (if round.run_failed && is_stop_error e then none else some e))

  -- A delivery with its task.
  unfoldable pub accept :
      Round
      → (World S Q → World S Q × Progress)
      → World S Q
      → D
      → Option Task
      → World S Q × Progress
  unfolding processed process
  accept round next w d none = next w
  accept round next w d (some task) =
      processed round next
        (process c duration_text b (observe c w (worker_event c task_received task)) task d)

  -- After `Receive`.
  unfoldable pub received :
      Round
      → (World S Q → World S Q × Progress)
      → World S Q
      → Q × Option D × Option Fault
      → World S Q × Progress
  unfolding accept is_normal_stop_error
  received round next w (q, d, some e) = (
    record w { queue = q },
    ended (if is_normal_stop_error round.poll_failed e then none else some e),
  )
  received round next w (q, none, none) = next (record w { queue = q })
  received round next w (q, some d, none) = accept round next (record w { queue = q }) d (b.task d)

  unfoldable pub loop_rounds : Consumers Q D → World S Q → List Round → World S Q × Progress
  unfolding received
  loop_rounds consumer w [] = (w, running)
  loop_rounds consumer w (round ∷ rounds) =
      let go = received round (λ w'. loop_rounds consumer w' rounds) w (consumer.receive w.queue) in
      if round.poll_done then (w, ended none) else go

  -- The deferred Close of the consumer.
  abbrev pub closed : Consumers Q D → World S Q × Progress → World S Q × Progress
  closed consumer (w, running) = (w, running)
  closed consumer (w, ended e) = (record w { queue = consumer.close w.queue }, ended e)

  abbrev pub opened :
      Consumers Q D → World S Q → Bool → List Round → Q × Option Fault → World S Q × Progress
  opened consumer w poll_failed rounds (q, some e) =
      (record w { queue = q }, ended (if is_normal_stop_error poll_failed e then none else some e))
  opened consumer w poll_failed rounds (q, none) =
      closed consumer (loop_rounds consumer (record w { queue = q }) rounds)

  -- `loop`; the context may have an error when NewConsumer fails.
  unfoldable pub loop : Consumers Q D → World S Q → Bool → List Round → World S Q × Progress
  unfolding loop_rounds is_normal_stop_error
  loop consumer w poll_failed rounds =
      opened consumer w poll_failed rounds (consumer.new_consumer w.queue)

-- The loop has not ended with the error of a context.
abbrev Clean : Progress → Type 0
Clean running = Unit
Clean (ended none) = Unit
Clean (ended (some e)) = is_stop_error e ≡ false

kept-Clean :
    (stop : Bool) (e : Fault)
    → (is_stop_error e ≡ true → stop ≡ true)
    → Clean (ended (if stop then none else some e))
kept-Clean true e h = tt
kept-Clean false e h = elim (Bool-cases (is_stop_error e)) [
  | inl s ↦ let no = h s in cc
  | inr s ↦ s
]

normal-Clean :
    (failed : Bool) (e : Fault)
    → Clean (ended (if is_normal_stop_error failed e then none else some e))
unfolding is_normal_stop_error
normal-Clean failed e = kept-Clean (is_normal_stop_error failed e) e (λ s. rw s refl)

module _ {S Q D : Type 0} (c : WorkerConfig S) (duration_text : ℕ → String) (b : Deliveries Q D)
    (consumer : Consumers Q D) where
  processed-Clean :
      (round : Round) (next : World S Q → World S Q × Progress) (r : World S Q × Option Fault)
      → round.run_failed ≡ true
      → ((w : World S Q) → Clean (next w).1)
      → Clean (processed c duration_text b round next r).1
  unfolding processed
  processed-Clean round next (w, none) f h = h w
  processed-Clean round next (w, some e) f h =
      kept-Clean (round.run_failed && is_stop_error e) e (λ s. rw (f, s) refl)

  accept-Clean :
      (round : Round) (next : World S Q → World S Q × Progress) (w : World S Q) (d : D)
      (o : Option Task)
      → round.run_failed ≡ true
      → ((w' : World S Q) → Clean (next w').1)
      → Clean (accept c duration_text b round next w d o).1
  unfolding accept
  accept-Clean round next w d none f h = h w
  accept-Clean round next w d (some task) f h = processed-Clean round next _ f h

  received-Clean :
      (round : Round) (next : World S Q → World S Q × Progress) (w : World S Q)
      (r : Q × Option D × Option Fault)
      → round.run_failed ≡ true
      → ((w' : World S Q) → Clean (next w').1)
      → Clean (received c duration_text b round next w r).1
  unfolding received
  received-Clean round next w (q, d, some e) f h = normal-Clean round.poll_failed e
  received-Clean round next w (q, none, none) f h = h _
  received-Clean round next w (q, some d, none) f h = accept-Clean round next _ d (b.task d) f h

  loop_rounds-Clean :
      (w : World S Q) (rounds : List Round)
      → All (λ r. r.run_failed ≡ true) rounds
      → Clean (loop_rounds c duration_text b consumer w rounds).1
  unfolding loop_rounds
  loop_rounds-Clean w [] f = tt
  loop_rounds-Clean w (round ∷ rounds) f = elim (Bool-cases round.poll_done) [
    | inl e ↦ rw e tt
    | inr e ↦ rw e (
        received-Clean round (λ w'. loop_rounds c duration_text b consumer w' rounds) w
          (consumer.receive w.queue) f.0 (λ w'. loop_rounds-Clean w' rounds f.1))
  ]

  closed-Clean :
      (r : World S Q × Progress) → Clean r.1 → Clean (closed c duration_text b consumer r).1
  closed-Clean (w, running) h = h
  closed-Clean (w, ended e) h = h

  opened-Clean :
      (w : World S Q) (failed : Bool) (rounds : List Round) (r : Q × Option Fault)
      → All (λ x. x.run_failed ≡ true) rounds
      → Clean (opened c duration_text b consumer w failed rounds r).1
  opened-Clean w failed rounds (q, some e) f = normal-Clean failed e
  opened-Clean w failed rounds (q, none) f =
      closed-Clean _ (loop_rounds-Clean (record w { queue = q }) rounds f)

  -- Once the context of Run is cancelled, a worker's loop does not report that as an error: the error
  -- that it ends with, if any, is not context.Canceled or context.DeadlineExceeded, nor does it wrap
  -- one, wherever it came from: NewConsumer, Receive, or the settlement of a delivery.
  pub loop_errors :
      (w : World S Q) (failed : Bool) (rounds : List Round) (e : Fault)
      → All (λ r. r.run_failed ≡ true) rounds
      → (loop c duration_text b consumer w failed rounds).1 ≡ ended (some e)
      → is_stop_error e ≡ false
  unfolding loop
  loop_errors w failed rounds e f k =
      subst Clean k (opened-Clean w failed rounds (consumer.new_consumer w.queue) f)
