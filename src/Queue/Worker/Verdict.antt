-- ===== src/Queue/Worker/Verdict.antt =====
-- What `process` of queue/worker.go does with a delivery: one settlement, by a table of cases.
use fries.Prelude.{
  ℕ, ◌≡◌, refl, subst, inl, inr, Bool, true, false, Option, none, some, [], ◌∷◌, ◌++◌, String,
  if◌then◌else◌, lookup, string_discrete, Bool-cases,
}
use fries.Prelude.Words.{lt64}
use fries.Retry.Delays.{Random}
use fries.Queue.{Task}
use fries.Queue.Faults.{
  Fault, is_discard, dead_letter_reason, retry_after_delay, error_text, handler_not_found,
  exhausted_reason,
}
use fries.Queue.Observer.{Event, handler_started, handler_succeeded, handler_failed}
use fries.Queue.Worker.{
  Handler, chain, WorkerConfig, worker_event, Deliveries, World, timeout_of, at_least_zero, observe,
  settled, ack, retry, dead_letter, back_off, retry_or, bury_or, process_handled, handled,
  process_with, process,
}

pub data Settlement : Type 0 where
  acked : Settlement
  retried : ℕ → Settlement
  buried : String → Settlement

-- The call of the delivery that settles it.
unfoldable pub settle :
    {Q D : Type 0} → Deliveries Q D → Q → Option ℕ → D → Settlement → Q × Option Fault
settle b q timeout d acked = b.ack q timeout d
settle b q timeout d (retried delay) = b.retry q timeout d delay
settle b q timeout d (buried reason) = b.dead_letter q timeout d reason

module _ {S : Type 0} (c : WorkerConfig S) (duration_text : ℕ → String) where
  -- The settlement that is due for the answer of the handler, `none` if there is no handler.
  pub data Decides (random : Random) (task : Task)
      : Option (Option Fault) → Settlement → Type 0 where
    unhandled : Decides random task none (buried handler_not_found)
    succeeded : Decides random task (some none) acked
    discarded : {e : Fault} → is_discard e ≡ true → Decides random task (some (some e)) acked
    requested :
        {e : Fault} {reason : String}
        → is_discard e ≡ false
        → dead_letter_reason e ≡ some reason
        → Decides random task (some (some e)) (buried reason)
    exhausted :
        {e : Fault}
        → is_discard e ≡ false
        → dead_letter_reason e ≡ none
        → lt64 task.attempt c.max_attempts ≡ false
        → Decides random task
            (some (some e))
            (buried (exhausted_reason (error_text duration_text e)))
    postponed :
        {e : Fault} {delay : ℕ}
        → is_discard e ≡ false
        → dead_letter_reason e ≡ none
        → lt64 task.attempt c.max_attempts ≡ true
        → retry_after_delay e ≡ some delay
        → Decides random task (some (some e)) (retried delay)
    refused :
        {e : Fault}
        → is_discard e ≡ false
        → dead_letter_reason e ≡ none
        → lt64 task.attempt c.max_attempts ≡ true
        → retry_after_delay e ≡ none
        → c.retry_if task e ≡ false
        → Decides random task (some (some e)) (buried (error_text duration_text e))
    backed_off :
        {e : Fault}
        → is_discard e ≡ false
        → dead_letter_reason e ≡ none
        → lt64 task.attempt c.max_attempts ≡ true
        → retry_after_delay e ≡ none
        → c.retry_if task e ≡ true
        → Decides random task
            (some (some e))
            (retried (at_least_zero (c.backoff random task.attempt).1))

  module _ {Q D : Type 0} (b : Deliveries Q D) where
    -- One settlement, which the table gives, and what the queue answers to it.
    pub record Settled (s : S) (q : Q) (random : Random) (task : Task) (d : D)
        (answer : Option (Option Fault)) (out : World S Q × Option Fault) : Type 0 where
      pub settlement : Settlement
      pub decided : Decides random task answer settlement
      pub host : out.0.host ≡ s
      pub queue : out.0.queue ≡ (settle b q (timeout_of c.settlement_timeout) d settlement).0
      pub error : out.1 ≡ (settle b q (timeout_of c.settlement_timeout) d settlement).1

    observe-queue : (w : World S Q) (e : Event) → (observe c w e).queue ≡ w.queue
    observe-queue w e = ap_if c.observer
      where
        ap_if :
            (o : Bool)
            → (if o then record w { events = w.events ++ (e ∷ []) } else w).queue ≡ w.queue
        ap_if true = refl
        ap_if false = refl

    observe-random : (w : World S Q) (e : Event) → (observe c w e).random ≡ w.random
    observe-random w e = ap_if c.observer
      where
        ap_if :
            (o : Bool)
            → (if o then record w { events = w.events ++ (e ∷ []) } else w).random ≡ w.random
        ap_if true = refl
        ap_if false = refl

    observe-host : (w : World S Q) (e : Event) → (observe c w e).host ≡ w.host
    observe-host w e = ap_if c.observer
      where
        ap_if :
            (o : Bool) → (if o then record w { events = w.events ++ (e ∷ []) } else w).host ≡ w.host
        ap_if true = refl
        ap_if false = refl

    settled_lem :
        (w : World S Q) (done : Event) (failed : Fault → Event) (r : Q × Option Fault)
        → ((settled c w done failed r).0.host ≡ w.host)
          × ((settled c w done failed r).0.queue ≡ r.0)
          × ((settled c w done failed r).1 ≡ r.1)
    settled_lem w done failed (q, none) = (
      observe-host (record w { queue = q }) done,
      observe-queue (record w { queue = q }) done,
      refl,
    )
    settled_lem w done failed (q, some e) = (
      observe-host (record w { queue = q }) (failed e),
      observe-queue (record w { queue = q }) (failed e),
      refl,
    )

    once :
        (w : World S Q) (random : Random) (task : Task) (d : D) (answer : Option (Option Fault))
        (v : Settlement) (done : Event) (failed : Fault → Event)
        → Decides random task answer v
        → Settled w.host w.queue random task d answer
            (settled c w done failed (settle b w.queue (timeout_of c.settlement_timeout) d v))
    once w random task d answer v done failed h =
        let (s, q, e) =
          settled_lem w done failed (settle b w.queue (timeout_of c.settlement_timeout) d v) in
        record { settlement = v; decided = h; host = s; queue = q; error = e }

    module _ (w : World S Q) (task : Task) (d : D) where
      acked-Settled :
          (random : Random) (answer : Option (Option Fault))
          → Decides random task answer acked
          → Settled w.host w.queue random task d answer (ack c b w task d)
      unfolding ack settle
      acked-Settled random answer = once w random task d answer acked _ _

      retried-Settled :
          (random : Random) (answer : Option (Option Fault)) (delay : ℕ)
          → Decides random task answer (retried delay)
          → Settled w.host w.queue random task d answer (retry c b w task d delay)
      unfolding retry settle
      retried-Settled random answer delay = once w random task d answer (retried delay) _ _

      buried-Settled :
          (random : Random) (answer : Option (Option Fault)) (reason : String)
          → Decides random task answer (buried reason)
          → Settled w.host w.queue random task d answer (dead_letter c b w task d reason)
      unfolding dead_letter settle
      buried-Settled random answer reason = once w random task d answer (buried reason) _ _

    module _ (w : World S Q) (task : Task) (d : D) (e : Fault) (keeps : is_discard e ≡ false)
        (unasked : dead_letter_reason e ≡ none) where
      abbrev answer : Option (Option Fault)
      answer = some (some e)

      back_off-Settled :
          lt64 task.attempt c.max_attempts ≡ true
          → retry_after_delay e ≡ none
          → Settled w.host w.queue w.random task d answer (back_off c duration_text b w task d e)
      unfolding back_off
      back_off-Settled l n = elim (Bool-cases (c.retry_if task e)) [
        | inl r ↦ rw r (
            retried-Settled (record w { random = (c.backoff w.random task.attempt).0 }) task d
              w.random answer _ (backed_off keeps unasked l n r))
        | inr r ↦ rw r (buried-Settled w task d w.random answer _ (refused keeps unasked l n r))
      ]

      retry_or-Settled :
          (o : Option ℕ)
          → lt64 task.attempt c.max_attempts ≡ true
          → retry_after_delay e ≡ o
          → Settled w.host w.queue w.random task d answer (retry_or c duration_text b w task d e o)
      retry_or-Settled (some delay) l n =
          retried-Settled w task d w.random answer delay (postponed keeps unasked l n)
      retry_or-Settled none l n = back_off-Settled l n

      unasked-Settled :
          Settled w.host w.queue w.random task d answer (bury_or c duration_text b w task d e none)
      unasked-Settled = elim (Bool-cases (lt64 task.attempt c.max_attempts)) [
        | inl l ↦ rw l (retry_or-Settled (retry_after_delay e) l refl)
        | inr l ↦ rw l (buried-Settled w task d w.random answer _ (exhausted keeps unasked l))
      ]

    bury_or-Settled :
        (w : World S Q) (task : Task) (d : D) (e : Fault) (o : Option String)
        → is_discard e ≡ false
        → dead_letter_reason e ≡ o
        → Settled w.host w.queue w.random task d
            (some (some e))
            (bury_or c duration_text b w task d e o)
    bury_or-Settled w task d e (some reason) k n =
        buried-Settled w task d w.random (some (some e)) reason (requested k n)
    bury_or-Settled w task d e none k n = unasked-Settled w task d e k n

    -- The events before the settlement do not touch the queue.
    under :
        (w w' : World S Q) (task : Task) (d : D) (answer : Option (Option Fault))
        (out : World S Q × Option Fault)
        → w'.host ≡ w.host
        → w'.queue ≡ w.queue
        → w'.random ≡ w.random
        → Settled w'.host w'.queue w'.random task d answer out
        → Settled w.host w.queue w.random task d answer out
    under w w' task d answer out g e f s =
        subst (λ h. Settled h w.queue w.random task d answer out) g
          (subst (λ q. Settled w'.host q w.random task d answer out) e
            (subst (λ r. Settled w'.host w'.queue r task d answer out) f s))

    under_event :
        (w : World S Q) (event : Event) (task : Task) (d : D) (answer : Option (Option Fault))
        (out : World S Q × Option Fault)
        → Settled
            (observe c w event).host
            (observe c w event).queue
            (observe c w event).random
            task
            d
            answer
            out
        → Settled w.host w.queue w.random task d answer out
    under_event w event task d answer out =
        under w (observe c w event) task d answer out (observe-host w event) (observe-queue w event)
          (observe-random w event)

    process_handled-Settled :
        (w : World S Q) (task : Task) (d : D) (error : Option Fault)
        → Settled w.host w.queue w.random task d
            (some error)
            (process_handled c duration_text b w task d error)
    unfolding process_handled
    process_handled-Settled w task d none =
        under_event w (worker_event c handler_succeeded task) task d (some none) _
          (acked-Settled _ task d _ (some none) succeeded)
    process_handled-Settled w task d (some e) =
        let event : Event = record (worker_event c handler_failed task) { error = some e } in
        let w' : World S Q = observe c w event in
        under_event w event task d (some (some e)) _ (elim (Bool-cases (is_discard e)) [
          | inl k ↦ rw k (acked-Settled w' task d w'.random (some (some e)) (discarded k))
          | inr k ↦ rw k (bury_or-Settled w' task d e (dead_letter_reason e) k refl)
        ])

    -- What the handler makes of the task, and what it answers.
    abbrev pub run_handler : S → Task → Option (Handler S) → S × Option (Option Fault)
    run_handler s task none = (s, none)
    run_handler s task (some handler) =
        let (s', e) = chain handler c.middleware (timeout_of c.handler_timeout) s task in
        (s', some e)

    handled-Settled :
        (w : World S Q) (task : Task) (d : D) (r : S × Option Fault)
        → Settled r.0 w.queue w.random task d (some r.1) (handled c duration_text b w task d r)
    handled-Settled w task d (s, e) = process_handled-Settled (record w { host = s }) task d e

    process_with-Settled :
        (w : World S Q) (task : Task) (d : D) (o : Option (Handler S))
        → Settled
            (run_handler w.host task o).0
            w.queue
            w.random
            task
            d
            (run_handler w.host task o).1
            (process_with c duration_text b w task d o)
    unfolding process_with
    process_with-Settled w task d none = buried-Settled w task d w.random none _ unhandled
    process_with-Settled w task d (some handler) =
        let event = worker_event c handler_started task in
        let r = chain handler c.middleware (timeout_of c.handler_timeout) w.host task in
        let out = handled c duration_text b (observe c w event) task d r in
        subst (λ q. Settled r.0 q w.random task d (some r.1) out) (observe-queue w event)
          (subst (λ x. Settled r.0 (observe c w event).queue x task d (some r.1) out)
            (observe-random w event) (handled-Settled (observe c w event) task d r))

    -- A worker settles each delivery exactly once: it runs the handler of the task's type, through the
    -- middleware, once, and makes one call of Ack, Retry or DeadLetter. The call is the one that the
    -- table of Decides gives for what the handler answered; the queue it leaves and the error it gives
    -- are what the worker leaves and returns, with or without an observer.
    pub process-Settled :
        (w : World S Q) (task : Task) (d : D)
        → Settled
            (run_handler w.host task (lookup string_discrete task.type_ c.handlers)).0
            w.queue
            w.random
            task
            d
            (run_handler w.host task (lookup string_discrete task.type_ c.handlers)).1
            (process c duration_text b w task d)
    unfolding process
    process-Settled w task d =
        process_with-Settled w task d (lookup string_discrete task.type_ c.handlers)
