-- ===== src/Queue/Worker/OverMemory.antt =====
-- Workers of queue/worker.go over the queue of queue/adapter/memory/queue.go, any number at once.
--
-- A step is a call of Enqueue, a look of a consumer that takes a task, or a worker that handles a task
-- which it was given. Between a look and the handling anything may happen; the tasks that are being
-- handled are `flying`. The clock, the contexts and what handlers do are any.
use fries.Prelude.{
  ℕ, suc, ◌+◌, ◌-◌, ◌*◌, ◌≤◌, ◌<◌, ◌≡◌, Option, some, List, [], ◌∷◌, ◌++◌, String, All,
}
use fries.Prelude.Words.{half_word}
use fries.Queue.{Task}
use fries.Queue.Faults.{fault_of}
use fries.Queue.Memory
use fries.Queue.Memory.{Queue, next}
use fries.Queue.Pending.{Holds, weight_of, sum}
use fries.Queue.Worker.{WorkerConfig, Deliveries, World, process}

-- The deliveries of the memory adapter, with the clock and what the contexts of the settlement answer.
unfoldable pub memory_deliveries : ℕ → (ℕ → Option String) → Deliveries Queue Task
memory_deliveries now ctx = record {
  task = some;
  ack = λ q timeout d. (q, fault_of (Memory.ack ctx));
  retry = λ q timeout d delay. (
    (Memory.retry q ctx now (some d) delay).0,
    fault_of (Memory.retry q ctx now (some d) delay).1,
  );
  dead_letter = λ q timeout d reason.
      ((Memory.bury q ctx (some d) reason).0, fault_of (Memory.bury q ctx (some d) reason).1);
}

pub record State (S : Type 0) : Type 0 where
  pub world : World S Queue
  pub flying : List Task
  -- The tasks that were enqueued, and the deliveries so far.
  pub sent : ℕ
  pub deliveries : ℕ

pub data Step {S : Type 0} (c : WorkerConfig S) (duration_text : ℕ → String) (s : State S)
    : State S → Type 0 where
  send :
      (ctx : ℕ → Option String) (t : Task)
      → t.attempt ≡ 0
      → Step c duration_text s (record s {
        world = record s.world { queue = (Memory.enqueue s.world.queue ctx (some t)).0 };
        sent = suc s.sent;
      })
  look :
      (now wait : ℕ) (name : String) (q : Queue) (t : Task)
      → next s.world.queue now name ≡ (q, some t, wait)
      → Step c duration_text s (record s {
        world = record s.world { queue = q };
        flying = s.flying ++ (t ∷ []);
        deliveries = suc s.deliveries;
      })
  work :
      (now : ℕ) (ctx : ℕ → Option String) (front : List Task) (t : Task) (back : List Task)
      → s.flying ≡ front ++ (t ∷ back)
      → Step c duration_text s (record s {
        world = (process c duration_text (memory_deliveries now ctx) s.world t t).0;
        flying = front ++ back;
      })
  -- Others change the host.
  elsewhere : (h : S) → Step c duration_text s (record s { world = record s.world { host = h } })

abbrev pub begin : {S : Type 0} → World S Queue → State S
begin w = record {
  world = record w { queue = Memory.new_queue };
  flying = [];
  sent = 0;
  deliveries = 0;
}

pub data Reach {S : Type 0} (c : WorkerConfig S) (duration_text : ℕ → String) (w : World S Queue)
    : State S → Type 0 where
  here : Reach c duration_text w (begin w)
  further :
      {s t : State S}
      → Reach c duration_text w s
      → Step c duration_text s t
      → Reach c duration_text w t

module _ {S : Type 0} (c : WorkerConfig S) (duration_text : ℕ → String)
    (some_attempt : 0 < c.max_attempts) (few : c.max_attempts < half_word) where
  -- The deliveries that a task with this many attempts may still have.
  abbrev credit : ℕ → ℕ
  credit a = c.max_attempts - a

  abbrev Left : ℕ → Type 0
  Left a = a < c.max_attempts

  record Bounded (s : State S) : Type 0 where
    pending : Holds credit Left s.world.queue
    flying : All (λ t. t.attempt ≤ c.max_attempts) s.flying
    budget :
        s.deliveries + (weight_of credit Left s.world.queue + sum (λ t. credit t.attempt) s.flying)
        ≤ c.max_attempts * s.sent

  -- A settlement puts the task back only if it has attempts left.
  abbrev Settles : Queue → Task → Queue → Type 0
  Settles q t q' =
      (weight_of credit Left q' ≤ weight_of credit Left q + credit t.attempt)
      × (Holds credit Left q → Holds credit Left q')
