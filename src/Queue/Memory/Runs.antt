-- ===== src/Queue/Memory/Runs.antt =====
-- Runs of enqueues and deliveries over queue/adapter/memory/queue.go: first in, first out.
use fries.Prelude.{
  ℕ, ◌≤◌, ◌≡◌, refl, ◌∙◌, ap, Option, none, some, List, [], ◌∷◌, ◌++◌, String, All, lookup,
  lookup-insert, ite, string_discrete,
}
use fries.Queue.{Task, or_default}
use fries.Queue.Memory.{Queue, tasks_of, tasks_at, store_task, signal, enqueue, next}

-- A call of Enqueue on a live context, or a look of a consumer of the named queue at a time.
pub data Event : Type 0 where
  sends : Task → Event
  looks : ℕ → String → Event

abbrev pub live : ℕ → Option String
live n = none

-- The task as Enqueue stores it.
abbrev pub stored : Task → Task
stored t = record t { queue = or_default t.queue }

-- The tasks that the events deliver from the named queue, and the queue they leave.
abbrev pub taken_by : Option Task → List Task → List Task
taken_by none ts = ts
taken_by (some t) ts = t ∷ ts

unfoldable pub run : String → Queue → List Event → List Task × Queue
run name q [] = ([], q)
run name q (sends t ∷ es) = run name (enqueue q live (some t)).0 es
run name q (looks now n ∷ es) =
    let (q', task, wait) = next q now n in
    let (ts, q'') = run name q' es in (ite (string_discrete n name) (taken_by task ts) ts, q'')

-- The tasks that the events send to the named queue.
unfoldable pub sent : String → List Event → List Task
sent name [] = []
sent name (sends t ∷ es) =
    let ts = sent name es in ite (string_discrete (or_default t.queue) name) (stored t ∷ ts) ts
sent name (looks now n ∷ es) = sent name es

-- Every task sent to the queue is available at the time, and every look at it comes no earlier.
abbrev pub Due : ℕ → String → List Event → Type 0
Due ready name [] = Unit
Due ready name (sends t ∷ es) = (t.available_at ≤ ready) × Due ready name es
Due ready name (looks now n ∷ es) = (ready ≤ now) × Due ready name es

abbrev pub Ready : ℕ → List Task → Type 0
Ready ready = All (λ t. t.available_at ≤ ready)

tasks_at-ite :
    {P : Type 0} (d : Dec P) (ts : List Task) (m : Option (List Task))
    → tasks_at (ite d (some ts) m) ≡ ite d ts (tasks_at m)
tasks_at-ite (yes p) ts m = refl
tasks_at-ite (no n) ts m = refl

store_lem :
    (q : Queue) (t : Task) (name : String)
    → tasks_of (store_task q t).queues name
      ≡ ite
          (string_discrete t.queue name)
          (tasks_of q.queues t.queue ++ (t ∷ []))
          (tasks_of q.queues name)
unfolding store_task signal
store_lem q t name =
    ap tasks_at
      (lookup-insert string_discrete t.queue name (tasks_of q.queues t.queue ++ (t ∷ [])) q.queues)
    ∙ tasks_at-ite (string_discrete t.queue name) _ (lookup string_discrete name q.queues)

pub enqueue_lem :
    (q : Queue) (t : Task) (name : String)
    → tasks_of (enqueue q live (some t)).0.queues name
      ≡ ite
          (string_discrete (or_default t.queue) name)
          (tasks_of q.queues (or_default t.queue) ++ (stored t ∷ []))
          (tasks_of q.queues name)
unfolding enqueue
enqueue_lem q t name = store_lem q (stored t) name
