-- ===== src/Queue/Producer.antt =====
-- queue/producer.go and the options of queue/option.go: tasks are made and stored.
--
-- The queue is a state `Q` with the function that stores a task; a context given to it shows in its
-- answer. The clock and the random ID are arguments. `with_observer` says whether the observer is not
-- nil: it is told the events, and the context that it may return is not modelled.
pub mod Settings
pub mod Delivered
mod Tests
use fries.Prelude.{
  ℕ, ◌+◌, Bool, true, false, Option, none, some, List, [], ◌∷◌, ◌++◌, String, if◌then◌else◌, ite,
  insert, string_discrete, ◌⊎◌, inl, inr,
}
use fries.Prelude.Words.{nonpos64}
use fries.Queue.{Task, default_queue, or_default}
use fries.Queue.Faults.{Fault, invalid_task_type, producer_is_nil}
use fries.Queue.Observer.{
  Event, EventKind, enqueue_started, enqueued, enqueue_failed, unspecified, task_info,
}

abbrev pub Metadata : Type 0
Metadata = List (String × String)

-- `maps.Copy`.
unfoldable pub copy_into : Metadata → Metadata → Metadata
copy_into m [] = m
copy_into m (e ∷ es) = copy_into (insert string_discrete e.0 e.1 m) es

pub record EnqueueConfig : Type 0 where
  pub id : String
  pub queue : String
  pub metadata : Metadata
  pub delay : ℕ

-- The options of Enqueue; with_queue and with_metadata are those of option.go.
pub data EnqueueOption : Type 0 where
  with_id : String → EnqueueOption
  with_metadata_value : (key value : String) → EnqueueOption
  with_delay : ℕ → EnqueueOption
  with_queue : String → EnqueueOption
  with_metadata : Metadata → EnqueueOption

-- `name` unless it is empty, where the name in place stays.
abbrev pub named : String → String → String
named current name = ite (string_discrete name "") current name

unfoldable pub apply_enqueue : EnqueueConfig → EnqueueOption → EnqueueConfig
unfolding copy_into nonpos64
apply_enqueue c (with_id id) = record c { id = id }
apply_enqueue c (with_metadata_value key value) = record c {
  metadata = insert string_discrete key value c.metadata;
}
apply_enqueue c (with_delay delay) = if nonpos64 delay then c else record c { delay = delay }
apply_enqueue c (with_queue name) = record c { queue = named c.queue name }
apply_enqueue c (with_metadata metadata) = record c { metadata = copy_into c.metadata metadata }

unfoldable pub apply_enqueue_all : EnqueueConfig → List EnqueueOption → EnqueueConfig
unfolding apply_enqueue
apply_enqueue_all c [] = c
apply_enqueue_all c (o ∷ os) = apply_enqueue_all (apply_enqueue c o) os

-- `new_id` is what newID draws.
unfoldable pub new_enqueue_config : String → String → Metadata → List EnqueueOption → EnqueueConfig
unfolding apply_enqueue_all or_default
new_enqueue_config new_id queue_name metadata opts =
    let c =
      apply_enqueue_all
        (record { id = ""; queue = or_default queue_name; metadata = metadata; delay = 0 }) opts in
    record c { id = ite (string_discrete c.id "") new_id c.id }

pub record Producer : Type 0 where
  pub queue_name : String
  pub metadata : Metadata
  pub observer : Bool

pub data ProducerOption : Type 0 where
  with_queue : String → ProducerOption
  with_observer : Bool → ProducerOption
  with_metadata : Metadata → ProducerOption

unfoldable pub apply_producer : Producer → ProducerOption → Producer
unfolding copy_into
apply_producer p (with_queue name) = record p { queue_name = named p.queue_name name }
apply_producer p (with_observer observer) = record p { observer = observer }
apply_producer p (with_metadata metadata) = record p { metadata = copy_into p.metadata metadata }

unfoldable pub apply_producer_all : Producer → List ProducerOption → Producer
unfolding apply_producer
apply_producer_all p [] = p
apply_producer_all p (o ∷ os) = apply_producer_all (apply_producer p o) os

unfoldable pub new_producer : List ProducerOption → Producer
unfolding apply_producer_all
new_producer =
    apply_producer_all (record { queue_name = default_queue; metadata = []; observer = false })

-- A queue's Enqueue.
abbrev pub Store : Type 0 → Type 0
Store Q = Q → Option Task → Q × Option Fault

pub record Produced (Q : Type 0) : Type 0 where
  pub queue : Q
  pub events : List Event
  pub task : Option Task
  pub error : Option Fault

-- What is drawn from outside: the ID and the clock.
pub record Draws : Type 0 where
  pub id : String
  pub now : ℕ

unfoldable pub new_task : EnqueueConfig → ℕ → String → List ℕ → Task
new_task c now task_type payload = record {
  id = c.id;
  type_ = task_type;
  queue = c.queue;
  payload = payload;
  metadata = c.metadata;
  attempt = 0;
  created_at = now;
  available_at = now + c.delay;
}

abbrev pub told : Producer → List Event → List Event
told p events = if p.observer then events else []

abbrev pub event : EventKind → Task → ℕ → Option Fault → Event
event kind task delay error = record {
  kind = kind;
  queue = task.queue;
  consumer_name = "";
  task = task_info (some task);
  settlement = unspecified;
  delay = delay;
  reason = "";
  error = error;
}

module _ {Q : Type 0} where
  -- `Producer.Enqueue` after the queue has answered.
  abbrev pub produced : Producer → Task → ℕ → Q × Option Fault → Produced Q
  produced p task delay (q, none) = record {
    queue = q;
    events = told p (event enqueue_started task delay none ∷ event enqueued task delay none ∷ []);
    task = some task;
    error = none;
  }
  produced p task delay (q, some e) = record {
    queue = q;
    events =
        told p
          (event enqueue_started task delay none ∷ event enqueue_failed task delay (some e) ∷ []);
    task = none;
    error = some e;
  }

  abbrev pub rejected : Q → Fault → Produced Q
  rejected q e = record { queue = q; events = []; task = none; error = some e }

  unfoldable pub enqueue :
      Producer → Store Q → Q → Draws → String → List ℕ → List EnqueueOption → Produced Q
  unfolding new_enqueue_config new_task
  enqueue p store q draws task_type payload opts =
      let c = new_enqueue_config draws.id p.queue_name p.metadata opts in
      let task = new_task c draws.now task_type payload in
      ite (string_discrete task_type "") (rejected q invalid_task_type)
        (produced p task c.delay (store q (some task)))

  -- With the payload encoded, or the codec's error.
  unfoldable pub enqueue_data :
      Producer → Store Q → Q → Draws → String → List ℕ ⊎ Fault → List EnqueueOption → Produced Q
  unfolding enqueue
  enqueue_data p store q draws task_type (inl bytes) opts =
      enqueue p store q draws task_type bytes opts
  enqueue_data p store q draws task_type (inr e) opts = rejected q e

-- `codec.Marshal` of a codec; a nil codec is the default one.
abbrev pub Marshal : Type 0 → Type 0
Marshal A = A → List ℕ ⊎ Fault

abbrev pub chosen : {A : Type 0} → Marshal A → Option (Marshal A) → Marshal A
chosen default_codec none = default_codec
chosen default_codec (some codec) = codec

module _ {Q A : Type 0} where
  -- `EnqueueForWithCodec`; a nil producer is `none`.
  unfoldable pub enqueue_for :
      Marshal A
      → Option Producer
      → Store Q
      → Q
      → Draws
      → String
      → A
      → Option (Marshal A)
      → List EnqueueOption
      → Produced Q
  unfolding enqueue_data
  enqueue_for default_codec none store q draws task_type payload codec opts =
      rejected q producer_is_nil
  enqueue_for default_codec (some p) store q draws task_type payload codec opts =
      enqueue_data p store q draws task_type (chosen default_codec codec payload) opts
