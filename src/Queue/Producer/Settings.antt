-- ===== src/Queue/Producer/Settings.antt =====
-- The task that `Producer.Enqueue` of queue/producer.go makes: for each setting the last option counts.
use fries.Prelude.{
  ℕ, ◌+◌, ◌≡◌, ◌≢◌, refl, sym, ap, ◌∙◌, Option, none, some, List, [], ◌∷◌, String, if◌then◌else◌,
  ite, insert, lookup, lookup-insert, string_discrete, ◌⊎◌, inl, inr, arith, subst,
}
use fries.Prelude.Words.{nonpos64}
use mathlib.Core.Option.{some-injective}
use fries.Queue.{Task, or_default}
use fries.Queue.Faults.{Fault, or_else, invalid_task_type}
use fries.Queue.Producer.{
  Metadata, copy_into, EnqueueConfig, EnqueueOption, with_id, with_metadata_value, with_delay,
  with_queue, with_metadata, apply_enqueue, apply_enqueue_all, new_enqueue_config, Producer, Store,
  Draws, new_task, produced, rejected, enqueue,
}

abbrev pub get : {V : Type 0} → Option V → V → V
get none v = v
get (some v) w = v

-- What the last option says of a setting.
unfoldable pub last : {W : Type 0} → (EnqueueOption → Option W) → List EnqueueOption → Option W
last f [] = none
last f (o ∷ os) = or_else (last f os) (f o)

-- What an option says of the ID, the queue, the delay, and the metadata at a key.
abbrev pub id_of : EnqueueOption → Option String
id_of (with_id id) = some id
id_of _ = none

abbrev pub queue_of : EnqueueOption → Option String
queue_of (with_queue name) = ite (string_discrete name "") none (some name)
queue_of _ = none

abbrev pub delay_of : EnqueueOption → Option ℕ
delay_of (with_delay delay) = if nonpos64 delay then none else some delay
delay_of _ = none

-- The value of the last entry with the key.
unfoldable pub last_value : String → Metadata → Option String
last_value k [] = none
last_value k (e ∷ es) = or_else (last_value k es) (ite (string_discrete e.0 k) (some e.1) none)

unfoldable pub value_of : String → EnqueueOption → Option String
unfolding last_value
value_of k (with_metadata_value key value) = ite (string_discrete key k) (some value) none
value_of k (with_metadata metadata) = last_value k metadata
value_of k _ = none

-- A setting that each option replaces or leaves is what the last option that says something says.
module _ {V W : Type 0} (combine : Option W → V → V) (setting : EnqueueConfig → V)
    (f : EnqueueOption → Option W) (none_lem : (v : V) → combine none v ≡ v)
    (or_lem : (a b : Option W) (v : V) → combine (or_else a b) v ≡ combine a (combine b v))
    (each : (c : EnqueueConfig) (o : EnqueueOption)
      → setting (apply_enqueue c o) ≡ combine (f o) (setting c)) where
  last_lem :
      (c : EnqueueConfig) (os : List EnqueueOption)
      → setting (apply_enqueue_all c os) ≡ combine (last f os) (setting c)
  unfolding apply_enqueue_all last
  last_lem c [] = sym (none_lem (setting c))
  last_lem c (o ∷ os) =
      last_lem (apply_enqueue c o) os
      ∙ ap (combine (last f os)) (each c o)
      ∙ sym (or_lem (last f os) (f o) (setting c))

get_or : {V : Type 0} (a b : Option V) (v : V) → get (or_else a b) v ≡ get a (get b v)
get_or none b v = refl
get_or (some a) b v = refl

or_or : {V : Type 0} (a b c : Option V) → or_else (or_else a b) c ≡ or_else a (or_else b c)
or_or none b c = refl
or_or (some a) b c = refl

get-ite : {P V : Type 0} (d : Dec P) (v w : V) → get (ite d none (some v)) w ≡ ite d w v
get-ite (yes p) v w = refl
get-ite (no n) v w = refl

or_else-ite :
    {P V : Type 0} (d : Dec P) (v : V) (o : Option V)
    → ite d (some v) o ≡ or_else (ite d (some v) none) o
or_else-ite (yes p) v o = refl
or_else-ite (no n) v o = refl

copy_into_lem :
    (k : String) (es m : Metadata)
    → lookup string_discrete k (copy_into m es)
      ≡ or_else (last_value k es) (lookup string_discrete k m)
unfolding copy_into last_value
copy_into_lem k [] m = refl
copy_into_lem k (e ∷ es) m =
    copy_into_lem k es (insert string_discrete e.0 e.1 m)
    ∙ ap (or_else (last_value k es))
        (lookup-insert string_discrete e.0 k e.1 m ∙ or_else-ite (string_discrete e.0 k) _ _)
    ∙ sym (or_or (last_value k es) _ _)

id_each : (c : EnqueueConfig) (o : EnqueueOption) → (apply_enqueue c o).id ≡ get (id_of o) c.id
unfolding apply_enqueue
id_each c (with_id id) = refl
id_each c (with_metadata_value k v) = refl
id_each c (with_delay d) = ground arith
id_each c (with_queue n) = refl
id_each c (with_metadata m) = refl

queue_each :
    (c : EnqueueConfig) (o : EnqueueOption) → (apply_enqueue c o).queue ≡ get (queue_of o) c.queue
unfolding apply_enqueue
queue_each c (with_id id) = refl
queue_each c (with_metadata_value k v) = refl
queue_each c (with_delay d) = ground arith
queue_each c (with_queue n) = sym (get-ite (string_discrete n "") n c.queue)
queue_each c (with_metadata m) = refl

delay_each :
    (c : EnqueueConfig) (o : EnqueueOption) → (apply_enqueue c o).delay ≡ get (delay_of o) c.delay
unfolding apply_enqueue
delay_each c (with_id id) = refl
delay_each c (with_metadata_value k v) = refl
delay_each c (with_delay d) = ground arith
delay_each c (with_queue n) = refl
delay_each c (with_metadata m) = refl

metadata_each :
    (k : String) (c : EnqueueConfig) (o : EnqueueOption)
    → lookup string_discrete k (apply_enqueue c o).metadata
      ≡ or_else (value_of k o) (lookup string_discrete k c.metadata)
unfolding apply_enqueue value_of
metadata_each k c (with_id id) = refl
metadata_each k c (with_metadata_value key v) =
    lookup-insert string_discrete key k v c.metadata ∙ or_else-ite (string_discrete key k) v _
metadata_each k c (with_delay d) = ground arith
metadata_each k c (with_queue n) = refl
metadata_each k c (with_metadata m) = copy_into_lem k m c.metadata

-- A task as a call of Enqueue asks for it.
pub record Described (p : Producer) (draws : Draws) (task_type : String) (payload : List ℕ)
    (opts : List EnqueueOption) (t : Task) : Type 0 where
  pub type_ : t.type_ ≡ task_type
  pub payload_kept : t.payload ≡ payload
  pub fresh : t.attempt ≡ 0
  pub id :
      t.id ≡ ite (string_discrete (get (last id_of opts) "") "") draws.id (get (last id_of opts) "")
  pub queue : t.queue ≡ get (last queue_of opts) (or_default p.queue_name)
  pub available : t.available_at ≡ draws.now + get (last delay_of opts) 0
  pub metadata :
      (k : String)
      → lookup string_discrete k t.metadata
        ≡ or_else (last (value_of k) opts) (lookup string_discrete k p.metadata)

module _ (p : Producer) (draws : Draws) (task_type : String) (payload : List ℕ)
    (opts : List EnqueueOption) where
  abbrev pub config : EnqueueConfig
  unfolding new_enqueue_config
  config = new_enqueue_config draws.id p.queue_name p.metadata opts

  pub new_task-Described :
      Described p draws task_type payload opts (new_task config draws.now task_type payload)
  unfolding new_task config new_enqueue_config
  new_task-Described = record {
    type_ = refl;
    payload_kept = refl;
    fresh = refl;
    id =
        ap (λ i. ite (string_discrete i "") draws.id i)
          (last_lem get (λ c. c.id) id_of (λ v. refl) get_or id_each _ opts);
    queue = last_lem get (λ c. c.queue) queue_of (λ v. refl) get_or queue_each _ opts;
    available =
        ap (◌+◌ draws.now)
          (last_lem get (λ c. c.delay) delay_of (λ v. refl) get_or delay_each _ opts);
    metadata = λ k.
        last_lem or_else (λ c. lookup string_discrete k c.metadata) (value_of k) (λ v. refl) or_or
          (metadata_each k) _ opts;
  }

  module _ {Q : Type 0} where
    produced_lem :
        (task t : Task) (delay : ℕ) (r : Q × Option Fault)
        → (produced p task delay r).task ≡ some t
        → (task ≡ t) × (r.1 ≡ none) × ((produced p task delay r).queue ≡ r.0)
    produced_lem task t delay (q, none) e = (some-injective task t e, refl, refl)
    produced_lem task t delay (q, some f) e = cc

    accepted :
        {P : Type 0} (d : Dec P) (store : Store Q) (q : Q) (task t : Task) (delay : ℕ) (f : Fault)
        → (ite d (rejected q f) (produced p task delay (store q (some task)))).task ≡ some t
        → (task ≡ t)
          × ((store q (some t)).1 ≡ none)
          × ((ite d (rejected q f) (produced p task delay (store q (some task)))).queue
              ≡ (store q (some t)).0)
    accepted (yes e) store q task t delay f h = cc
    accepted (no n) store q task t delay f h =
        let (e, a, b) = produced_lem task t delay (store q (some task)) h in
        (e, subst (λ u. (store q (some u)).1 ≡ none) e a, b ∙ ap (λ u. (store q (some u)).0) e)

    -- A task that Enqueue returns has the type and the payload that the caller gave, no attempt yet,
    -- and for its ID, queue, delay and each key of its metadata what the last option that speaks of it
    -- says, else the drawn ID, the producer's queue and metadata and no delay. The queue was given
    -- this task and took it.
    pub enqueue-Described :
        (store : Store Q) (q : Q) (t : Task)
        → (enqueue p store q draws task_type payload opts).task ≡ some t
        → Described p draws task_type payload opts t
          × ((store q (some t)).1 ≡ none)
          × ((enqueue p store q draws task_type payload opts).queue ≡ (store q (some t)).0)
    unfolding enqueue config
    enqueue-Described store q t e =
        let (same, took, kept) =
          accepted (string_discrete task_type "") store q
            (new_task config draws.now task_type payload) t config.delay _ e in
        (subst (Described p draws task_type payload opts) same new_task-Described, took, kept)

    refused :
        (task : Task) (delay : ℕ) (r : Q × Option Fault) (e : Fault)
        → (produced p task delay r).error ≡ some e
        → ((produced p task delay r).task ≡ none)
          × (r.1 ≡ some e)
          × ((produced p task delay r).queue ≡ r.0)
    refused task delay (q, none) e h = cc
    refused task delay (q, some f) e h = (refl, h, refl)

    refused_by :
        {P : Type 0} (d : Dec P) (task : Task) (delay : ℕ) (q : Q) (r : Q × Option Fault)
        (f e : Fault)
        → (ite d (rejected q f) (produced p task delay r)).error ≡ some e
        → ((ite d (rejected q f) (produced p task delay r)).task ≡ none)
          × ((P × (f ≡ e) × ((ite d (rejected q f) (produced p task delay r)).queue ≡ q))
              ⊎ (¬ P
                  × (r.1 ≡ some e)
                  × ((ite d (rejected q f) (produced p task delay r)).queue ≡ r.0)))
    refused_by (yes x) task delay q r f e h = (refl, inl (x, some-injective f e h, refl))
    refused_by (no n) task delay q r f e h =
        let (a, b, c) = refused task delay r e h in (a, inr (n, b, c))

    -- When Enqueue returns an error there is no task, and either the type was empty, the error says so
    -- and the queue was not touched, or the type was not empty and the error and the queue are what
    -- the queue answered when it was given the task.
    pub enqueue_errors :
        (store : Store Q) (q : Q) (e : Fault)
        → (enqueue p store q draws task_type payload opts).error ≡ some e
        → ((enqueue p store q draws task_type payload opts).task ≡ none)
          × (((task_type ≡ "")
                × (invalid_task_type ≡ e)
                × ((enqueue p store q draws task_type payload opts).queue ≡ q))
              ⊎ ((task_type ≢ "")
                  × ((store q (some (new_task config draws.now task_type payload))).1 ≡ some e)
                  × ((enqueue p store q draws task_type payload opts).queue
                      ≡ (store q (some (new_task config draws.now task_type payload))).0)))
    unfolding enqueue config
    enqueue_errors store q e h =
        refused_by (string_discrete task_type "") (new_task config draws.now task_type payload)
          config.delay q (store q (some (new_task config draws.now task_type payload)))
          invalid_task_type e h
