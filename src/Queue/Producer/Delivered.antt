-- ===== src/Queue/Producer/Delivered.antt =====
-- A task that `Producer.Enqueue` stores in the memory adapter is delivered as it was made.
use fries.Prelude.{
  ℕ, ◌+◌, ◌%◌, ◌≤◌, ◌≡◌, ◌≢◌, refl, sym, ap, ◌∙◌, subst, Option, none, some, List, [], ◌∷◌, ◌++◌,
  String, ite, if_pos, if_neg, string_discrete, differ, arith, All, append-nil,
}
use fries.Prelude.Words.{add64, word}
use fries.Queue.{Task, or_default, default_queue}
use fries.Queue.Faults.{fault_of, or_else}
use fries.Queue.Memory.{Queue, tasks_of, next}
use fries.Queue.Memory
use fries.Queue.Memory.Next.{Nexts, taken, idle, delivered, next-Nexts, Later}
use fries.Queue.Memory.Runs.{live, stored, enqueue_lem}
use fries.Queue.Producer.{
  EnqueueOption, with_id, with_metadata_value, with_delay, with_queue, with_metadata, Producer,
  Store, Draws, enqueue,
}
use fries.Queue.Producer.Settings.{enqueue-Described, get, last, queue_of}

-- The memory adapter as the queue of a producer whose context stays live.
unfoldable pub memory_store : Store Queue
memory_store q task = ((Memory.enqueue q live task).0, fault_of (Memory.enqueue q live task).1)

-- A look at a queue at which only the last task is due.
first_due :
    (now : ℕ) (olds front back : List Task) (t u : Task)
    → olds ++ (t ∷ []) ≡ front ++ (u ∷ back)
    → All (Later now) olds
    → u.available_at ≤ now
    → (u ≡ t) × (front ≡ olds) × (back ≡ [])
first_due now [] [] back t u e h d = (cc, refl, cc)
first_due now [] (f ∷ []) back t u e h d = cc
first_due now [] (f ∷ g ∷ fs) back t u e h d = cc
first_due now (o ∷ os) [] back t u e h d =
    let same : o ≡ u = cc in absurd (omega (arith, d, subst (Later now) same h.0))
first_due now (o ∷ os) (f ∷ fs) back t u e h d =
    let tails : os ++ (t ∷ []) ≡ fs ++ (u ∷ back) = cc in
    let heads : f ≡ o = cc in
    let (a, b, c) = first_due now os fs back t u tails h.1 d in
    (a, ap (◌∷◌ f) b ∙ ap (λ x. x ∷ os) heads, c)

-- A queue's name that a producer chooses is not empty.
abbrev Named : Option String → Type 0
Named none = Unit
Named (some n) = n ≢ ""

or_else-Named : (a b : Option String) → Named a → Named b → Named (or_else a b)
or_else-Named none b h k = k
or_else-Named (some n) b h k = h

ite-Named : (n : String) → Named (ite (string_discrete n "") none (some n))
ite-Named n = elim (string_discrete n "") as (λ d. Named (ite d none (some n))) [
  | yes e ↦ tt
  | no f ↦ f
]

last-Named : (os : List EnqueueOption) → Named (last queue_of os)
unfolding last
last-Named [] = tt
last-Named (with_id i ∷ os) = or_else-Named (last queue_of os) none (last-Named os) tt
last-Named (with_metadata_value k v ∷ os) = or_else-Named (last queue_of os) none (last-Named os) tt
last-Named (with_delay d ∷ os) = or_else-Named (last queue_of os) none (last-Named os) tt
last-Named (with_metadata m ∷ os) = or_else-Named (last queue_of os) none (last-Named os) tt
last-Named (with_queue n ∷ os) =
    or_else-Named (last queue_of os) (ite (string_discrete n "") none (some n)) (last-Named os)
      (ite-Named n)

or_default-Named : (n : String) → or_default n ≢ ""
unfolding or_default string_discrete
or_default-Named n = elim (string_discrete n "") as (λ d. ite d default_queue n ≢ "") [
  | yes e ↦ differ (string_discrete default_queue "") tt
  | no f ↦ f
]

get-Named : (o : Option String) (n : String) → Named o → n ≢ "" → get o n ≢ ""
get-Named none n h k = k
get-Named (some m) n h k = h

or_default-named : (n : String) → n ≢ "" → or_default n ≡ n
unfolding or_default
or_default-named n k = if_neg (string_discrete n "") k default_queue n

last_Later :
    (now : ℕ) (olds : List Task) (t : Task) → All (Later now) (olds ++ (t ∷ [])) → Later now t
last_Later now [] t h = h.0
last_Later now (o ∷ os) t h = last_Later now os t h.1

-- What a look at the queue returns once the task is due and the others there are not.
next_last :
    (q : Queue) (now : ℕ) (name : String) (olds : List Task) (t : Task)
    (r : Queue × Option Task × ℕ)
    → Nexts q now name r
    → tasks_of q.queues name ≡ olds ++ (t ∷ [])
    → All (Later now) olds
    → t.available_at ≤ now
    → (r.1 ≡ some (delivered t)) × (tasks_of r.0.queues name ≡ olds)
next_last q now name olds t _ (taken q' front u back e h due e' other dead) k l d =
    let (a, b, c) = first_due now olds front back t u (sym k ∙ e) l due in
    (
      ap (λ x. some (delivered x)) a,
      e' ∙ ap (λ x. x ++ back) b ∙ ap (◌++◌ olds) c ∙ append-nil olds,
    )
next_last q now name olds t _ (idle wait h w) k l d =
    absurd (omega (arith, d, last_Later now olds t (subst (All (Later now)) k h)))

module _ (p : Producer) (q : Queue) (draws : Draws) (task_type : String) (payload : List ℕ)
    (opts : List EnqueueOption) (t : Task)
    (made : (enqueue p memory_store q draws task_type payload opts).task ≡ some t) where
  abbrev pub after : Queue
  unfolding enqueue
  after = (enqueue p memory_store q draws task_type payload opts).queue

  named_queue : t.queue ≢ ""
  named_queue =
      let d = (enqueue-Described p draws task_type payload opts memory_store q t made).0 in
      subst (λ n. n ≢ "") (sym d.queue)
        (get-Named (last queue_of opts) (or_default p.queue_name) (last-Named opts)
          (or_default-Named p.queue_name))

  stored_same : stored t ≡ t
  stored_same = ap (λ n. record t { queue = n }) (or_default-named t.queue named_queue)

  after_lem : tasks_of after.queues t.queue ≡ tasks_of q.queues t.queue ++ (t ∷ [])
  unfolding after memory_store
  after_lem =
      let kept = (enqueue-Described p draws task_type payload opts memory_store q t made).2 in
      let same = or_default-named t.queue named_queue in
      ap (λ x. tasks_of x.queues t.queue) kept
      ∙ enqueue_lem q t t.queue
      ∙ if_pos (string_discrete (or_default t.queue) t.queue) same _ _
      ∙ ap (λ n. tasks_of q.queues n ++ (stored t ∷ [])) same
      ∙ ap (λ u. tasks_of q.queues t.queue ++ (u ∷ [])) stored_same

  -- A task that Enqueue returned, over the memory adapter, is what a consumer of its queue is given
  -- once the task is due and the older ones there are not: the same task, payload and metadata
  -- included, with its first attempt counted; the older tasks stay.
  pub enqueue-next :
      (now : ℕ)
      → t.available_at ≤ now
      → All (Later now) (tasks_of q.queues t.queue)
      → ((next after now t.queue).1 ≡ some (record t { attempt = 1 }))
        × (tasks_of (next after now t.queue).0.queues t.queue ≡ tasks_of q.queues t.queue)
  unfolding add64
  enqueue-next now due older =
      let fresh =
        (enqueue-Described p draws task_type payload opts memory_store q t made).0.fresh in
      let (a, b) =
        next_last after now t.queue (tasks_of q.queues t.queue) t _ (next-Nexts after now t.queue)
          after_lem older due in
      (a ∙ ap (λ n. some (record t { attempt = (n + 1) % word })) fresh, b)
