-- ===== src/Queue/Memory.antt =====
-- queue/adapter/memory/queue.go: queues of tasks in memory.
--
-- `signals` counts the channels that `signal` has closed: a receiver that waits on the channel it was
-- given wakes when the count has grown. A delivery is the task it holds, `none` for a nil one.
pub mod Next
pub mod Runs
use fries.Prelude.{
  ℕ, suc, ◌+◌, ◌-◌, Bool, true, false, ◌||◌, Option, none, some, List, [], ◌∷◌, ◌++◌, String,
  if◌then◌else◌, ltb, ◌==◌, min, lookup, insert, string_discrete,
}
use fries.Prelude.Words.{word, max_int64, add64, lt64}
use fries.Queue.{Task, Error, canceled, consumer_closed, failure, or_default}

pub record Queue : Type 0 where
  pub queues : List (String × List Task)
  pub dead_letter : List (String × List Task)
  pub signals : ℕ

unfoldable pub new_queue : Queue
new_queue = record { queues = []; dead_letter = []; signals = 0 }

-- A missing entry reads as nil.
abbrev pub tasks_at : Option (List Task) → List Task
tasks_at none = []
tasks_at (some tasks) = tasks

abbrev pub tasks_of : List (String × List Task) → String → List Task
tasks_of m name = tasks_at (lookup string_discrete name m)

unfoldable pub signal : Queue → Queue
signal q = record q { signals = suc q.signals }

unfoldable pub store_task : Queue → Task → Queue
unfolding signal
store_task q task = signal (record q {
  queues = insert string_discrete task.queue (tasks_of q.queues task.queue ++ (task ∷ [])) q.queues;
})

unfoldable pub enqueue : Queue → (ℕ → Option String) → Option Task → Queue × Option Error
unfolding store_task or_default
enqueue q ctx task = elim (failure ctx 0) [
  | some e ↦ (q, some e)
  | none ↦ elim task [
    | none ↦ (q, none)
    | some t ↦ (store_task q (record t { queue = or_default t.queue }), none)
  ]
]

-- `time.Time.Sub` of a later time, which saturates.
abbrev pub until : ℕ → Task → ℕ
until now task = min max_int64 (task.available_at - now)

unfoldable pub shorter : ℕ → ℕ → ℕ
shorter wait delay = if (wait == 0) || ltb delay wait then delay else wait

-- The loop of `next`, with the tasks it has passed: what remains, the task that is available, and the
-- wait.
unfoldable pub scan : ℕ → ℕ → List Task → List Task → List Task × Option Task × ℕ
unfolding shorter
scan now wait passed [] = (passed, none, wait)
scan now wait passed (task ∷ tasks) =
    let rest = scan now (shorter wait (until now task)) (passed ++ (task ∷ [])) tasks in
    if ltb now task.available_at then rest else (passed ++ tasks, some task, 0)

unfoldable pub scanned : Queue → String → List Task × Option Task × ℕ → Queue × Option Task × ℕ
unfolding add64
scanned q name (tasks, none, wait) = (q, none, wait)
scanned q name (tasks, some task, wait) = (
  record q { queues = insert string_discrete name tasks q.queues },
  some (record task { attempt = add64 task.attempt 1 }),
  0,
)

-- It is also given the channel, the number of the next signal.
unfoldable pub next : Queue → ℕ → String → Queue × Option Task × ℕ
unfolding scan scanned
next q now name = scanned q name (scan now 0 [] (tasks_of q.queues name))

-- What ends a wait of Receive: its context, Close, a signal, or the timer.
pub data Wake : Type 0 where
  context_done : String → Wake
  closed notified timer : Wake

-- A round of Receive: the clock when it looks for a task, what others do to the queue while it waits,
-- and what ends the wait.
pub record Round : Type 0 where
  pub now : ℕ
  pub meanwhile : Queue → Queue
  pub wake : Wake

pub data Received : Type 0 where
  delivery : Task → Received
  failed : Error → Received
  waiting : Received

-- `consumer.Receive` over the rounds that it makes; it waits on after the last one.
unfoldable pub receive : Queue → String → List Round → Queue × Received
unfolding next
receive q name [] = (q, waiting)
receive q name (round ∷ rounds) =
    let (q', task, wait) = next q round.now name in
    let again = receive (round.meanwhile q') name rounds in
    elim task [
      | some t ↦ (q', delivery t)
      | none ↦ elim round.wake [
        | context_done e ↦ (round.meanwhile q', failed (canceled e))
        | closed ↦ (round.meanwhile q', failed consumer_closed)
        | notified ↦ again
        | timer ↦ again
      ]
    ]

-- `delivery.Ack`.
unfoldable pub ack : (ℕ → Option String) → Option Error
ack ctx = failure ctx 0

-- `time.Time.Add`.
abbrev pub later : ℕ → ℕ → ℕ
later now delay = if lt64 delay 0 then now - (word - delay) else now + delay

-- `delivery.Retry`; it asks its context once before Enqueue does.
unfoldable pub retry : Queue → (ℕ → Option String) → ℕ → Option Task → ℕ → Queue × Option Error
unfolding enqueue
retry q ctx now held delay = elim (failure ctx 0) [
  | some e ↦ (q, some e)
  | none ↦ elim held [
    | none ↦ (q, none)
    | some task ↦
        enqueue q (λ n. ctx (suc n)) (some (record task { available_at = later now delay }))
  ]
]

abbrev pub reason_key : String
reason_key = "queue.dead_letter.reason"

abbrev pub with_reason : Task → String → Task
with_reason task reason = record task {
  metadata = insert string_discrete reason_key reason task.metadata;
}

-- `delivery.DeadLetter`.
unfoldable pub bury : Queue → (ℕ → Option String) → Option Task → String → Queue × Option Error
bury q ctx held reason = elim (failure ctx 0) [
  | some e ↦ (q, some e)
  | none ↦ elim held [
    | none ↦ (q, none)
    | some task ↦ (
      record q {
        dead_letter =
            insert string_discrete task.queue
              (tasks_of q.dead_letter task.queue ++ (with_reason task reason ∷ [])) q.dead_letter;
      },
      none,
    )
  ]
]

unfoldable pub dead_letters : Queue → String → List Task
unfolding or_default
dead_letters q name = tasks_of q.dead_letter (or_default name)
