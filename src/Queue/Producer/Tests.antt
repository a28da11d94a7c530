-- ===== src/Queue/Producer/Tests.antt =====
-- Calls of queue/producer.go at concrete inputs.
use fries.Prelude.{
  ◌≡◌, refl, true, none, some, List, [], ◌∷◌, string_discrete, insert, lookup, arith,
}
use fries.Queue.{Task, or_default}
use fries.Queue.Memory.{Queue, new_queue, tasks_of, next, store_task}
use fries.Queue.Memory
use fries.Queue.Producer.{
  EnqueueOption, with_metadata_value, with_delay, Producer, Draws, enqueue, new_task,
  new_enqueue_config, apply_enqueue_all, apply_enqueue,
}
use fries.Queue.Producer.Settings.{Described, enqueue-Described}
use fries.Queue.Producer.Delivered.{memory_store, enqueue-next, after}
use fries.Prelude.Words.{nonpos64, lt64}

abbrev mailer : Producer
mailer = record { queue_name = "mail"; metadata = ("team", "a") ∷ []; observer = true }

abbrev draws : Draws
draws = record { id = "f00"; now = 100 }

abbrev options : List EnqueueOption
options = with_metadata_value "team" "b" ∷ with_delay 5 ∷ []

abbrev welcome : Task
welcome = record {
  id = "f00";
  type_ = "welcome";
  queue = "mail";
  payload = 1 ∷ 2 ∷ [];
  metadata = ("team", "b") ∷ [];
  attempt = 0;
  created_at = 100;
  available_at = 105;
}

made :
    (enqueue mailer memory_store new_queue draws "welcome" (1 ∷ 2 ∷ []) options).task ≡ some welcome
unfolding enqueue memory_store new_queue new_task new_enqueue_config apply_enqueue_all apply_enqueue
    string_discrete Memory.enqueue or_default insert nonpos64 lt64
made = refl

enqueue-Described_example :
    Described mailer draws "welcome" (1 ∷ 2 ∷ []) options welcome
    × ((memory_store new_queue (some welcome)).1 ≡ none)
    × ((enqueue mailer memory_store new_queue draws "welcome" (1 ∷ 2 ∷ []) options).queue
        ≡ (memory_store new_queue (some welcome)).0)
enqueue-Described_example =
    enqueue-Described mailer draws "welcome" (1 ∷ 2 ∷ []) options memory_store new_queue welcome
      made

enqueue-next_example :
    ((next (after mailer new_queue draws "welcome" (1 ∷ 2 ∷ []) options welcome made) 105 "mail").1
      ≡ some (record welcome { attempt = 1 }))
    × (tasks_of
          (next
            (after mailer new_queue draws "welcome" (1 ∷ 2 ∷ []) options welcome made)
            105
            "mail").0.queues
          "mail"
        ≡ tasks_of new_queue.queues "mail")
unfolding new_queue lookup
enqueue-next_example =
    enqueue-next mailer new_queue draws "welcome" (1 ∷ 2 ∷ []) options welcome made 105
      (omega arith) tt
