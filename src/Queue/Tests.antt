-- ===== src/Queue/Tests.antt =====
-- queue/adapter/memory: runs, and the theorems at a concrete queue.
use fries.Prelude.{
  ℕ, ◌≡◌, refl, Option, none, some, List, [], ◌∷◌, String, string_discrete, lookup, insert,
}
use fries.Prelude.Words.{add64, lt64}
use fries.Queue.{Task, or_default}
use fries.Queue.Memory.{
  Queue, new_queue, enqueue, store_task, signal, shorter, scan, scanned, next, retry, bury,
  dead_letters, with_reason, receive,
}
use fries.Queue.Memory.Next.{delivered}
use fries.Queue.Memory.Runs.{Event, sends, looks, run, sent}

program : Unit {0}
unfolding new_queue signal store_task or_default enqueue shorter scan scanned next retry bury
    dead_letters receive run sent lookup insert string_discrete add64 lt64
program = tt

abbrev task : String → ℕ → Task
task id at = record {
  id = id;
  type_ = "mail";
  queue = "";
  payload = [];
  metadata = [];
  attempt = 0;
  created_at = 1;
  available_at = at;
}

abbrev live : ℕ → Option String
live n = none

two_tasks : Queue
two_tasks = (enqueue (enqueue new_queue live (some (task "a" 50))).0 live (some (task "b" 5))).0

abbrev received : Task
received = record (delivered (task "b" 5)) { queue = "default" }

-- The second task is available first.
next_run : (next two_tasks 10 "default").1 ≡ some received
unfolding program two_tasks
next_run = refl

wait_run : (next (next two_tasks 10 "default").0 10 "default").2 ≡ 40
unfolding program two_tasks
wait_run = refl

buried_run :
    dead_letters (bury two_tasks live (some received) "poison").0 ""
    ≡ with_reason received "poison" ∷ []
unfolding program two_tasks
buried_run = refl

-- A retried task waits for its delay.
retry_run : (next (retry new_queue live 10 (some received) 7).0 16 "default").2 ≡ 1
unfolding program
retry_run = refl

abbrev events : List Event
events = looks 60 "default" ∷ sends (task "c" 7) ∷ looks 61 "default" ∷ []
