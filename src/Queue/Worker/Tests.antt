-- ===== src/Queue/Worker/Tests.antt =====
-- Runs of queue/worker.go at concrete inputs.
use fries.Prelude.{
  ℕ, suc, ◌≡◌, refl, true, false, Option, none, some, [], ◌∷◌, String, lookup, string_discrete,
}
use fries.Prelude.Words.{lt64}
use fries.Queue.{Task}
use fries.Queue.Faults.{plain, is_stop_error, is_consumer_closed}
use fries.Queue.Memory
use fries.Queue.Memory.{Queue, new_queue}
use fries.Queue.Worker.{
  Handler, WorkerConfig, with_max_attempts, new_worker_config, World, process, apply_worker_all,
  apply_worker,
}
use fries.Queue.Worker.Verdict.{Settled, process-Settled, run_handler}
use fries.Queue.Worker.Loop.{
  Consumers, loop, loop_errors, loop_rounds, received, is_normal_stop_error,
}
use fries.Queue.Worker.Lifecycle.{
  Worker, start, stop, System, new_system, Step, enters, leaves, Reach-IsHeld, IsHeld,
}
use fries.Queue.Worker.Lifecycle
use fries.Queue.Worker.OverMemory.{memory_deliveries, State, begin, here, further}

-- A handler that always fails, and counts its calls.
abbrev failing : Handler ℕ
failing timeout n task = (suc n, some (plain "busy"))

abbrev config : WorkerConfig ℕ
config = record {
  queue = "mail";
  consumer_name = "";
  concurrency = 1;
  handler_timeout = 0;
  settlement_timeout = 30;
  max_attempts = 2;
  backoff = λ r attempt. (r, 5);
  retry_if = λ task e. true;
  observer = true;
  middleware = [];
  handlers = ("welcome", failing) ∷ [];
}

abbrev welcome : Task
welcome = record {
  id = "f00";
  type_ = "welcome";
  queue = "mail";
  payload = 1 ∷ [];
  metadata = [];
  attempt = 0;
  created_at = 100;
  available_at = 100;
}

abbrev world : World ℕ Queue
world = record {
  host = 0;
  queue = record { queues = []; dead_letter = []; signals = 0 };
  random = λ n bound. 0;
  events = [];
}

abbrev live : ℕ → Option String
live n = none

abbrev seconds : ℕ → String
seconds d = "5s"

-- The last attempt: the task goes to the dead letters.
abbrev last_attempt : Task
last_attempt = record welcome { attempt = 2 }

process-Settled_example :
    Settled config seconds
      (memory_deliveries 100 live)
      (run_handler config seconds
        (memory_deliveries 100 live)
        0
        last_attempt
        (lookup string_discrete "welcome" config.handlers)).0
      world.queue
      world.random
      last_attempt
      last_attempt
      (run_handler config seconds
        (memory_deliveries 100 live)
        0
        last_attempt
        (lookup string_discrete "welcome" config.handlers)).1
      (process config seconds (memory_deliveries 100 live) world last_attempt last_attempt)
process-Settled_example =
    process-Settled config seconds (memory_deliveries 100 live) world last_attempt last_attempt

-- The defaults: three attempts.
default_attempts : (new_worker_config {S = ℕ} (with_max_attempts 0 ∷ [])).max_attempts ≡ 3
unfolding new_worker_config apply_worker_all apply_worker lt64
default_attempts = refl

abbrev sent : State ℕ
sent = record {
  world = record (begin world).world { queue = (Memory.enqueue new_queue live (some welcome)).0 };
  flying = [];
  sent = 1;
  deliveries = 0;
}

-- A consumer whose backend breaks down.
abbrev broken : Consumers Queue Task
broken = record {
  new_consumer = λ q. (q, none);
  receive = λ q. (q, none, some (plain "gone"));
  close = λ q. q;
}

loop_errors_example : is_stop_error (plain "gone") ≡ false
unfolding loop loop_rounds received is_normal_stop_error is_stop_error is_consumer_closed
loop_errors_example =
    loop_errors config seconds (memory_deliveries 100 live) broken world false
      (record { poll_done = false; poll_failed = false; run_failed = true } ∷ []) (plain "gone")
      (refl, tt) refl

Reach-IsHeld_example : IsHeld (some 7) (7 ∷ [])
unfolding start
Reach-IsHeld_example = Reach-IsHeld (Lifecycle.further Lifecycle.here (enters 7 _ refl))
