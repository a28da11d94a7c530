-- ===== src/Queue/Observer.antt =====
-- queue/observer.go: the events of producers and workers.
use fries.Prelude.{ℕ, Option, none, some, String}
use fries.Queue.{Task}
use fries.Queue.Faults.{Fault}

pub data EventKind : Type 0 where
  enqueue_started enqueued enqueue_failed : EventKind
  worker_started worker_stopped : EventKind
  task_received handler_started handler_succeeded handler_failed : EventKind
  task_acked task_retried task_dead_lettered task_settlement_failed : EventKind

-- `unspecified` is the empty action.
pub data SettlementAction : Type 0 where
  unspecified settlement_ack settlement_retry settlement_dead_letter : SettlementAction

pub record TaskInfo : Type 0 where
  pub id : String
  pub type_ : String
  pub queue : String
  pub attempt : ℕ

pub record Event : Type 0 where
  pub kind : EventKind
  pub queue : String
  pub consumer_name : String
  pub task : TaskInfo
  pub settlement : SettlementAction
  pub delay : ℕ
  pub reason : String
  pub error : Option Fault

unfoldable pub task_info : Option Task → TaskInfo
task_info none = record { id = ""; type_ = ""; queue = ""; attempt = 0 }
task_info (some t) = record { id = t.id; type_ = t.type_; queue = t.queue; attempt = t.attempt }
