-- ===== src/Batcher/System.antt =====
-- batcher/batcher.go: callers of Add, TryAdd, Flush and Shutdown, the queue of requests, and the worker.
--
-- A call that has passed the test of `closed` is pending until it sends its request, or gives up since
-- its context or the batcher is done. `accepted` records the requests in the order in which they enter
-- the queue or, when it is empty, go to the worker at once.
pub mod Worker
pub mod Reached
use fries.Prelude.{ℕ, ◌<◌, ◌≡◌, Bool, true, false, Option, none, some, List, [], ◌∷◌, ◌++◌, length}
use fries.Batcher.{Config, Error, Request, item, barrier, Handler, new_worker, flush, accept}
use fries.Batcher

pub record System (H T : Type 0) : Type 0 where
  pub worker : Batcher.Worker H T
  pub queue : List (Request T)
  pub accepted : List (Request T)
  pub pending : List (Request T)
  pub closed : Bool
  -- The queue's channel is closed, and what `run` returned.
  pub drained : Bool
  pub finished : Option (Option Error)

module _ {H T : Type 0} where
  abbrev pub enqueued : System H T → Request T → System H T
  enqueued s r = record s { queue = s.queue ++ (r ∷ []); accepted = s.accepted ++ (r ∷ []) }

pub data Step {H T : Type 0} (c : Config) (handler : Handler H T) (s : System H T)
    : System H T → Type 0 where
  -- `submit` up to its select, and its cases.
  submits :
      (r : Request T)
      → s.closed ≡ false
      → Step c handler s (record s { pending = s.pending ++ (r ∷ []) })
  sends :
      (front : List (Request T)) (r : Request T) (back : List (Request T))
      → s.pending ≡ front ++ (r ∷ back)
      → length s.queue < c.queue_size
      → Step c handler s (record (enqueued s r) { pending = front ++ back })
  hands :
      (front : List (Request T)) (r : Request T) (back : List (Request T))
      → s.pending ≡ front ++ (r ∷ back)
      → s.queue ≡ []
      → s.finished ≡ none
      → Step c handler s (record s {
        worker = accept c handler s.worker r;
        accepted = s.accepted ++ (r ∷ []);
        pending = front ++ back;
      })
  gives_up :
      (front : List (Request T)) (r : Request T) (back : List (Request T))
      → s.pending ≡ front ++ (r ∷ back)
      → Step c handler s (record s { pending = front ++ back })
  -- `TryAdd`.
  try_sends :
      (x : T)
      → s.closed ≡ false
      → length s.queue < c.queue_size
      → Step c handler s (enqueued s (item x))
  try_hands :
      (x : T)
      → s.closed ≡ false
      → s.queue ≡ []
      → s.finished ≡ none
      → Step c handler s (record s {
        worker = accept c handler s.worker (item x);
        accepted = s.accepted ++ (item x ∷ []);
      })
  -- The cases of the loop of `run`.
  receives :
      (r : Request T) (rest : List (Request T))
      → s.queue ≡ r ∷ rest
      → s.finished ≡ none
      → Step c handler s (record s { worker = accept c handler s.worker r; queue = rest })
  ticks :
      s.worker.armed ≡ true
      → s.finished ≡ none
      → Step c handler s (record s { worker = flush c handler s.worker })
  ends :
      s.drained ≡ true
      → s.queue ≡ []
      → s.finished ≡ none
      → Step c handler s (record s {
        worker = flush c handler s.worker;
        finished = some (flush c handler s.worker).first_err;
      })
  -- `stop`, and the goroutine that waits for the pending calls.
  stops : Step c handler s (record s { closed = true })
  closes : s.closed ≡ true → s.pending ≡ [] → Step c handler s (record s { drained = true })

abbrev pub begin : {H T : Type 0} → H → System H T
begin h = record {
  worker = record {
    host = h;
    batch = [];
    armed = false;
    first_err = none;
    handled = [];
    results = [];
    completed = [];
  };
  queue = [];
  accepted = [];
  pending = [];
  closed = false;
  drained = false;
  finished = none;
}

pub data Reach {H T : Type 0} (c : Config) (handler : Handler H T) (h : H)
    : System H T → Type 0 where
  here : Reach c handler h (begin h)
  further : {s t : System H T} → Reach c handler h s → Step c handler s t → Reach c handler h t
