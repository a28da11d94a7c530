-- ===== src/Lib.antt =====
-- Verification of fries, a library of Go components that programs import one by one.
--
-- The parts here do not share state. ratelimit and idempotency each have a front (Limiter,
-- Executor) over an interface Store and an implementation of it in memory; queue has a Producer and a
-- Worker over an interface Queue and an implementation of it in memory; the others stand alone.
--
-- time/period/{period,set,errors}.go: Period.antt (intervals and their comparisons), Period/Set
-- (Merge, Gaps and Subtract over sets of intervals), Period/Points (the instants of an interval,
-- and what the proofs say of them), Period/InPlace (the loop of Merge as it overwrites its own
-- slice). A time.Time is its wall clock reading in nanoseconds from the earliest instant, with its
-- monotonic reading.
--
-- ratelimit/{limit,limiter,store,errors}.go: Ratelimit.antt (limits, decisions, errors),
-- Ratelimit/Limits (which limits are accepted), Ratelimit/Limiter (New, Allow, AllowN and Reset
-- over any store). ratelimit/memory/store.go: Ratelimit/Memory (Take, Reset and the cleanup), and
-- below it the store's invariant, its exact arithmetic, the level of a key, and runs of requests.
-- The map is an association list, and the heap of expirations the list of its keys by ascending
-- arrival time: container/heap is taken at its documentation, as a priority queue. Numbers are
-- 64-bit patterns that wrap (Prelude/Words). The theorems ask for a clock before 2 ^ 62
-- microseconds after 1970, and limits that New accepts: then nothing wraps
-- (Ratelimit/Memory/Exact).
--
-- idempotency/{store,errors,executor,config,value}.go: Idempotency.antt (requests, results,
-- errors), Idempotency/Executor (New, Do and the options), Idempotency/Value (DoValue over a
-- codec). idempotency/memory/store.go: Idempotency/Memory (Begin, Complete, Abort, the lazy
-- cleanup), with its invariant, the contract of the interface Store as a map whose entries expire
-- (Refinement), and runs of calls by many callers (Claims). Executor/OverMemory, Executor/Once and
-- Replay put the two together: while a handler runs, any list of calls by others happens to the
-- store.
--
-- retry/{retry,backoff,config}.go: Retry.antt (the loop of DoValue, options), Retry/Errors
-- (markers and what inspectError finds), Retry/Delays (the backoffs), Retry/Do and
-- Retry/Cancellation. The loop is on fuel, the configured attempts, which is proved to be enough.
--
-- slices/slices.go: Slices.antt (the loops, and the functions that are one), Slices/Sets,
-- Slices/Groups, Slices/Search, Slices/Split, Slices/Reversed, Slices/Chunks. A slice is the list
-- of its items; the storage that slices share is not modelled.
--
-- queue/{task,queue,errors}.go: Queue.antt (tasks). queue/adapter/memory/queue.go: Queue/Memory
-- (Enqueue, the look of a consumer for an available task, Receive, Retry, DeadLetter),
-- Queue/Memory/Next (which task is taken) and Queue/Memory/Runs (runs of enqueues and looks).
-- Times are offsets in nanoseconds. queue/{producer,option,observer}.go: Queue/Producer (Enqueue over
-- any queue, the options, EnqueueFor over a codec), Queue/Observer (the events), Queue/Producer/Settings
-- (what a call asks for), Queue/Producer/Delivered (a producer, the memory adapter and a consumer
-- together). queue/{worker,handler,handler_error,typed}.go: Queue/Faults (the errors and how they are
-- searched), Queue/Worker (options, and process with its settlements and events),
-- Queue/Worker/Verdict (a table of the settlements), Queue/Worker/Loop (loop over its rounds),
-- Queue/Worker/Lifecycle (start, finish, Run), Queue/Worker/OverMemory (any number of workers over the
-- memory adapter, as a step relation, with Queue/Pending on all pending tasks).
--
-- lifecycle/{config,provider,runner}.go: Lifecycle/Providers (contexts, errors, providers and options),
-- Lifecycle.antt (Bootstrap, Shutdown and Run of a
-- caller that is alone), Lifecycle/Calls and Lifecycle/Run (what is called, in which order, and when
-- the error is nil), Lifecycle/Threads (any number of calls of Bootstrap and Shutdown at once, as a step
-- relation on the runner and the program counters of the calls), and below it the invariant, its
-- preservation, what holds in every reachable state, and a proof that the functions of Lifecycle.antt
-- are runs of the relation. A context is the expression that built it.
--
-- batcher/{batcher,config,worker}.go: Batcher.antt (the worker's accept and flush, options, waits),
-- Batcher/System (any number of callers, the queue and the worker, as a step relation), and below it
-- what the worker has made of the requests that it has seen, and what holds in every reachable state.
--
-- debounce/{debouncer,worker,config}.go: Debounce.antt (options, Trigger, the selection of a flush, stop,
-- and the worker's next and execute), Debounce/System (callers and the worker, as a step relation),
-- Debounce/Completions, Debounce/Moves and Debounce/Reached (what holds in every reachable state), and
-- Debounce/Latest (which value is run, and when). Times are offsets in nanoseconds; a timer may fire at
-- any time.
--
-- webhook/{secret,config,signer,verifier}.go: Webhook.antt (secrets, options, Sign, Verify),
-- Webhook/Accepted (what an accepted message has), Webhook/Signed (what Sign makes is accepted).
-- HMAC, base64 and decimal numbers are functions of a record; Webhook/Signed asks for what is
-- documented of them.
--
-- Locks are not modelled: a section that holds the lock is one step, and the order of steps is any. A context is what it answers each time that the program asks, by number.
-- Random tokens, draws and swaps come from outside. Codecs, handlers, operations and other stores
-- are arguments.
pub mod Prelude
pub mod Period
pub mod Ratelimit
pub mod Idempotency
pub mod Retry
pub mod Slices
pub mod Queue
pub mod Lifecycle
pub mod Batcher
pub mod Debounce
pub mod Webhook
