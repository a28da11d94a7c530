-- ===== src/Idempotency/Executor/OverMemory.antt =====
-- `Do` of idempotency/executor.go over the store of idempotency/memory/store.go, among other callers.
use fries.Prelude.{
  ℕ, ◌+◌, ◌≤◌, ◌<◌, ◌≡◌, refl, ◌∙◌, ◌≢◌, false, Option, none, some, List, [], String, arith,
  string_discrete, if_neg,
}
use fries.Idempotency.{
  acquired, completed, BeginRequest, BeginResult, CompleteRequest, Error, Result, ok, live,
}
use fries.Idempotency.Memory.{
  Record, Store, begin, complete, abort, begin_at, complete_at, abort_at, validate_context,
}
use fries.Idempotency.Memory.Invariant.{IsValid}
use fries.Idempotency.Memory.Refinement.{view, claim, result_of, conflicts}
use fries.Idempotency.Memory.Claims.{
  Call, run, Sparing, last_time, run_spares, begin_free, complete_owned, begin_held, abort_owned,
  last_time-ge,
}
use fries.Idempotency.Executor.{
  StoreOps, Claim, Outcome, returns, Config, ExecuteConfig, ExecuteOption, new_execute_config,
  Executor, Environment, execute, validate_execution, begin_claim, after_begin, begun_with,
  complete_claim, abort_claim, finish, run_begun, join_errors,
}

-- The memory store during one Do: its clock reads `start` in Begin and `stop` in Complete and Abort.
abbrev pub memory_ops : ℕ → ℕ → StoreOps Store
memory_ops start stop = record {
  begin = λ s ctx q. begin s ctx start q;
  complete = λ s ctx q. complete s ctx stop q;
  abort = λ s ctx q. abort s ctx stop q;
}

-- A caller whose contexts are never canceled. While its handler runs, others make the calls `cs`.
abbrev pub quiet : ℕ → Option String
quiet n = none

abbrev pub caller : String → List Call → Environment Store
caller token cs = record {
  context = live quiet;
  token = ok token;
  finalization = quiet;
  during = λ s. run s cs;
}

abbrev pub executor : Config → ℕ → ℕ → Executor Store
executor config start stop = record { store = memory_ops start stop; config = config }

-- The requests that a Do makes.
abbrev pub begin_request : ExecuteConfig → String → String → BeginRequest
begin_request x key token = record {
  key = key;
  token = token;
  fingerprint = x.fingerprint;
  ttl = x.execution_ttl;
}

abbrev pub complete_request : ExecuteConfig → String → String → List ℕ → CompleteRequest
complete_request x key token bytes = record {
  key = key;
  token = token;
  result = bytes;
  ttl = x.result_ttl;
}

-- A call after the store has answered.
pub answered :
    (ops : StoreOps Store) (token : String) (cs : List Call) (c : Claim)
    (p : Store × Result BeginResult) (r : BeginResult)
    → p.1 ≡ ok r
    → after_begin ops (caller token cs) c p ≡ (p.0, begun_with c r)
unfolding after_begin
answered ops token cs c (s, answer) r e = rw (e, after_begin) refl

finished :
    {H : Type 0} (ops : StoreOps Store) (token : String) (cs : List Call) (c : Claim) (s : Store)
    (p : H × Option Error)
    → p.1 ≡ none
    → finish ops (caller token cs) c s p
      ≡ (let r = complete_claim ops (caller token cs) c [] (run s cs) in ((r.0, p.0), r.1))
unfolding finish
finished ops token cs c s (h, e) none_ = rw (none_, finish) refl

failed :
    {H : Type 0} (ops : StoreOps Store) (token : String) (cs : List Call) (c : Claim) (s : Store)
    (p : H × Option Error) (e : Error)
    → p.1 ≡ some e
    → (abort_claim ops (caller token cs) c (run s cs)).1 ≡ none
    → finish ops (caller token cs) c s p
      ≡ (((abort_claim ops (caller token cs) c (run s cs)).0, p.0), some e)
unfolding finish join_errors
failed ops token cs c s (h, o) e some_ kept = rw (some_, kept, finish, join_errors) refl

-- The claim that a Do makes, and the store after it has completed its key.
abbrev pub held_claim : ExecuteConfig → String → String → ℕ → Record
held_claim x key token start = claim (begin_request x key token) start

abbrev pub completed_store : ExecuteConfig → String → String → ℕ → ℕ → List Call → Store → Store
completed_store x key token start stop cs s =
    (complete_at (run (begin_at s start (begin_request x key token)).0 cs) stop
      (complete_request x key token [])).0

module _ {H : Type 0} (config : Config) (options : List ExecuteOption) (key token : String)
    (f : H → H × Option Error) (h : H) (s : Store) (start stop : ℕ) (cs : List Call)
    (named : key ≢ "") where
  abbrev x : ExecuteConfig
  x = new_execute_config config options

  abbrev outcome : Outcome ((Store × H) × Option Error)
  outcome = execute (executor config start stop) (caller token cs) key (some f) options (s, h)

  abbrev begun : Store
  begun = (begin_at s start (begin_request x key token)).0

  abbrev claim_of : ExecuteConfig → Claim
  claim_of x = record { key = key; token = token; result_ttl = x.result_ttl }

  valid_call : validate_execution (live quiet) key ≡ none
  unfolding validate_execution
  valid_call = rw (if_neg (string_discrete key "") named) refl

  run_claimed :
      (begin_at s start (begin_request x key token)).1
        ≡ ok (record { status = acquired; result = [] })
      → (f h).1 ≡ none
      → outcome
        ≡ returns (
            let r = complete_at (run begun cs) stop (complete_request x key token []) in
            ((r.0, (f h).0), r.1))
  unfolding execute run_begun begin_claim after_begin begun_with complete_claim finish begin
      complete validate_context
  run_claimed a done =
      rw (valid_call, execute)
        (rw
          (answered (memory_ops start stop) token cs (claim_of x)
            (begin_at s start (begin_request x key token))
            (record { status = acquired; result = [] }) a)
          (rw (finished (memory_ops start stop) token cs (claim_of x) begun (f h) done) refl))

  run_failed :
      (e : Error)
      → (begin_at s start (begin_request x key token)).1
        ≡ ok (record { status = acquired; result = [] })
      → (f h).1 ≡ some e
      → (abort_at (run begun cs) stop (record { key = key; token = token })).1 ≡ none
      → outcome
        ≡ returns (
          ((abort_at (run begun cs) stop (record { key = key; token = token })).0, (f h).0),
          some e,
        )
  unfolding execute run_begun begin_claim begun_with abort_claim begin abort validate_context
  run_failed e a some_ kept =
      rw (valid_call, execute)
        (rw
          (answered (memory_ops start stop) token cs (claim_of x)
            (begin_at s start (begin_request x key token))
            (record { status = acquired; result = [] }) a)
          (rw (failed (memory_ops start stop) token cs (claim_of x) begun (f h) e some_ kept) refl))

  run_replayed :
      (bytes : List ℕ)
      → (begin_at s start (begin_request x key token)).1
        ≡ ok (record { status = completed; result = bytes })
      → outcome ≡ returns ((begun, h), none)
  unfolding execute run_begun begin_claim begun_with begin validate_context
  run_replayed bytes a =
      rw (valid_call, execute)
        (rw
          (answered (memory_ops start stop) token cs (claim_of x)
            (begin_at s start (begin_request x key token))
            (record { status = completed; result = bytes }) a)
          refl)

  module _ (v : IsValid s) (pos : 0 < start) (some_execution : 0 < x.execution_ttl)
      (some_result : 0 < x.result_ttl) (free : view s start key ≡ none)
      (sparing : Sparing key (held_claim x key token start) start cs)
      (late : last_time start cs ≤ stop) (in_time : stop < start + x.execution_ttl) where
    -- The handler has run without an error: the key holds its result.
    pub execute_completes :
        (f h).1 ≡ none
        → (outcome ≡ returns (((completed_store x key token start stop cs s), (f h).0), none))
          × IsValid (completed_store x key token start stop cs s)
          × (view (completed_store x key token start stop cs s) stop key
              ≡ some
                  (result_of (complete_request x key token []) stop (held_claim x key token start)))
    execute_completes done =
        let (answer, valid, shown) =
          begin_free s start (begin_request x key token) v pos some_execution free in
        let (valid', kept) =
          run_spares begun key (held_claim x key token start) start cs stop valid pos shown sparing
            late in_time in
        let after = last_time-ge key (held_claim x key token start) start cs sparing in
        let (fine, valid'', shows) =
          complete_owned (run begun cs) stop (complete_request x key token [])
            (held_claim x key token start) valid' (omega arith) some_result kept refl refl in
        (rw (run_claimed answer done, fine) refl, valid'', shows)

    -- The handler has run and failed: the key is free again.
    pub execute_fails :
        (e : Error)
        → (f h).1 ≡ some e
        → (s' : Store) × (outcome ≡ returns ((s', (f h).0), some e))
          × IsValid s'
          × (view s' stop key ≡ none)
    execute_fails e some_ =
        let (answer, valid, shown) =
          begin_free s start (begin_request x key token) v pos some_execution free in
        let (valid', kept) =
          run_spares begun key (held_claim x key token start) start cs stop valid pos shown sparing
            late in_time in
        let after = last_time-ge key (held_claim x key token start) start cs sparing in
        let (fine, valid'', shows) =
          abort_owned (run begun cs) stop (record { key = key; token = token })
            (held_claim x key token start) valid' (omega arith) kept refl refl in
        (_, run_failed e answer some_ fine, valid'', shows)

  -- The key holds a result: the handler does not run.
  pub execute_replays :
      (r : Record)
      → IsValid s
      → 0 < start
      → view s start key ≡ some r
      → r.status ≡ completed
      → conflicts x.fingerprint r.fingerprint ≡ false
      → outcome ≡ returns ((begun, h), none)
  execute_replays r v pos e done same_ =
      run_replayed r.data_
        (begin_held s start r (begin_request x key token) v pos e ∙ rw (same_, done) refl)
