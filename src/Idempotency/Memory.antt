-- ===== src/Idempotency/Memory.antt =====
-- idempotency/memory/store.go. The mutex makes each call one step; `now` is the reading of the
-- store's clock during the call. A time of 0 is the zero time: no cleanup is scheduled.
pub mod Invariant
pub mod Refinement
pub mod Claims
use fries.Prelude.{
  ℕ, ◌+◌, Bool, true, false, not, ◌&&◌, ◌||◌, Option, none, some, List, [], ◌∷◌, String, ltb, ◌==◌,
  if◌then◌else◌, ite, lookup, insert, delete, string_discrete,
}
use fries.Idempotency.{
  BeginStatus, acquired, in_progress, completed, BeginRequest, BeginResult, CompleteRequest,
  AbortRequest, Error, invalid_context, key_conflict, claim_lost, Result, ok, err, Context, nil,
  live, cause,
}

pub record Record : Type 0 where
  pub status : BeginStatus
  pub token : String
  pub fingerprint : String
  pub data_ : List ℕ
  pub expires_at : ℕ

pub record Store : Type 0 where
  pub records : List (String × Record)
  pub next_cleanup : ℕ

unfoldable pub new : Store
new = record { records = []; next_cleanup = 0 }

unfoldable pub validate_context : Context → Option Error
validate_context nil = some invalid_context
validate_context (live causes) = cause (live causes) 0

-- The new value of `nextCleanup`.
unfoldable pub schedule_cleanup : ℕ → ℕ → ℕ
schedule_cleanup next expires_at = if next == 0 || ltb expires_at next then expires_at else next

-- The loop of `cleanup` over the map, with `nextCleanup` as it stands.
unfoldable pub sweep : ℕ → ℕ → List (String × Record) → Store
unfolding schedule_cleanup
sweep now next [] = record { records = []; next_cleanup = next }
sweep now next ((key, current) ∷ m) =
    let kept = sweep now (schedule_cleanup next current.expires_at) m in
    let dropped = sweep now next m in
    if not (ltb now current.expires_at)
    then dropped
    else record kept { records = (key, current) ∷ kept.records }

unfoldable pub cleanup : Store → ℕ → Store
unfolding sweep
cleanup s now =
    let swept = sweep now 0 s.records in
    if s.next_cleanup == 0 || ltb now s.next_cleanup then s else swept

-- `s.records[key] = current` and `s.scheduleCleanup(current.expiresAt)`.
unfoldable pub save : Store → String → Record → Store
unfolding schedule_cleanup
save s key current = record {
  records = insert string_discrete key current s.records;
  next_cleanup = schedule_cleanup s.next_cleanup current.expires_at;
}

abbrev pub same : String → String → Bool
same a b = ite (string_discrete a b) true false

unfoldable pub is_in_progress : BeginStatus → Bool
is_in_progress in_progress = true
is_in_progress _ = false

-- `current.status != BeginInProgress || current.token != token`.
unfoldable pub is_lost : Record → String → Bool
unfolding is_in_progress
is_lost current token = not (is_in_progress current.status) || not (same current.token token)

-- Begin under the lock, after the cleanup, with what the map holds for the key.
unfoldable pub begin_with : Store → ℕ → BeginRequest → Option Record → Store × Result BeginResult
begin_with s now request none = (
  save s request.key (record {
    status = in_progress;
    token = request.token;
    fingerprint = request.fingerprint;
    data_ = [];
    expires_at = now + request.ttl;
  }),
  ok (record { status = acquired; result = [] }),
)
begin_with s now request (some current) =
    if not (same request.fingerprint "") && not (same request.fingerprint current.fingerprint)
    then (s, err key_conflict)
    else (s, ok (record { status = current.status; result = current.data_ }))

unfoldable pub begin_at : Store → ℕ → BeginRequest → Store × Result BeginResult
begin_at store now request =
    let s = cleanup store now in
    begin_with s now request (lookup string_discrete request.key s.records)

unfoldable pub complete_with : Store → ℕ → CompleteRequest → Option Record → Store × Option Error
complete_with s now request none = (s, some claim_lost)
complete_with s now request (some current) =
    if is_lost current request.token then (s, some claim_lost) else (
      save s request.key (record current {
        status = completed;
        token = "";
        data_ = request.result;
        expires_at = now + request.ttl;
      }),
      none,
    )

unfoldable pub complete_at : Store → ℕ → CompleteRequest → Store × Option Error
complete_at store now request =
    let s = cleanup store now in
    complete_with s now request (lookup string_discrete request.key s.records)

unfoldable pub abort_with : Store → AbortRequest → Option Record → Store × Option Error
abort_with s request none = (s, some claim_lost)
abort_with s request (some current) =
    if is_lost current request.token
    then (s, some claim_lost)
    else (record s { records = delete string_discrete request.key s.records }, none)

unfoldable pub abort_at : Store → ℕ → AbortRequest → Store × Option Error
abort_at store now request =
    let s = cleanup store now in abort_with s request (lookup string_discrete request.key s.records)

-- The calls with their context.
unfoldable pub begin : Store → Context → ℕ → BeginRequest → Store × Result BeginResult
begin s ctx now request = elim (validate_context ctx) [
  | some e ↦ (s, err e)
  | none ↦ begin_at s now request
]

unfoldable pub complete : Store → Context → ℕ → CompleteRequest → Store × Option Error
complete s ctx now request = elim (validate_context ctx) [
  | some e ↦ (s, some e)
  | none ↦ complete_at s now request
]

unfoldable pub abort : Store → Context → ℕ → AbortRequest → Store × Option Error
abort s ctx now request = elim (validate_context ctx) [
  | some e ↦ (s, some e)
  | none ↦ abort_at s now request
]
