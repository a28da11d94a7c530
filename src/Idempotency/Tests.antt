-- ===== src/Idempotency/Tests.antt =====
-- idempotency and idempotency/memory: runs, and the theorems at concrete calls.
use fries.Prelude.{
  ℕ, ◌+◌, ◌≡◌, refl, Option, none, some, List, [], ◌∷◌, String, arith, string_discrete, lookup,
  insert, delete, if◌then◌else◌,
}
use fries.Idempotency.{
  Result, invalid_key, acquired, in_progress, completed, BeginRequest, CompleteRequest,
  AbortRequest, Error, ok, err, key_conflict,
}
use fries.Idempotency.Memory.{
  Store, new, schedule_cleanup, sweep, cleanup, save, is_in_progress, is_lost, begin_with,
  complete_with, abort_with, begin_at, complete_at, abort_at,
}
use fries.Idempotency.Memory.Invariant.{IsValid, new-IsValid}
use fries.Idempotency.Memory.Refinement.{
  view, Shows, claim, conflicts, begin_view, complete_view, abort_view, store_refines,
}
use fries.Idempotency.Memory.Claims.{Call, begins, run, claim_exclusive}
use fries.Idempotency.Executor.{ConfigOption, ExecuteOption}
use fries.Idempotency.Value.{Codec}

program : Unit {0}
unfolding schedule_cleanup sweep cleanup save is_in_progress is_lost begin_with complete_with
    abort_with begin_at complete_at abort_at lookup insert delete string_discrete run new
program = tt

abbrev ask : String → String → BeginRequest
ask token fingerprint = record { key = "a"; token = token; fingerprint = fingerprint; ttl = 10 }

abbrev finish : CompleteRequest
finish = record { key = "a"; token = "t"; result = 7 ∷ []; ttl = 20 }

claimed : Store
claimed = (begin_at new 5 (ask "t" "f")).0

replay_run :
    (begin_at (complete_at claimed 6 finish).0 25 (ask "u" "")).1
    ≡ ok (record { status = completed; result = 7 ∷ [] })
unfolding program claimed
replay_run = refl

expired_run : (begin_at claimed 15 (ask "u" "g")).1 ≡ ok (record { status = acquired; result = [] })
unfolding program claimed
expired_run = refl

free : (t : ℕ) (k : String) → view new t k ≡ none
unfolding new lookup
free t k = refl

claimed-IsValid : IsValid claimed
unfolding claimed
claimed-IsValid = ((store_refines new 5 new-IsValid (omega arith)).0 (ask "t" "f")).0

held : view claimed 6 "a" ≡ some (claim (ask "t" "f") 5)
unfolding program claimed
held = refl

store_refines_example :
    ((q : BeginRequest)
      → IsValid (begin_at claimed 6 q).0
        × ((begin_at claimed 6 q).1 ≡ (begin_view (view claimed 6) 6 q).1)
        × Shows (begin_at claimed 6 q).0 6 (begin_view (view claimed 6) 6 q).0)
    × ((q : CompleteRequest)
        → IsValid (complete_at claimed 6 q).0
          × ((complete_at claimed 6 q).1 ≡ (complete_view (view claimed 6) 6 q).1)
          × Shows (complete_at claimed 6 q).0 6 (complete_view (view claimed 6) 6 q).0)
    × ((q : AbortRequest)
        → IsValid (abort_at claimed 6 q).0
          × ((abort_at claimed 6 q).1 ≡ (abort_view (view claimed 6) q).1)
          × Shows (abort_at claimed 6 q).0 6 (abort_view (view claimed 6) q).0)
store_refines_example = store_refines claimed 6 claimed-IsValid (omega arith)

-- Another caller asks while the claim is held.
abbrev asks : ℕ → List Call
asks t = begins t (ask "u" "") ∷ []

claim_exclusive_example :
    ((begin_at new 5 (ask "t" "f")).1 ≡ ok (record { status = acquired; result = [] }))
    × ((begin_at (run (begin_at new 5 (ask "t" "f")).0 (asks 7)) 9 (ask "u" "g")).1 ≡ (
        if conflicts "g" "f"
        then err key_conflict
        else ok (record { status = in_progress; result = [] })))
    × ((complete_at (run (begin_at new 5 (ask "t" "f")).0 (asks 7)) 9 finish).1 ≡ none)
claim_exclusive_example =
    claim_exclusive new 5 9 (ask "t" "f") (ask "u" "g") finish (asks 7) new-IsValid (omega arith)
      (free 5 "a") (omega arith, omega arith, tt, tt) (omega arith) (omega arith) refl refl refl

-- Handlers that count their runs.
abbrev counting : ℕ → ℕ × Option Error
counting n = (n + 1, none)

abbrev options : List ExecuteOption
options = []

abbrev configs : List ConfigOption
configs = []

-- A codec of numbers, and a handler with a value.
abbrev one_number : List ℕ → Result ℕ
one_number [] = err invalid_key
one_number (n ∷ ns) = ok n

abbrev numbers : Codec ℕ
numbers = record { marshal = λ n. ok (n ∷ []); unmarshal = one_number }

abbrev answering : ℕ → ℕ × ℕ × Option Error
answering n = (n + 1, 42, none)
