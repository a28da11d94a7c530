-- ===== src/Ratelimit/Memory.antt =====
-- ratelimit/memory/store.go: rate limits by the generic cell rate algorithm.
--
-- The mutex makes each call one step. A `*record` is shared by the map and the heap: the model
-- keeps the theoretical arrival time (`tat`) in both, and writes both where the source writes the
-- record. container/heap is modelled as the priority queue that it implements: `expirations` lists
-- the keys by ascending `tat`, Pop takes the first, and Fix and Remove find the entry by its key,
-- which the source does by the index in the record.
pub mod Exact
pub mod Invariant
pub mod Level
pub mod Resets
pub mod Window
use fries.Prelude.{
  ℕ, ◌+◌, ◌-◌, ◌*◌, ◌/◌, ◌%◌, Bool, true, false, Option, none, some, List, [], ◌∷◌, String, ltb,
  leb, ◌==◌, if◌then◌else◌, lookup, insert, delete, string_discrete,
}
use fries.Prelude.Words.{add64, sub64, mul64, lt64, nonpos64}
use fries.Ratelimit.{
  Limit, Decision, TakeRequest, Error, Result, ok, err, Context, cause, validate_context,
  microsecond, divide_round_up,
}

pub record Store : Type 0 where
  pub records : List (String × ℕ)
  pub expirations : List (String × ℕ)

unfoldable pub new_store : Store
new_store = record { records = []; expirations = [] }

-- heap.Push.
unfoldable pub push : String × ℕ → List (String × ℕ) → List (String × ℕ)
push e [] = e ∷ []
push e (f ∷ h) = let rest = push e h in if lt64 e.1 f.1 then e ∷ f ∷ h else f ∷ rest

-- heap.Remove at the index of the key's record.
unfoldable pub remove : String → List (String × ℕ) → List (String × ℕ)
remove = delete string_discrete

-- heap.Fix after the record of the key has got a new `tat`.
unfoldable pub fix : String → ℕ → List (String × ℕ) → List (String × ℕ)
unfolding push remove
fix key tat h = push (key, tat) (remove key h)

-- The loop of `cleanup`: pop while the first entry has expired.
unfoldable pub expire : ℕ → List (String × ℕ) → List (String × ℕ) → Store
expire now records [] = record { records = records; expirations = [] }
expire now records ((key, tat) ∷ h) =
    let rest = expire now (delete string_discrete key records) h in
    if lt64 now tat then record { records = records; expirations = (key, tat) ∷ h } else rest

unfoldable pub cleanup : Store → ℕ → Store
unfolding expire
cleanup s now = expire now s.records s.expirations

-- The fields of the limit are positive, as Take asks for.
unfoldable pub emission_interval : Limit → ℕ
unfolding divide_round_up
emission_interval limit = divide_round_up (divide_round_up limit.period limit.rate) microsecond

unfoldable pub remaining : ℕ → ℕ → ℕ → ℕ → ℕ
unfolding add64 sub64 nonpos64
remaining now tat interval burst_offset =
    let available = sub64 (add64 now burst_offset) tat in
    if nonpos64 available then 0 else available / interval

unfoldable pub microseconds : ℕ → ℕ
unfolding nonpos64 mul64
microseconds value = if nonpos64 value then 0 else mul64 value microsecond

-- `tat := now; if exists && current.tat > tat { tat = current.tat }`.
unfoldable pub arrival : ℕ → Option ℕ → ℕ
arrival now none = now
arrival now (some tat) = if lt64 now tat then tat else now

-- The write of an accepted request.
unfoldable pub write : Store → String → ℕ → Option ℕ → Store
unfolding push fix
write s key tat none = record {
  records = insert string_discrete key tat s.records;
  expirations = push (key, tat) s.expirations;
}
write s key tat (some _) = record {
  records = insert string_discrete key tat s.records;
  expirations = fix key tat s.expirations;
}

-- `Take` under the lock, at the time `now` in microseconds.
unfoldable pub take_at : Store → ℕ → TakeRequest → Store × Decision
take_at store now request =
    let s = cleanup store now in
    let interval = emission_interval request.limit in
    let burst_offset = mul64 interval request.limit.burst in
    let increment = mul64 interval request.cost in
    let current = lookup string_discrete request.key s.records in
    let tat = arrival now current in
    let new_tat = add64 tat increment in
    if lt64 (add64 now burst_offset) new_tat
    then (
      s,
      record {
        limit = request.limit;
        allowed = false;
        remaining = remaining now tat interval burst_offset;
        retry_after = microseconds (sub64 (sub64 new_tat burst_offset) now);
        reset_after = microseconds (sub64 tat now);
      },
    )
    else (
      write s request.key new_tat current,
      record {
        limit = request.limit;
        allowed = true;
        remaining = remaining now new_tat interval burst_offset;
        retry_after = 0;
        reset_after = microseconds (sub64 new_tat now);
      },
    )

-- The context is asked before the lock and once more under it.
unfoldable pub take : Store → Context → ℕ → TakeRequest → Store × Result Decision
take s ctx now request = elim (validate_context ctx 0) [
  | some e ↦ (s, err e)
  | none ↦ elim (cause ctx 1) [
    | some e ↦ (s, err e)
    | none ↦ let (s', decision) = take_at s now request in (s', ok decision)
  ]
]

unfoldable pub reset_at : Store → ℕ → String → Store
reset_at store now key =
    let s = cleanup store now in
    elim (lookup string_discrete key s.records) [
      | none ↦ s
      | some _ ↦ record {
        records = delete string_discrete key s.records;
        expirations = remove key s.expirations;
      }
    ]

-- The error, or none.
unfoldable pub reset : Store → Context → ℕ → String → Store × Option Error
reset s ctx now key = elim (validate_context ctx 0) [
  | some e ↦ (s, some e)
  | none ↦ elim (cause ctx 1) [ some e ↦ (s, some e) | none ↦ (reset_at s now key, none) ]
]
