-- ===== src/Ratelimit/Memory/Window.antt =====
-- The rate that ratelimit/memory/store.go keeps over a whole run.
use fries.Prelude.{
  ℕ, ◌+◌, ◌-◌, ◌≤◌, ◌≡◌, refl, ◌⊎◌, inl, ite, List, [], ◌∷◌, String, arith, if◌then◌else◌,
  string_discrete,
}
use fries.Ratelimit.{Limit, TakeRequest}
use fries.Ratelimit.Limits.{IsUsable}
use fries.Ratelimit.Memory.{Store, take_at}
use fries.Ratelimit.Memory.Invariant.{IsValid, find}
use fries.Ratelimit.Memory.Exact.{InRange, IsRecent, charge, base-ge}
use fries.Ratelimit.Memory.Level.{level, take_at-Takes, base_later, recent_later}

-- A request of the run, with the clock reading at which the store handles it.
pub record Call : Type 0 where
  pub time : ℕ
  pub key : String
  pub cost : ℕ

abbrev pub request_of : Limit → Call → TakeRequest
request_of limit c = record { key = c.key; limit = limit; cost = c.cost }

-- The units that the run grants to the key.
unfoldable pub granted : Limit → String → Store → List Call → ℕ
granted limit k s [] = 0
granted limit k s (c ∷ cs) =
    let (s', d) = take_at s c.time (request_of limit c) in
    let rest = granted limit k s' cs in
    (if d.allowed then ite (string_discrete c.key k) c.cost 0 else 0) + rest

-- Clock readings that do not go back, from `start` to `stop`, and costs within the burst.
abbrev pub Timed : Limit → ℕ → ℕ → List Call → Type 0
Timed limit start stop [] = start ≤ stop
Timed limit start stop (c ∷ cs) =
    (start ≤ c.time) × (c.cost ≤ limit.burst) × Timed limit c.time stop cs

start_le_stop :
    (limit : Limit) (start stop : ℕ) (cs : List Call) → Timed limit start stop cs → start ≤ stop
start_le_stop limit start stop [] t = t
start_le_stop limit start stop (c ∷ cs) t = omega (arith, start_le_stop limit c.time stop cs t.2)

charge_add : (limit : Limit) (a b : ℕ) → charge limit (a + b) ≡ charge limit a + charge limit b
charge_add limit a b = grind arith

-- What is granted from a state on has pushed the key's level up, and no grant pushes it further
-- than a burst ahead of its time.
granted_bound :
    (limit : Limit) (k : String) (s : Store) (start stop : ℕ) (cs : List Call)
    → IsUsable limit
    → IsValid s
    → IsRecent start s
    → InRange stop
    → Timed limit start stop cs
    → (granted limit k s cs ≡ 0)
      ⊎ (level s start k + charge limit (granted limit k s cs) ≤ stop + charge limit limit.burst)
unfolding granted
granted_bound limit k s start stop [] u v r n t = inl refl
granted_bound limit k s start stop (c ∷ cs) u v r n (before, small, t) =
    let request = request_of limit c in
    let s' = (take_at s c.time request).0 in
    let d = (take_at s c.time request).1 in
    let in_time = start_le_stop limit c.time stop cs t in
    let takes =
      take_at-Takes s c.time request v (omega arith) (recent_later start c.time s before r) u
        small in
    let rest = granted_bound limit k s' c.time stop cs u takes.valid takes.recent n t in
    let up = base_later start c.time (find k s.records) before in
    let moved = takes.charged c.time (omega arith) k in
    let later = granted limit k s' cs in
    ground (arith, rest, up, moved, takes.decided, charge_add limit c.cost later)

-- Over any run of requests at clock readings that do not go back, of any keys and under one usable
-- limit, the units granted to a key take no longer to replenish, at the rounded interval, than the
-- run lasts plus a full burst.
pub granted_window :
    (limit : Limit) (k : String) (s : Store) (start stop : ℕ) (cs : List Call)
    → IsUsable limit
    → IsValid s
    → IsRecent start s
    → InRange stop
    → Timed limit start stop cs
    → charge limit (granted limit k s cs) ≤ (stop - start) + charge limit limit.burst
granted_window limit k s start stop cs u v r n t = ground (
  arith,
  granted_bound limit k s start stop cs u v r n t,
  start_le_stop limit start stop cs t,
  base-ge start (find k s.records),
)
