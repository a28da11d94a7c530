-- ===== src/Queue/Pending.antt =====
-- All pending tasks of queue/adapter/memory/queue.go: properties and sums over every queue.
use fries.Prelude.{
  ℕ, suc, ◌+◌, ◌≤◌, ◌≡◌, refl, ap, ◌∙◌, subst, inl, inr, Option, none, some, List, [], ◌∷◌, ◌++◌,
  String, arith, All, All-append, if_pos, if_neg, lookup, insert, string_discrete, Option-cases,
}
use fries.Queue.{Task, or_default, failure}
use fries.Queue.Memory.{
  Queue, tasks_of, signal, store_task, enqueue, scanned, next, retry, bury, later,
}
use fries.Queue.Memory.Next.{Scans, takes, waits, scan-Scans, delivered}

abbrev pub Entries : Type 0
Entries = List (String × List Task)

-- Every task of every queue.
abbrev pub Everywhere : (Task → Type 0) → Entries → Type 0
Everywhere P [] = Unit
Everywhere P (e ∷ m) = All P e.1 × Everywhere P m

abbrev pub sum : (Task → ℕ) → List Task → ℕ
sum f [] = 0
sum f (t ∷ ts) = f t + sum f ts

abbrev pub total : (Task → ℕ) → Entries → ℕ
total f [] = 0
total f (e ∷ m) = sum f e.1 + total f m

pub sum-append : (f : Task → ℕ) (ts us : List Task) → sum f (ts ++ us) ≡ sum f ts + sum f us
sum-append f [] us = omega arith
sum-append f (t ∷ ts) us = omega (arith, sum-append f ts us)

module _ (P : Task → Type 0) where
  pub Everywhere-at : (m : Entries) (k : String) → Everywhere P m → All P (tasks_of m k)
  unfolding lookup
  Everywhere-at [] k h = tt
  Everywhere-at ((j, ts) ∷ m) k h = elim (string_discrete j k) [
    | yes e ↦ rw (if_pos (string_discrete j k) e) h.0
    | no n ↦ rw (if_neg (string_discrete j k) n) (Everywhere-at m k h.1)
  ]

  pub Everywhere-insert :
      (m : Entries) (k : String) (ts : List Task)
      → All P ts
      → Everywhere P m
      → Everywhere P (insert string_discrete k ts m)
  unfolding insert
  Everywhere-insert [] k ts h all = (h, tt)
  Everywhere-insert ((j, us) ∷ m) k ts h all = elim (string_discrete j k) [
    | yes e ↦ rw (if_pos (string_discrete j k) e) (h, all.1)
    | no n ↦ rw (if_neg (string_discrete j k) n) (all.0, Everywhere-insert m k ts h all.1)
  ]

module _ (f : Task → ℕ) where
  pub total-insert :
      (m : Entries) (k : String) (ts : List Task)
      → total f (insert string_discrete k ts m) + sum f (tasks_of m k) ≡ total f m + sum f ts
  unfolding insert lookup
  total-insert [] k ts = omega arith
  total-insert ((j, us) ∷ m) k ts = elim (string_discrete j k) [
    | yes e ↦ rw (if_pos (string_discrete j k) e, if_pos (string_discrete j k) e) (omega arith)
    | no n ↦
        rw (if_neg (string_discrete j k) n, if_neg (string_discrete j k) n)
          (omega (arith, total-insert m k ts))
  ]

-- An item out of the middle of a list.
pub All-middle :
    (P : Task → Type 0) (front back : List Task) (t : Task)
    → All P (front ++ (t ∷ back))
    → P t × All P (front ++ back)
All-middle P [] back t h = (h.0, h.1)
All-middle P (u ∷ front) back t h = let (a, b) = All-middle P front back t h.1 in (a, (h.0, b))

-- DeadLetter leaves the pending tasks alone.
pub bury-queues :
    (q : Queue) (ctx : ℕ → Option String) (t : Task) (reason : String)
    → (bury q ctx (some t) reason).0.queues ≡ q.queues
unfolding bury
bury-queues q ctx t reason = elim (Option-cases (failure ctx 0)) [
  | inl e ↦ rw (e, bury) refl
  | inr (x, e) ↦ rw (e, bury) refl
]

-- What depends on the attempts of a task only.
module _ (g : ℕ → ℕ) (R : ℕ → Type 0) where
  abbrev pub weight_of : Queue → ℕ
  weight_of q = total (λ t. g t.attempt) q.queues

  abbrev pub Holds : Queue → Type 0
  Holds q = Everywhere (λ t. R t.attempt) q.queues

  -- The queue q' has at most one task more than q, with this number of attempts.
  pub record Grown (q q' : Queue) (attempt : ℕ) : Type 0 where
    pub weighs : weight_of q' ≤ weight_of q + g attempt
    pub holds : R attempt → Holds q → Holds q'

  pub same-Grown : (q : Queue) (attempt : ℕ) → Grown q q attempt
  same-Grown q attempt = record { weighs = omega arith; holds = λ r h. h }

  store-Grown : (q : Queue) (t : Task) → Grown q (store_task q t) t.attempt
  unfolding store_task signal
  store-Grown q t =
      let ts = tasks_of q.queues t.queue in
      let f : Task → ℕ = λ u. g u.attempt in
      let grown = total-insert f q.queues t.queue (ts ++ (t ∷ [])) in
      let more = sum-append f ts (t ∷ []) in
      record {
        weighs = omega (arith, grown, more);
        holds = λ r h.
            Everywhere-insert (λ u. R u.attempt) q.queues t.queue (ts ++ (t ∷ []))
              (All-append (λ u. R u.attempt) ts (t ∷ [])
                (Everywhere-at (λ u. R u.attempt) q.queues t.queue h) (r, tt))
              h;
      }

  pub enqueue-Grown :
      (q : Queue) (ctx : ℕ → Option String) (t : Task)
      → Grown q (enqueue q ctx (some t)).0 t.attempt
  unfolding enqueue
  enqueue-Grown q ctx t = elim (Option-cases (failure ctx 0)) [
    | inl e ↦ rw (e, enqueue) (store-Grown q (record t { queue = or_default t.queue }))
    | inr (x, e) ↦ rw (e, enqueue) (same-Grown q t.attempt)
  ]

  pub retry-Grown :
      (q : Queue) (ctx : ℕ → Option String) (now delay : ℕ) (t : Task)
      → Grown q (retry q ctx now (some t) delay).0 t.attempt
  unfolding retry
  retry-Grown q ctx now delay t = elim (Option-cases (failure ctx 0)) [
    | inl e ↦
        rw (e, retry)
          (enqueue-Grown q (λ n. ctx (suc n)) (record t { available_at = later now delay }))
    | inr (x, e) ↦ rw (e, retry) (same-Grown q t.attempt)
  ]

  -- What a look takes out of the queue.
  pub data Looked (q : Queue) : Queue × Option Task × ℕ → Type 0 where
    took :
        (q' : Queue) (task : Task)
        → weight_of q' + g task.attempt ≡ weight_of q
        → (Holds q → R task.attempt × Holds q')
        → Looked q (q', some (delivered task), 0)
    saw : (wait : ℕ) → Looked q (q, none, wait)

  scanned-Looked :
      (q : Queue) (now : ℕ) (name : String) (r : List Task × Option Task × ℕ)
      → Scans now (tasks_of q.queues name) r
      → Looked q (scanned q name r)
  unfolding scanned
  scanned-Looked q now name _ (waits wait h w) = saw wait
  scanned-Looked q now name _ (takes front task back e h due) =
      let f : Task → ℕ = λ u. g u.attempt in
      let P : Task → Type 0 = λ u. R u.attempt in
      let left = total-insert f q.queues name (front ++ back) in
      let all = ap (sum f) e ∙ sum-append f front (task ∷ back) in
      let rest = sum-append f front back in
      took (record q { queues = insert string_discrete name (front ++ back) q.queues }) task
        (omega (arith, left, all, rest))
        (λ held.
          let (a, b) =
            All-middle P front back task (subst (All P) e (Everywhere-at P q.queues name held)) in
          (a, Everywhere-insert P q.queues name (front ++ back) b held))

  pub next-Looked : (q : Queue) (now : ℕ) (name : String) → Looked q (next q now name)
  unfolding next
  next-Looked q now name =
      scanned-Looked q now name _
        (scan-Scans now 0 [] (tasks_of q.queues name) (tasks_of q.queues name) refl tt refl)
