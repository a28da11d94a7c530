-- ===== src/Queue/Memory/Next.antt =====
-- Which task `next` of queue/adapter/memory/queue.go takes, and how long it tells a receiver to wait.
use fries.Prelude.{
  ℕ, ◌≤◌, ◌<◌, ◌≡◌, refl, ◌∙◌, sym, ap, subst, ◌⊎◌, inl, inr, Option, none, some, List, [], ◌∷◌,
  ◌++◌, String, arith, ltb, All, All-append, insert, lookup, lookup-insert, ite, if_pos, if_neg,
  string_discrete, append-nil, append_assoc, Bool-cases,
}
use fries.Prelude.Words.{add64}
use fries.Queue.{Task}
use fries.Queue.Memory.{Queue, tasks_of, tasks_at, until, shorter, scan, scanned, next}

-- The task is not available yet.
abbrev pub Later : ℕ → Task → Type 0
Later now task = now < task.available_at

abbrev pub Some : (Task → Type 0) → List Task → Type 0
Some P [] = ⊥
Some P (t ∷ ts) = P t ⊎ Some P ts

-- No wait for no task, and else the time until the first of them is available.
abbrev pub IsWait : ℕ → List Task → ℕ → Type 0
IsWait now [] wait = wait ≡ 0
IsWait now (t ∷ ts) wait =
    (0 < wait) × All (λ u. wait ≤ until now u) (t ∷ ts) × Some (λ u. wait ≡ until now u) (t ∷ ts)

-- What the scan of a queue comes to.
pub data Scans (now : ℕ) (tasks : List Task) : List Task × Option Task × ℕ → Type 0 where
  takes :
      (front : List Task) (task : Task) (back : List Task)
      → tasks ≡ front ++ (task ∷ back)
      → All (Later now) front
      → task.available_at ≤ now
      → Scans now tasks (front ++ back, some task, 0)
  waits :
      (wait : ℕ)
      → All (Later now) tasks
      → IsWait now tasks wait
      → Scans now tasks (tasks, none, wait)

Some-append :
    (P : Task → Type 0) (ts : List Task) (u : Task) → Some P ts ⊎ P u → Some P (ts ++ (u ∷ []))
Some-append P [] u (inl h) = absurd h
Some-append P [] u (inr h) = inl h
Some-append P (t ∷ ts) u (inl (inl h)) = inl h
Some-append P (t ∷ ts) u (inl (inr h)) = inr (Some-append P ts u (inl h))
Some-append P (t ∷ ts) u (inr h) = inr (Some-append P ts u (inr h))

All-weaken :
    (a b now : ℕ) (ts : List Task)
    → b ≤ a
    → All (λ u. a ≤ until now u) ts
    → All (λ u. b ≤ until now u) ts
All-weaken a b now [] h k = tt
All-weaken a b now (t ∷ ts) h k = (omega (arith, h, k.0), All-weaken a b now ts h k.1)

-- One more task that is not available.
IsWait-shorter :
    (now wait : ℕ) (ts : List Task) (u : Task)
    → IsWait now ts wait
    → Later now u
    → IsWait now (ts ++ (u ∷ [])) (shorter wait (until now u))
unfolding shorter
IsWait-shorter now wait [] u h l =
    (ground (arith, h), (ground (arith, h), tt), inl (ground (arith, h)))
IsWait-shorter now wait (t ∷ ts) u (pos, all, here) l = elim (Bool-cases (ltb (until now u) wait)) [
  | inl e ↦
      let d = until now u in
      let same : shorter wait d ≡ d = ground (arith, e) in
      let low : d ≤ wait = ground (arith, e) in
      subst (IsWait now ((t ∷ ts) ++ (u ∷ []))) (sym same) (
        ground (arith, l),
        All-append (λ v. d ≤ until now v) (t ∷ ts) (u ∷ []) (All-weaken wait d now (t ∷ ts) low all)
            (omega arith, tt),
        Some-append (λ v. d ≡ until now v) (t ∷ ts) u (inr refl),
      )
  | inr e ↦
      let d = until now u in
      let same : shorter wait d ≡ wait = ground (arith, e, pos) in
      subst (IsWait now ((t ∷ ts) ++ (u ∷ []))) (sym same) (
        pos,
        All-append (λ v. wait ≤ until now v) (t ∷ ts) (u ∷ []) all (ground (arith, e), tt),
        Some-append (λ v. wait ≡ until now v) (t ∷ ts) u (inl here),
      )
]

pub scan-Scans :
    (now wait : ℕ) (passed tasks whole : List Task)
    → whole ≡ passed ++ tasks
    → All (Later now) passed
    → IsWait now passed wait
    → Scans now whole (scan now wait passed tasks)
unfolding scan
scan-Scans now wait passed [] whole e h w =
    let same = e ∙ append-nil passed in rw (sym same) (waits wait (rw same h) (rw same w))
scan-Scans now wait passed (task ∷ tasks) whole e h w =
    elim (Bool-cases (ltb now task.available_at)) [
      | inr f ↦ rw f (takes passed task tasks e h (ground arith))
      | inl f ↦
          let later : Later now task = ground arith in
          rw f (
            scan-Scans now (shorter wait (until now task)) (passed ++ (task ∷ [])) tasks whole
              (e ∙ sym (append_assoc passed (task ∷ []) tasks))
              (All-append (Later now) passed (task ∷ []) h (later, tt))
              (IsWait-shorter now wait passed task w later))
    ]

-- A task with one more attempt.
abbrev pub delivered : Task → Task
delivered task = record task { attempt = add64 task.attempt 1 }

-- What `next` may leave and return for the queue of a name.
pub data Nexts (q : Queue) (now : ℕ) (name : String) : Queue × Option Task × ℕ → Type 0 where
  taken :
      (q' : Queue) (front : List Task) (task : Task) (back : List Task)
      → tasks_of q.queues name ≡ front ++ (task ∷ back)
      → All (Later now) front
      → task.available_at ≤ now
      → tasks_of q'.queues name ≡ front ++ back
      → ((k : String) → (name ≡ k) ⊎ (tasks_of q'.queues k ≡ tasks_of q.queues k))
      → q'.dead_letter ≡ q.dead_letter
      → Nexts q now name (q', some (delivered task), 0)
  idle :
      (wait : ℕ)
      → All (Later now) (tasks_of q.queues name)
      → IsWait now (tasks_of q.queues name) wait
      → Nexts q now name (q, none, wait)

scanned-Nexts :
    (q : Queue) (now : ℕ) (name : String) (r : List Task × Option Task × ℕ)
    → Scans now (tasks_of q.queues name) r
    → Nexts q now name (scanned q name r)
unfolding scanned
scanned-Nexts q now name _ (waits wait h w) = idle wait h w
scanned-Nexts q now name _ (takes front task back e h due) =
    let look : (k : String)
        → lookup string_discrete k (insert string_discrete name (front ++ back) q.queues)
          ≡ ite (string_discrete name k) (some (front ++ back))
              (lookup string_discrete k q.queues) =
      λ k. lookup-insert string_discrete name k (front ++ back) q.queues in
    let at_name : ite (string_discrete name name) (some (front ++ back))
          (lookup string_discrete name q.queues)
        ≡ some (front ++ back) =
      rw (if_pos (string_discrete name name) refl) refl in
    taken (record q { queues = insert string_discrete name (front ++ back) q.queues }) front task
      back e h due (ap tasks_at (look name ∙ at_name))
      (λ k. elim (string_discrete name k) [
        | yes p ↦ inl p
        | no n ↦ inr (rw (look k, if_neg (string_discrete name k) n) refl)
      ])
      refl

-- `next` takes the first task of the queue that is available, counts an attempt on it, and leaves the
-- other tasks in their order and the other queues and the dead letters as they were. If no task is
-- available it leaves the queue as it was and tells the time until the first one is, or no wait if
-- there is no task.
pub next-Nexts : (q : Queue) (now : ℕ) (name : String) → Nexts q now name (next q now name)
unfolding next
next-Nexts q now name =
    scanned-Nexts q now name _
      (scan-Scans now 0 [] (tasks_of q.queues name) (tasks_of q.queues name) refl tt refl)
