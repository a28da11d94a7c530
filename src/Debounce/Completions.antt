-- ===== src/Debounce/Completions.antt =====
-- How often debounce/debouncer.go completes an invocation.
use fries.Prelude.{
  ℕ, suc, ◌+◌, ◌≡◌, refl, ap, Bool, true, false, Option, none, some, List, [], ◌∷◌, arith,
  if◌then◌else◌, ◌==◌, ltb, ◌-◌,
}
use fries.Debounce.{
  Error, Invocation, Debouncer, stored, trigger_at, frozen, select_flush_at, discarded, stop_at,
  due_at, chosen, next_at, executed,
}

abbrev pub one : ℕ → ℕ → ℕ
one i n = if i == n then 1 else 0

abbrev pub below : ℕ → ℕ → ℕ
below i n = if ltb i n then 1 else 0

below-suc : (i n : ℕ) → below i (suc n) ≡ one i n + below i n
below-suc i n = ground arith

-- How often the channel of an invocation has been closed.
abbrev pub times : ℕ → List (ℕ × Option Error) → ℕ
times i [] = 0
times i (c ∷ cs) = one i c.0 + times i cs

module _ {T : Type 0} where
  abbrev pub held : ℕ → Option (Invocation T) → ℕ
  held i none = 0
  held i (some c) = one i c.id

  -- Every invocation that was made is in one of the slots, or its channel was closed once.
  abbrev pub Kept : Debouncer T → Type 0
  Kept d =
      (i : ℕ)
      → held i d.pending + held i d.ready + held i d.running + times i d.completed ≡ below i d.made

  pub stored-Kept :
      (now : ℕ) (value : T) (o : Option (Invocation T)) (d : Debouncer T)
      → o ≡ d.pending
      → Kept d
      → Kept (stored now value o d)
  unfolding stored
  stored-Kept now value none d e k i =
      let h = ap (held i) e in let b = below-suc i d.made in let q = k i in omega arith
  stored-Kept now value (some c) d e k i = let h = ap (held i) e in let q = k i in omega arith

  pub trigger_at-Kept :
      (b : Bool) (now : ℕ) (value : T) (d : Debouncer T)
      → Kept d
      → Kept (trigger_at b now value d).0
  unfolding trigger_at
  trigger_at-Kept true now value d k = k
  trigger_at-Kept false now value d k = stored-Kept now value d.pending d refl k

  pub frozen-Kept :
      (r p : Option (Invocation T)) (d : Debouncer T)
      → r ≡ d.ready
      → p ≡ d.pending
      → Kept d
      → Kept (frozen r p d).0
  unfolding frozen
  frozen-Kept (some c) p d er ep k i = k i
  frozen-Kept none (some c) d er ep k i =
      let h = ap (held i) er in let g = ap (held i) ep in let q = k i in omega arith
  frozen-Kept none none d er ep k i = k i

  pub select_flush_at-Kept : (b : Bool) (d : Debouncer T) → Kept d → Kept (select_flush_at b d).0
  unfolding select_flush_at
  select_flush_at-Kept true d k = k
  select_flush_at-Kept false d k = frozen-Kept d.ready d.pending d refl refl k

  times-discarded :
      (i : ℕ) (o : Option (Invocation T)) (cs : List (ℕ × Option Error))
      → times i (discarded o cs) ≡ held i o + times i cs
  unfolding discarded
  times-discarded i none cs = omega arith
  times-discarded i (some c) cs = refl

  pub stop_at-Kept : (b : Bool) (d : Debouncer T) → Kept d → Kept (stop_at b d)
  unfolding stop_at
  stop_at-Kept true d k i = k i
  stop_at-Kept false d k i =
      let h = times-discarded i d.ready (discarded d.pending d.completed) in
      let g = times-discarded i d.pending d.completed in let q = k i in omega arith

  pub due_at-Kept :
      (b : Bool) (left : ℕ) (c : Invocation T) (d : Debouncer T)
      → some c ≡ d.pending
      → d.running ≡ none
      → Kept d
      → Kept (due_at b left c d).0
  unfolding due_at
  due_at-Kept true left c d ep eu k i = k i
  due_at-Kept false left c d ep eu k i =
      let g = ap (held i) ep in let h = ap (held i) eu in let q = k i in omega arith

  pub chosen-Kept :
      (now : ℕ) (r p : Option (Invocation T)) (d : Debouncer T)
      → r ≡ d.ready
      → p ≡ d.pending
      → d.running ≡ none
      → Kept d
      → Kept (chosen now r p d).0
  unfolding chosen
  chosen-Kept now (some c) p d er ep eu k i =
      let g = ap (held i) er in let h = ap (held i) eu in let q = k i in omega arith
  chosen-Kept now none none d er ep eu k i = k i
  chosen-Kept now none (some c) d er ep eu k i =
      due_at-Kept (ltb now c.due) (c.due - now) c d ep eu k i

  pub next_at-Kept :
      (b : Bool) (now : ℕ) (d : Debouncer T) → d.running ≡ none → Kept d → Kept (next_at b now d).0
  unfolding next_at
  next_at-Kept true now d eu k = k
  next_at-Kept false now d eu k = chosen-Kept now d.ready d.pending d refl refl eu k

  pub executed-Kept :
      (c : Invocation T) (err : Option Error) (d : Debouncer T)
      → d.running ≡ some c
      → Kept d
      → Kept (executed c err d)
  unfolding executed
  executed-Kept c err d e k i = let h = ap (held i) e in let q = k i in omega arith
