-- ===== src/Debounce/Latest.antt =====
-- Which value debounce/debouncer.go runs, and when.
use fries.Prelude.{
  ℕ, ◌+◌, ◌-◌, ◌<◌, ◌≤◌, ◌≡◌, refl, sym, ap, ◌∙◌, subst, Bool, true, false, Option, none, some,
  arith, ltb, ◌||◌,
}
use fries.Debounce.{
  Invocation, Debouncer, stored, trigger_at, trigger, frozen, select_flush_at, select_flush, run,
  sleep, due_at, chosen, next_at, next,
}

or-false : (a b : Bool) → a ≡ false → b ≡ false → (a || b) ≡ false
or-false true b e f = e
or-false false b e f = f

module _ {T : Type 0} where
  next_pending :
      (now : ℕ) (c : Invocation T) (d : Debouncer T)
      → d.closed ≡ false
      → d.cancelled ≡ false
      → d.ready ≡ none
      → d.pending ≡ some c
      → next now d ≡ due_at (ltb now c.due) (c.due - now) c d
  unfolding next next_at chosen
  next_pending now c d f g er ep =
      ap (λ b. next_at b now d) (or-false d.closed d.cancelled f g)
      ∙ (ap (λ r. chosen now r d.pending d) er ∙ ap (λ p. chosen now none p d) ep)

  flushed_next :
      (now : ℕ) (c : Invocation T) (d : Debouncer T)
      → d.closed ≡ false
      → d.cancelled ≡ false
      → d.ready ≡ none
      → d.pending ≡ some c
      → (next now (select_flush d).0).1 ≡ run c
  unfolding select_flush select_flush_at frozen next next_at chosen
  flushed_next now c d f g er ep =
      ap (λ b. (next now (select_flush_at b d).0).1) e
      ∙ (ap (λ r. (next now (frozen r d.pending d).0).1) er
          ∙ (ap (λ p. (next now (frozen none p d).0).1) ep
              ∙ ap (λ b. (next_at b now (frozen none (some c) d).0).1) e))
    where
      e : (d.closed || d.cancelled) ≡ false
      e = or-false d.closed d.cancelled f g

  due-later :
      (now : ℕ) (c : Invocation T) (d : Debouncer T) (b : Bool)
      → ltb now c.due ≡ b
      → now < c.due
      → (due_at b (c.due - now) c d).1 ≡ sleep (c.due - now)
  unfolding due_at
  due-later now c d true e h = refl
  due-later now c d false e h = absurd (ground arith)

  due-now :
      (now : ℕ) (c : Invocation T) (d : Debouncer T) (b : Bool)
      → ltb now c.due ≡ b
      → c.due ≤ now
      → (due_at b (c.due - now) c d).1 ≡ run c
  unfolding due_at
  due-now now c d true e h = absurd (ground arith)
  due-now now c d false e h = refl

  -- The worker's next step on a debouncer and on the one that a flush leaves: it runs the value, at
  -- once after a flush and otherwise when it is due.
  abbrev pub Runs : (now due : ℕ) (value : T) → Debouncer T → Type 0
  Runs now due value d =
      (now < due → (next now d).1 ≡ sleep (due - now))
      × ((due ≤ now → (c : Invocation T) × ((next now d).1 ≡ run c) × (c.value ≡ value))
          × ((c : Invocation T) × ((next now (select_flush d).0).1 ≡ run c) × (c.value ≡ value)))

  pending-Runs :
      (now : ℕ) (c : Invocation T) (d : Debouncer T)
      → d.closed ≡ false
      → d.cancelled ≡ false
      → d.ready ≡ none
      → d.pending ≡ some c
      → Runs now c.due c.value d
  pending-Runs now c d f g er ep =
      let e = ap (λ p. p.1) (next_pending now c d f g er ep) in
      (
        (λ h. e ∙ due-later now c d (ltb now c.due) refl h),
        (
          (λ h. (c, e ∙ due-now now c d (ltb now c.due) refl h, refl)),
          (c, flushed_next now c d f g er ep, refl),
        ),
      )

  stored-Runs :
      (now time : ℕ) (value : T) (o : Option (Invocation T)) (d : Debouncer T)
      → d.closed ≡ false
      → d.cancelled ≡ false
      → d.ready ≡ none
      → Runs now (time + d.delay) value (stored time value o d)
  unfolding stored
  stored-Runs now time value none d f g er =
      pending-Runs now (record { id = d.made; value = value; due = time + d.delay })
        (stored time value none d) f g er refl
  stored-Runs now time value (some c) d f g er =
      pending-Runs now (record c { value = value; due = time + d.delay })
        (stored time value (some c) d) f g er refl

  -- After a Trigger on an open debouncer with no frozen value, whatever was pending, the worker's
  -- next look sleeps for what is left of a whole delay from that Trigger, and runs its value when the
  -- delay is over; after a Flush it runs its value at once.
  pub trigger-Runs_latest :
      (now time : ℕ) (value : T) (d : Debouncer T)
      → d.closed ≡ false
      → d.cancelled ≡ false
      → d.ready ≡ none
      → Runs now (time + d.delay) value (trigger time value d).0
  unfolding trigger trigger_at
  trigger-Runs_latest now time value d f g er =
      subst (λ b. Runs now (time + d.delay) value (trigger_at b time value d).0)
        (sym (or-false d.closed d.cancelled f g)) (stored-Runs now time value d.pending d f g er)
