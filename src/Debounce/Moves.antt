-- ===== src/Debounce/Moves.antt =====
-- What the callers of debounce/debouncer.go do to it while the worker works.
use fries.Prelude.{ℕ, ◌≡◌, refl, Bool, true, false, Option, none, some, ◌||◌, ◌⊎◌, inl, inr}
use fries.Debounce.{
  Invocation, Debouncer, stored, trigger_at, trigger, frozen, select_flush_at, select_flush,
  stop_at, stop,
}
use fries.Debounce.Completions.{Kept, stored-Kept, frozen-Kept, stop_at-Kept}

or-closed : (a b : Bool) → (a || b) ≡ false → a ≡ false
or-closed true b e = e
or-closed false b e = refl

module _ {T : Type 0} where
  -- A closed debouncer has dropped its values and ended its context.
  abbrev pub Emptied : Debouncer T → Type 0
  Emptied d = d.closed ≡ true → (d.pending ≡ none) × (d.ready ≡ none) × (d.cancelled ≡ true)

  -- A worker in its select, with a timer or without, misses nothing.
  abbrev pub Alert : Bool → Debouncer T → Type 0
  Alert timer d =
      (d.wake ≡ true)
      ⊎ ((d.cancelled ≡ true) ⊎ ((d.ready ≡ none) × ((timer ≡ true) ⊎ (d.pending ≡ none))))

  pub record Moved (d e : Debouncer T) : Type 0 where
    pub running : e.running ≡ d.running
    pub closed : d.closed ≡ true → e.closed ≡ true
    pub emptied : Emptied d → Emptied e
    pub alert : (timer : Bool) → Alert timer d → Alert timer e
    pub kept : Kept d → Kept e

  stays-Moved : (d : Debouncer T) → Moved d d
  stays-Moved d = record {
    running = refl;
    closed = λ h. h;
    emptied = λ h. h;
    alert = λ timer h. h;
    kept = λ h. h;
  }

  stored-Moved :
      (now : ℕ) (value : T) (o : Option (Invocation T)) (d : Debouncer T)
      → o ≡ d.pending
      → d.closed ≡ false
      → Moved d (stored now value o d)
  unfolding stored
  stored-Moved now value none d e f = record {
    running = refl;
    closed = λ h. h;
    emptied = λ m h. absurd cc;
    alert = λ timer h. inl refl;
    kept = stored-Kept now value none d e;
  }
  stored-Moved now value (some c) d e f = record {
    running = refl;
    closed = λ h. h;
    emptied = λ m h. absurd cc;
    alert = λ timer h. inl refl;
    kept = stored-Kept now value (some c) d e;
  }

  trigger-Moved_at :
      (b : Bool) (now : ℕ) (value : T) (d : Debouncer T)
      → (d.closed || d.cancelled) ≡ b
      → Moved d (trigger_at b now value d).0
  unfolding trigger_at
  trigger-Moved_at true now value d e = stays-Moved d
  trigger-Moved_at false now value d e =
      stored-Moved now value d.pending d refl (or-closed d.closed d.cancelled e)

  pub trigger-Moved : (now : ℕ) (value : T) (d : Debouncer T) → Moved d (trigger now value d).0
  unfolding trigger
  trigger-Moved now value d = trigger-Moved_at (d.closed || d.cancelled) now value d refl

  frozen-Moved :
      (r p : Option (Invocation T)) (d : Debouncer T)
      → r ≡ d.ready
      → p ≡ d.pending
      → d.closed ≡ false
      → Moved d (frozen r p d).0
  unfolding frozen
  frozen-Moved (some c) p d er ep f = stays-Moved d
  frozen-Moved none (some c) d er ep f = record {
    running = refl;
    closed = λ h. h;
    emptied = λ m h. absurd cc;
    alert = λ timer h. inl refl;
    kept = frozen-Kept none (some c) d er ep;
  }
  frozen-Moved none none d er ep f = stays-Moved d

  select-Moved_at :
      (b : Bool) (d : Debouncer T) → (d.closed || d.cancelled) ≡ b → Moved d (select_flush_at b d).0
  unfolding select_flush_at
  select-Moved_at true d e = stays-Moved d
  select-Moved_at false d e =
      frozen-Moved d.ready d.pending d refl refl (or-closed d.closed d.cancelled e)

  pub select_flush-Moved : (d : Debouncer T) → Moved d (select_flush d).0
  unfolding select_flush
  select_flush-Moved d = select-Moved_at (d.closed || d.cancelled) d refl

  stop-Moved_at : (b : Bool) (d : Debouncer T) → Moved d (stop_at b d)
  unfolding stop_at
  stop-Moved_at true d = stays-Moved d
  stop-Moved_at false d = record {
    running = refl;
    closed = λ h. refl;
    emptied = λ m h. (refl, refl, refl);
    alert = λ timer h. inl refl;
    kept = stop_at-Kept false d;
  }

  pub stop-Moved : (d : Debouncer T) → Moved d (stop d)
  unfolding stop
  stop-Moved d = stop-Moved_at d.closed d

  pub cancel-Moved : (d : Debouncer T) → Moved d (record d { cancelled = true })
  cancel-Moved d = record {
    running = refl;
    closed = λ h. h;
    emptied = λ m h. ((m h).0, (m h).1, refl);
    alert = λ timer h. inr (inl refl);
    kept = λ k. k;
  }

  stop_at-closed : (b : Bool) (d : Debouncer T) → d.closed ≡ b → (stop_at b d).closed ≡ true
  unfolding stop_at
  stop_at-closed true d e = e
  stop_at-closed false d e = refl

  pub stop-closed : (d : Debouncer T) → (stop d).closed ≡ true
  unfolding stop
  stop-closed d = stop_at-closed d.closed d refl
