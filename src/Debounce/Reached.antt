-- ===== src/Debounce/Reached.antt =====
-- What holds whenever debounce/debouncer.go is used.
use fries.Prelude.{
  ℕ, ◌<◌, ◌≡◌, refl, sym, ap, ◌∙◌, subst, Bool, true, false, Option, none, some, List, arith, ltb,
  ltb→lt, lt→ltb, ◌||◌, inl, inr, ◌-◌,
}
use fries.Debounce.{
  Error, DebounceOption, Invocation, Debouncer, opened, stop, due_at, chosen, next_at, next,
  executed,
}
use fries.Debounce.System.{
  Pc, looking, executing, waiting, leaving, gone, System, went, Step, triggers, selects, stops,
  cancels, looks, executes, wakes, ticks, ends, leaves, Reach, here, further,
}
use fries.Debounce.Completions.{Kept, held, times, due_at-Kept, chosen-Kept, executed-Kept}
use fries.Debounce.Moves.{
  Emptied, Alert, Moved, trigger-Moved, select_flush-Moved, stop-Moved, cancel-Moved, stop-closed,
}

module _ {T : Type 0} where
  -- The running slot is what the worker executes.
  abbrev Serving : Option (Invocation T) → Pc T → Type 0
  Serving running (executing c) = running ≡ some c
  Serving running looking = running ≡ none
  Serving running (waiting timer) = running ≡ none
  Serving running leaving = running ≡ none
  Serving running gone = running ≡ none

  abbrev Watching : Debouncer T → Pc T → Type 0
  Watching d (executing c) = Unit
  Watching d looking = Unit
  Watching d (waiting timer) = Alert timer d
  Watching d leaving = Unit
  Watching d gone = Unit

  abbrev Done : Debouncer T → Pc T → Type 0
  Done d (executing c) = Unit
  Done d looking = Unit
  Done d (waiting timer) = Unit
  Done d leaving = Unit
  Done d gone = d.closed ≡ true

  record Inv (d : Debouncer T) (w : Pc T) : Type 0 where
    kept : Kept d
    emptied : Emptied d
    serving : Serving d.running w
    watching : Watching d w
    done : Done d w

  Moved-Watching : (d e : Debouncer T) (w : Pc T) → Moved d e → Watching d w → Watching e w
  Moved-Watching d e (executing c) m h = tt
  Moved-Watching d e looking m h = tt
  Moved-Watching d e (waiting timer) m h = m.alert timer h
  Moved-Watching d e leaving m h = tt
  Moved-Watching d e gone m h = tt

  Moved-Done : (d e : Debouncer T) (w : Pc T) → Moved d e → Done d w → Done e w
  Moved-Done d e (executing c) m h = tt
  Moved-Done d e looking m h = tt
  Moved-Done d e (waiting timer) m h = tt
  Moved-Done d e leaving m h = tt
  Moved-Done d e gone m h = m.closed h

  Moved-Inv : (d e : Debouncer T) (w : Pc T) → Moved d e → Inv d w → Inv e w
  Moved-Inv d e w m i = record {
    kept = m.kept i.kept;
    emptied = m.emptied i.emptied;
    serving = subst (λ r. Serving r w) (sym m.running) i.serving;
    watching = Moved-Watching d e w m i.watching;
    done = Moved-Done d e w m i.done;
  }

  -- What `next` makes of a debouncer whose worker runs nothing.
  timed-Inv :
      (b : Bool) (now : ℕ) (c : Invocation T) (d : Debouncer T)
      → ltb now c.due ≡ b
      → some c ≡ d.pending
      → d.ready ≡ none
      → Inv d looking
      → (let r = due_at b (c.due - now) c d in Inv r.0 (went r.1))
  unfolding due_at went
  timed-Inv true now c d e ep er i = record {
    kept = i.kept;
    emptied = i.emptied;
    serving = i.serving;
    watching =
        inr (inr (er, inl (lt→ltb 0 (c.due - now) (let h = ltb→lt now c.due e in omega arith))));
    done = tt;
  }
  timed-Inv false now c d e ep er i = record {
    kept = due_at-Kept false (c.due - now) c d ep i.serving i.kept;
    emptied = λ h. (refl, (i.emptied h).1, (i.emptied h).2);
    serving = refl;
    watching = tt;
    done = tt;
  }

  chosen-Inv :
      (now : ℕ) (r p : Option (Invocation T)) (d : Debouncer T)
      → r ≡ d.ready
      → p ≡ d.pending
      → Inv d looking
      → Inv (chosen now r p d).0 (went (chosen now r p d).1)
  unfolding chosen went
  chosen-Inv now (some c) p d er ep i = record {
    kept = chosen-Kept now (some c) p d er ep i.serving i.kept;
    emptied = λ h. ((i.emptied h).0, refl, (i.emptied h).2);
    serving = refl;
    watching = tt;
    done = tt;
  }
  chosen-Inv now none none d er ep i = record {
    kept = i.kept;
    emptied = i.emptied;
    serving = i.serving;
    watching = inr (inr (sym er, inr (sym ep)));
    done = tt;
  }
  chosen-Inv now none (some c) d er ep i = timed-Inv (ltb now c.due) now c d refl ep (sym er) i

  next_at-Inv :
      (b : Bool) (now : ℕ) (d : Debouncer T)
      → Inv d looking
      → Inv (next_at b now d).0 (went (next_at b now d).1)
  unfolding next_at went
  next_at-Inv true now d i = record {
    kept = i.kept;
    emptied = i.emptied;
    serving = i.serving;
    watching = tt;
    done = tt;
  }
  next_at-Inv false now d i = chosen-Inv now d.ready d.pending d refl refl i

  next-Inv : (now : ℕ) (d : Debouncer T) → Inv d looking → Inv (next now d).0 (went (next now d).1)
  unfolding next
  next-Inv now d i = next_at-Inv (d.closed || d.cancelled) now d i

  executed-Inv :
      (c : Invocation T) (err : Option Error) (d : Debouncer T)
      → Inv d (executing c)
      → Inv (executed c err d) looking
  unfolding executed
  executed-Inv c err d i = record {
    kept = executed-Kept c err d i.serving i.kept;
    emptied = i.emptied;
    serving = refl;
    watching = tt;
    done = tt;
  }

  waited-Inv : (d : Debouncer T) (timer : Bool) → Inv d (waiting timer) → Inv d looking
  waited-Inv d timer i = record {
    kept = i.kept;
    emptied = i.emptied;
    serving = i.serving;
    watching = tt;
    done = tt;
  }

  woken-Inv : (d : Debouncer T) → Inv d looking → Inv (record d { wake = false }) looking
  woken-Inv d i = record {
    kept = i.kept;
    emptied = i.emptied;
    serving = i.serving;
    watching = tt;
    done = tt;
  }

  left-Inv : (d : Debouncer T) → Inv d leaving → Inv (stop d) gone
  left-Inv d i =
      let m = stop-Moved d in
      record {
        kept = m.kept i.kept;
        emptied = m.emptied i.emptied;
        serving = m.running ∙ i.serving;
        watching = tt;
        done = stop-closed d;
      }

  Step-Inv : (s t : System T) → Step s t → Inv s.debouncer s.worker → Inv t.debouncer t.worker
  Step-Inv s t (triggers now value) i =
      Moved-Inv s.debouncer _ s.worker (trigger-Moved now value s.debouncer) i
  Step-Inv s t selects i = Moved-Inv s.debouncer _ s.worker (select_flush-Moved s.debouncer) i
  Step-Inv s t stops i = Moved-Inv s.debouncer _ s.worker (stop-Moved s.debouncer) i
  Step-Inv s t cancels i = Moved-Inv s.debouncer _ s.worker (cancel-Moved s.debouncer) i
  Step-Inv s t (looks now e) i = next-Inv now s.debouncer (subst (Inv s.debouncer) e i)
  Step-Inv s t (executes c err e) i = executed-Inv c err s.debouncer (subst (Inv s.debouncer) e i)
  Step-Inv s t (wakes timer e w) i =
      woken-Inv s.debouncer (waited-Inv s.debouncer timer (subst (Inv s.debouncer) e i))
  Step-Inv s t (ticks e) i = waited-Inv s.debouncer true (subst (Inv s.debouncer) e i)
  Step-Inv s t (ends timer e h) i =
      Moved-Inv s.debouncer (stop s.debouncer) looking (stop-Moved s.debouncer)
        (waited-Inv s.debouncer timer (subst (Inv s.debouncer) e i))
  Step-Inv s t (leaves e) i = left-Inv s.debouncer (subst (Inv s.debouncer) e i)

module _ {T : Type 0} (delay : ℕ) (options : List DebounceOption) where
  opened-Inv : Inv {T = T} (opened delay options) looking
  unfolding opened
  opened-Inv = record {
    kept = λ i. ground arith;
    emptied = λ h. absurd cc;
    serving = refl;
    watching = tt;
    done = tt;
  }

  Reach-Inv : (s : System T) → Reach delay options s → Inv s.debouncer s.worker
  Reach-Inv s here = opened-Inv
  Reach-Inv s (further {s = r} h step) = Step-Inv r s step (Reach-Inv r h)

  -- In every reachable state each invocation that Trigger has made is in exactly one of the slots
  -- pending, ready and running, or its channel has been closed exactly once; and no other invocation
  -- is in a slot or completed.
  pub completed_once : (s : System T) → Reach delay options s → Kept s.debouncer
  completed_once s h = (Reach-Inv s h).kept

  -- Whenever the worker waits in its select, a wake-up is stored, or the processing context is done,
  -- or no value is frozen and the worker has set its timer or no value is pending.
  pub wake_not_lost :
      (s : System T) (timer : Bool)
      → Reach delay options s
      → s.worker ≡ waiting timer
      → Alert timer s.debouncer
  wake_not_lost s timer h e = (subst (Inv s.debouncer) e (Reach-Inv s h)).watching

  -- Once the worker has closed `done`, so that Close returns, the debouncer is closed, its slots are
  -- empty, and every invocation that was made has been completed exactly once.
  pub close_completes :
      (s : System T) (i : ℕ)
      → Reach delay options s
      → s.worker ≡ gone
      → i < s.debouncer.made
      → (s.debouncer.closed ≡ true)
        × (s.debouncer.pending ≡ none)
        × (s.debouncer.ready ≡ none)
        × (s.debouncer.running ≡ none)
        × (times i s.debouncer.completed ≡ 1)
  close_completes s i h e lt =
      let inv = subst (Inv s.debouncer) e (Reach-Inv s h) in
      let slots = inv.emptied inv.done in
      let p = ap (held i) slots.0 in
      let r = ap (held i) slots.1 in
      let u = ap (held i) inv.serving in
      let k = inv.kept i in
      let b = lt→ltb i s.debouncer.made lt in
      (inv.done, slots.0, slots.1, inv.serving, ground arith)
