-- ===== src/Batcher/System/Reached.antt =====
-- What holds whenever callers use batcher/batcher.go at once.
use fries.Prelude.{
  ◌<◌, ◌≡◌, refl, sym, ap, ◌∙◌, subst, Bool, true, false, Option, none, some, List, [], ◌∷◌, ◌++◌,
  All, append-nil, append_assoc,
}
use fries.Batcher.{Config, Error, Request, item, Handler, flush}
use fries.Batcher.System.{
  System, Step, submits, sends, hands, gives_up, try_sends, try_hands, receives, ticks, ends, stops,
  closes, Reach, here, further,
}
use fries.Batcher.System.Worker.{
  items, items-append, flatten, Fits, Serves, flush-Serves, accept-Serves,
}

module _ {H T : Type 0} (c : Config) where
  -- Nothing is admitted any more once the channel is closed.
  abbrev Closed : System H T → Bool → Type 0
  Closed s true = (s.closed ≡ true) × (s.pending ≡ [])
  Closed s false = Unit

  -- The worker has returned.
  abbrev Over : System H T → Option (Option Error) → Type 0
  Over s none = Unit
  Over s (some e) =
      (s.drained ≡ true) × (s.queue ≡ []) × (s.worker.batch ≡ []) × (s.worker.first_err ≡ e)

  record Inv (s : System H T) : Type 0 where
    seen : List (Request T)
    serves : Serves c seen s.worker
    split : s.accepted ≡ seen ++ s.queue
    closed : Closed s s.drained
    over : Over s s.finished

module _ {H T : Type 0} (c : Config) (handler : Handler H T) (positive : 0 < c.batch_size) where
  bool_ne : ¬ (true ≡ false)
  bool_ne e = cc

  empty_middle : {A : Type 0} (front back : List A) (r : A) → ¬ ([] ≡ front ++ (r ∷ back))
  empty_middle [] back r e = cc
  empty_middle (f ∷ front) back r e = cc

  -- While a call is admitted the channel is open, so the worker has not returned.
  open_if_admitted : (s : System H T) (d : Bool) → Closed c s d → s.closed ≡ false → d ≡ false
  open_if_admitted s true h e = absurd (bool_ne (sym h.0 ∙ e))
  open_if_admitted s false h e = refl

  open_if_pending :
      (s : System H T) (d : Bool) (front back : List (Request T)) (r : Request T)
      → Closed c s d
      → s.pending ≡ front ++ (r ∷ back)
      → d ≡ false
  open_if_pending s true front back r h e = absurd (empty_middle front back r (sym h.1 ∙ e))
  open_if_pending s false front back r h e = refl

  -- What is over stays so, for a state that keeps the parts that count.
  not_over :
      (s : System H T) (f : Option (Option Error)) → Over c s f → s.drained ≡ false → f ≡ none
  not_over s none o e = refl
  not_over s (some x) o e = absurd (bool_ne (sym o.0 ∙ e))

  open-Inv :
      (s : System H T) (seen : List (Request T))
      → Serves c seen s.worker
      → s.accepted ≡ seen ++ s.queue
      → s.drained ≡ false
      → s.finished ≡ none
      → Inv c s
  open-Inv s seen serves split d f = record {
    seen = seen;
    serves = serves;
    split = split;
    closed = subst (Closed c s) (sym d) tt;
    over = subst (Over c s) (sym f) tt;
  }

  still_closed :
      (s t : System H T) (d : Bool)
      → (s.closed ≡ true → t.closed ≡ true)
      → t.pending ≡ s.pending
      → Closed c s d
      → Closed c t d
  still_closed s t true k p h = (k h.0, p ∙ h.1)
  still_closed s t false k p h = tt

  still_over :
      (s t : System H T) (f : Option (Option Error))
      → (s.drained ≡ true → t.drained ≡ true)
      → t.queue ≡ s.queue
      → t.worker ≡ s.worker
      → Over c s f
      → Over c t f
  still_over s t none d q w o = tt
  still_over s t (some e) d q w (a, b, x, y) =
      (d a, q ∙ b, ap (λ v. v.batch) w ∙ x, ap (λ v. v.first_err) w ∙ y)

  -- The worker goes on with what it has seen.
  busy-Inv :
      (s t : System H T) (seen : List (Request T))
      → Inv c s
      → Serves c seen t.worker
      → t.accepted ≡ seen ++ t.queue
      → t.drained ≡ s.drained
      → t.closed ≡ s.closed
      → t.pending ≡ s.pending
      → t.finished ≡ none
      → Inv c t
  busy-Inv s t seen inv serves split d k p f = record {
    seen = seen;
    serves = serves;
    split = split;
    closed = subst (Closed c t) (sym d) (still_closed s t s.drained (λ h. k ∙ h) p inv.closed);
    over = subst (Over c t) (sym f) tt;
  }

  snoc_queue :
      (s : System H T) (seen : List (Request T)) (r : Request T)
      → s.accepted ≡ seen ++ s.queue
      → s.accepted ++ (r ∷ []) ≡ seen ++ (s.queue ++ (r ∷ []))
  snoc_queue s seen r e = ap (λ t. t ++ (r ∷ [])) e ∙ append_assoc seen s.queue (r ∷ [])

  -- A request that goes to the worker at once.
  handed :
      (s : System H T) (seen : List (Request T)) (r : Request T)
      → s.accepted ≡ seen ++ s.queue
      → s.queue ≡ []
      → s.accepted ++ (r ∷ []) ≡ (seen ++ (r ∷ [])) ++ s.queue
  handed s seen r e q =
      ap (λ t. t ++ (r ∷ [])) (e ∙ ap (◌++◌ seen) q ∙ append-nil seen)
      ∙ sym (ap (◌++◌ (seen ++ (r ∷ []))) q ∙ append-nil (seen ++ (r ∷ [])))

  Step-Inv : {s t : System H T} → Step c handler s t → Inv c s → Inv c t
  Step-Inv {s} (submits r e) inv =
      let d = open_if_admitted s s.drained inv.closed e in
      open-Inv _ inv.seen inv.serves inv.split d (not_over s s.finished inv.over d)
  Step-Inv {s} (sends front r back e l) inv =
      let d = open_if_pending s s.drained front back r inv.closed e in
      open-Inv _ inv.seen inv.serves (snoc_queue s inv.seen r inv.split) d
        (not_over s s.finished inv.over d)
  Step-Inv {s} (hands front r back e q f) inv =
      open-Inv _ (inv.seen ++ (r ∷ []))
        (accept-Serves c handler positive inv.seen s.worker r inv.serves)
        (handed s inv.seen r inv.split q) (open_if_pending s s.drained front back r inv.closed e) f
  Step-Inv {s} (gives_up front r back e) inv =
      let d = open_if_pending s s.drained front back r inv.closed e in
      open-Inv _ inv.seen inv.serves inv.split d (not_over s s.finished inv.over d)
  Step-Inv {s} (try_sends x e l) inv =
      let d = open_if_admitted s s.drained inv.closed e in
      open-Inv _ inv.seen inv.serves (snoc_queue s inv.seen (item x) inv.split) d
        (not_over s s.finished inv.over d)
  Step-Inv {s} (try_hands x e q f) inv =
      open-Inv _ (inv.seen ++ (item x ∷ []))
        (accept-Serves c handler positive inv.seen s.worker (item x) inv.serves)
        (handed s inv.seen (item x) inv.split q) (open_if_admitted s s.drained inv.closed e) f
  Step-Inv {s} (receives r rest e f) inv =
      busy-Inv s _ (inv.seen ++ (r ∷ [])) inv
        (accept-Serves c handler positive inv.seen s.worker r inv.serves)
        (inv.split ∙ ap (◌++◌ inv.seen) e ∙ sym (append_assoc inv.seen (r ∷ []) rest)) refl refl
        refl f
  Step-Inv {s} (ticks a f) inv =
      busy-Inv s _ inv.seen inv (flush-Serves c handler positive inv.seen s.worker inv.serves).0
        inv.split refl refl refl f
  Step-Inv {s} (ends d q f) inv =
      let (serves, empty) = flush-Serves c handler positive inv.seen s.worker inv.serves in
      let w = flush c handler s.worker in
      record {
        seen = inv.seen;
        serves = serves;
        split = inv.split;
        closed =
            still_closed s (record s { worker = w; finished = some w.first_err }) s.drained (λ h. h)
              refl inv.closed;
        over = (d, q, empty, refl);
      }
  Step-Inv {s} stops inv = record {
    seen = inv.seen;
    serves = inv.serves;
    split = inv.split;
    closed = still_closed s (record s { closed = true }) s.drained (λ h. refl) refl inv.closed;
    over = still_over s (record s { closed = true }) s.finished (λ h. h) refl refl inv.over;
  }
  Step-Inv {s} (closes k p) inv = record {
    seen = inv.seen;
    serves = inv.serves;
    split = inv.split;
    closed = (k, p);
    over = still_over s (record s { drained = true }) s.finished (λ h. refl) refl refl inv.over;
  }

  Reach-Inv : {h : H} {s : System H T} → Reach c handler h s → Inv c s
  Reach-Inv here = record {
    seen = [];
    serves = record { order = refl; sizes = tt; room = positive; reports = λ e. refl };
    split = refl;
    closed = tt;
    over = tt;
  }
  Reach-Inv (further r st) = Step-Inv st (Reach-Inv r)

  all_items :
      (s : System H T) (inv : Inv c s)
      → items s.accepted ≡ (flatten s.worker.handled ++ s.worker.batch) ++ items s.queue
  all_items s inv =
      ap items inv.split
      ∙ items-append inv.seen s.queue
      ∙ ap (λ t. t ++ items s.queue) inv.serves.order

  -- However callers add items, flush and shut down at once, and whatever the handler and the timer do:
  -- the batches passed to the handler, the batch that is being filled and the items in the queue are,
  -- one after the other, the items that were accepted, in that order, each once. Every batch passed to
  -- the handler has at least one item and at most the configured size.
  pub batches_lem :
      {h : H} {s : System H T}
      → Reach c handler h s
      → (items s.accepted ≡ (flatten s.worker.handled ++ s.worker.batch) ++ items s.queue)
        × All (Fits c) s.worker.handled
  batches_lem {s} r = let inv = Reach-Inv r in (all_items s inv, inv.serves.sizes)
