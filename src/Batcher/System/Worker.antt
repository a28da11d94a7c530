-- ===== src/Batcher/System/Worker.antt =====
-- What the worker of batcher/worker.go has made of the requests that it has seen.
use fries.Prelude.{
  ℕ, ◌<◌, ◌≤◌, ◌≡◌, refl, sym, ap, ◌∙◌, subst, inl, inr, true, Option, none, some, List, [], ◌∷◌,
  ◌++◌, arith, if◌then◌else◌, ◌==◌, length, length-append, All, All-append, append-nil,
  append_assoc, Bool-cases,
}
use fries.Batcher.{
  Config, Error, Result, Request, item, barrier, Handler, Worker, keep_first, reported, flush_batch,
  flush, added, accept,
}

-- The items of the requests.
abbrev pub items : {T : Type 0} → List (Request T) → List T
items [] = []
items (item x ∷ rs) = x ∷ items rs
items (barrier k ∷ rs) = items rs

abbrev pub flatten : {T : Type 0} → List (List T) → List T
flatten [] = []
flatten (b ∷ bs) = b ++ flatten bs

-- The first error that was reported.
abbrev pub first : List Result → Option Error
first [] = none
first (r ∷ rs) = keep_first r.error (first rs)

module _ {T : Type 0} where
  pub items-append : (rs qs : List (Request T)) → items (rs ++ qs) ≡ items rs ++ items qs
  items-append [] qs = refl
  items-append (item x ∷ rs) qs = ap (◌∷◌ x) (items-append rs qs)
  items-append (barrier k ∷ rs) qs = items-append rs qs

  flatten-snoc : (bs : List (List T)) (b : List T) → flatten (bs ++ (b ∷ [])) ≡ flatten bs ++ b
  flatten-snoc [] b = append-nil b
  flatten-snoc (a ∷ bs) b = ap (◌++◌ a) (flatten-snoc bs b) ∙ sym (append_assoc a (flatten bs) b)

first-snoc :
    (rs : List Result) (r : Result) → first (rs ++ (r ∷ [])) ≡ keep_first (first rs) r.error
first-snoc [] r = keep_none r.error
  where
    keep_none : (o : Option Error) → keep_first o none ≡ o
    keep_none none = refl
    keep_none (some e) = refl
first-snoc (q ∷ rs) r = ap (keep_first q.error) (first-snoc rs r) ∙ keep_assoc q.error (first rs)
  where
    keep_assoc :
        (a b : Option Error)
        → keep_first a (keep_first b r.error) ≡ keep_first (keep_first a b) r.error
    keep_assoc none b = refl
    keep_assoc (some e) b = refl

-- The batch is not empty and not too large.
abbrev pub Fits : {T : Type 0} → Config → List T → Type 0
Fits c batch = (0 < length batch) × (length batch ≤ c.batch_size)

module _ {H T : Type 0} (c : Config) where
  pub record Serves (seen : List (Request T)) (w : Worker H T) : Type 0 where
    pub order : items seen ≡ flatten w.handled ++ w.batch
    pub sizes : All (Fits c) w.handled
    pub room : length w.batch < c.batch_size
    pub reports : c.on_result ≡ true → w.first_err ≡ first w.results

  -- The same before the test of the batch's size.
  record Serving (seen : List (Request T)) (w : Worker H T) : Type 0 where
    order : items seen ≡ flatten w.handled ++ w.batch
    sizes : All (Fits c) w.handled
    room : length w.batch ≤ c.batch_size
    reports : c.on_result ≡ true → w.first_err ≡ first w.results

module _ {H T : Type 0} (c : Config) (handler : Handler H T) (positive : 0 < c.batch_size) where
  reports_kept :
      (w : Worker H T) (batch : List T) (h : H) (error : Option Error)
      → (c.on_result ≡ true → w.first_err ≡ first w.results)
      → c.on_result ≡ true
      → (reported c handler w batch (h, error)).first_err
        ≡ first (reported c handler w batch (h, error)).results
  reports_kept w batch h error k e = rw e (
      ap (λ o. keep_first o error) (k e)
      ∙ sym (first-snoc w.results (record { size = length batch; error = error })))

  -- A batch that is not empty is passed on.
  flushed-Serves :
      (seen : List (Request T)) (w : Worker H T) (x : T) (xs : List T) (r : H × Option Error)
      → w.batch ≡ x ∷ xs
      → Serving c seen w
      → Serves c seen (reported c handler w (x ∷ xs) r)
  flushed-Serves seen w x xs (h, error) e s = record {
    order =
        s.order
        ∙ ap (◌++◌ (flatten w.handled)) e
        ∙ sym (flatten-snoc w.handled (x ∷ xs))
        ∙ sym (append-nil _);
    sizes =
        All-append (Fits c) w.handled ((x ∷ xs) ∷ []) s.sizes
          ((omega arith, omega (arith, subst (λ b. length b ≤ c.batch_size) e s.room)), tt);
    room = positive;
    reports = reports_kept w (x ∷ xs) h error s.reports;
  }

  empty-Serves :
      (seen : List (Request T)) (w : Worker H T) → w.batch ≡ [] → Serving c seen w → Serves c seen w
  empty-Serves seen w e s = record {
    order = s.order;
    sizes = s.sizes;
    room = subst (λ b. length b < c.batch_size) (sym e) positive;
    reports = s.reports;
  }

  flush_batch-Serves :
      (seen : List (Request T)) (w : Worker H T) (b : List T)
      → w.batch ≡ b
      → Serving c seen w
      → Serves c seen (flush_batch c handler w b) × ((flush_batch c handler w b).batch ≡ [])
  flush_batch-Serves seen w [] e s = (empty-Serves seen w e s, e)
  flush_batch-Serves seen w (x ∷ xs) e s =
      (flushed-Serves seen w x xs (handler w.host (x ∷ xs)) e s, refl)

  loose : (seen : List (Request T)) (w : Worker H T) → Serves c seen w → Serving c seen w
  loose seen w s = record {
    order = s.order;
    sizes = s.sizes;
    room = omega (arith, s.room);
    reports = s.reports;
  }

  pub flush-Serves :
      (seen : List (Request T)) (w : Worker H T)
      → Serves c seen w
      → Serves c seen (flush c handler w) × ((flush c handler w).batch ≡ [])
  unfolding flush
  flush-Serves seen w s = flush_batch-Serves seen w w.batch refl (loose seen w s)

  added-Serving :
      (seen : List (Request T)) (w : Worker H T) (x : T)
      → Serves c seen w
      → Serving c (seen ++ (item x ∷ [])) (added c handler w x)
  added-Serving seen w x s = record {
    order =
        items-append seen (item x ∷ [])
        ∙ ap (λ t. t ++ (x ∷ [])) s.order
        ∙ append_assoc (flatten w.handled) w.batch (x ∷ []);
    sizes = s.sizes;
    room = omega (arith, s.room, length-append w.batch (x ∷ []));
    reports = s.reports;
  }

  full-Serves :
      (seen : List (Request T)) (w : Worker H T)
      → Serving c seen w
      → Serves c seen (if length w.batch == c.batch_size then flush c handler w else w)
  unfolding flush
  full-Serves seen w s = elim (Bool-cases (length w.batch == c.batch_size)) [
    | inl e ↦ rw e (flush_batch-Serves seen w w.batch refl s).0
    | inr e ↦ rw e (record {
      order = s.order;
      sizes = s.sizes;
      room = ground (arith, s.room, e);
      reports = s.reports;
    })
  ]

  pub accept-Serves :
      (seen : List (Request T)) (w : Worker H T) (r : Request T)
      → Serves c seen w
      → Serves c (seen ++ (r ∷ [])) (accept c handler w r)
  unfolding accept
  accept-Serves seen w (item x) s = full-Serves _ (added c handler w x) (added-Serving seen w x s)
  accept-Serves seen w (barrier k) s =
      let (f, e) = flush-Serves seen w s in
      record {
        order = items-append seen (barrier k ∷ []) ∙ append-nil (items seen) ∙ f.order;
        sizes = f.sizes;
        room = f.room;
        reports = f.reports;
      }

  -- After a barrier nothing waits in the batch.
  pub barrier-empty :
      (seen : List (Request T)) (w : Worker H T) (k : ℕ)
      → Serves c seen w
      → (accept c handler w (barrier k)).batch ≡ []
  unfolding accept
  barrier-empty seen w k s = (flush-Serves seen w s).1
