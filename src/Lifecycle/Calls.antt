-- ===== src/Lifecycle/Calls.antt =====
-- What `Run` of lifecycle/runner.go calls, in which order, and when it returns nil.
use fries.Prelude.{
  ◌≡◌, refl, sym, ap, ◌∙◌, ◌⊎◌, inl, inr, Bool, true, false, ◌&&◌, Option, none, some, List, [],
  ◌∷◌, ◌++◌, map, append-nil, append_assoc, String,
}
use fries.Lifecycle.{
  Context, Error, Provider, Phase, booting, stopping_down, Call, World, present, join_present, join,
  judge, boot_with, stop_with, noted, bootstrap_from, shutdown_each,
}

abbrev pub is_none : {A : Type 0} → Option A → Bool
is_none none = true
is_none (some a) = false

unfoldable pub all_ok : List Call → Bool
all_ok [] = true
all_ok (c ∷ cs) = c.succeeded && all_ok cs

and_assoc : (a b c : Bool) → ((a && b) && c) ≡ (a && (b && c))
and_assoc true b c = refl
and_assoc false b c = refl

pub and_true : (a : Bool) → (a && true) ≡ a
and_true true = refl
and_true false = refl

and_false : (a : Bool) → (a && false) ≡ false
and_false true = refl
and_false false = refl

pub all_ok-append : (xs ys : List Call) → all_ok (xs ++ ys) ≡ (all_ok xs && all_ok ys)
unfolding all_ok
all_ok-append [] ys = refl
all_ok-append (x ∷ xs) ys =
    ap (λ t. x.succeeded && t) (all_ok-append xs ys) ∙ sym (and_assoc x.succeeded _ _)

unfoldable pub none_present : List (Option Error) → Bool
none_present [] = true
none_present (e ∷ es) = is_none e && none_present es

pub join-is_none : (es : List (Option Error)) → is_none (join es) ≡ none_present es
unfolding join present join_present none_present
join-is_none [] = refl
join-is_none (none ∷ es) = join-is_none es
join-is_none (some e ∷ es) = refl

none_present-snoc :
    (es : List (Option Error)) (e : Error) → none_present (es ++ (some e ∷ [])) ≡ false
unfolding none_present
none_present-snoc [] e = refl
none_present-snoc (x ∷ es) e = rw (none_present-snoc es e) (and_false (is_none x))

-- What was called.
abbrev pub target : Call → Phase × String
target c = (c.phase, c.name)

module _ {H : Type 0} where
  -- The call of a provider.
  abbrev pub call : Phase → Bool → Provider H → Call
  call phase ok p = record { phase = phase; name = p.name; succeeded = ok }

  -- The providers to be shut down.
  abbrev pub shutdowns : List (Provider H) → List (Phase × String)
  shutdowns = map (λ p. (stopping_down, p.name))

  -- The first of the providers that were not started is called, and fails.
  unfoldable pub failing : List (Provider H) → List Call
  failing [] = []
  failing (p ∷ ps) = call booting false p ∷ []

  abbrev pub is_nil : List (Provider H) → Bool
  is_nil [] = true
  is_nil (p ∷ ps) = false

  pub all_ok-booted : (ps : List (Provider H)) → all_ok (map (call booting true) ps) ≡ true
  unfolding all_ok
  all_ok-booted [] = refl
  all_ok-booted (p ∷ ps) = all_ok-booted ps

  pub all_ok-failing : (ps : List (Provider H)) → all_ok (failing ps) ≡ is_nil ps
  unfolding all_ok failing
  all_ok-failing [] = refl
  all_ok-failing (p ∷ ps) = refl

  -- The loop of bootstrap started a prefix of the providers.
  pub record Boots (w : World H) (before ps : List (Provider H))
      (out : World H × Context × List (Provider H) × Option Error) : Type 0 where
    pub begun : List (Provider H)
    pub rest : List (Provider H)
    pub split : ps ≡ begun ++ rest
    pub kept : out.2 ≡ before ++ begun
    pub logged : out.0.calls ≡ w.calls ++ (map (call booting true) begun ++ failing rest)
    pub verdict : is_none out.3 ≡ is_nil rest

  -- One more provider in front.
  Boots-cons :
      (w w' : World H) (p : Provider H) (before ps : List (Provider H))
      (out : World H × Context × List (Provider H) × Option Error)
      → w'.calls ≡ w.calls ++ (call booting true p ∷ [])
      → Boots w' (before ++ (p ∷ [])) ps out
      → Boots w before (p ∷ ps) out
  Boots-cons w w' p before ps out e b = record {
    begun = p ∷ b.begun;
    rest = b.rest;
    split = ap (◌∷◌ p) b.split;
    kept = b.kept ∙ append_assoc before (p ∷ []) b.begun;
    logged =
        b.logged
        ∙ ap (λ t. t ++ (map (call booting true) b.begun ++ failing b.rest)) e
        ∙ append_assoc w.calls (call booting true p ∷ []) _;
    verdict = b.verdict;
  }

  boot_with-Boots :
      (w : World H) (ctx : Context) (before ps : List (Provider H)) (p : Provider H) (h : H)
      (o : Context ⊎ Error)
      (go : World H
        → Context
        → List (Provider H)
        → World H × Context × List (Provider H) × Option Error)
      → ((w' : World H) (next : Context) (before' : List (Provider H))
          → Boots w' before' ps (go w' next before'))
      → Boots w before (p ∷ ps) (boot_with w ctx before p h o go)
  unfolding failing
  boot_with-Boots w ctx before ps p h (inl next) go each =
      Boots-cons w (noted w h booting p.name true) p before ps _ refl
        (each (noted w h booting p.name true) next (before ++ (p ∷ [])))
  boot_with-Boots w ctx before ps p h (inr e) go each = record {
    begun = [];
    rest = p ∷ ps;
    split = refl;
    kept = sym (append-nil _);
    logged = refl;
    verdict = refl;
  }

  pub bootstrap_from-Boots :
      (w : World H) (ctx : Context) (before ps : List (Provider H))
      → Boots w before ps (bootstrap_from w ctx before ps)
  unfolding bootstrap_from failing
  bootstrap_from-Boots w ctx before [] = record {
    begun = [];
    rest = [];
    split = refl;
    kept = sym (append-nil _);
    logged = sym (append-nil _);
    verdict = refl;
  }
  bootstrap_from-Boots w ctx before (p ∷ ps) =
      boot_with-Boots w ctx before ps p (p.bootstrap w.host ctx).0
        (judge booting p.name (p.bootstrap w.host ctx).1) _
        (λ w' next before'. bootstrap_from-Boots w' next before' ps)

  -- The loop of shutdown called every provider, whatever the others answered.
  pub record Stops (w : World H) (errs : List (Option Error)) (ps : List (Provider H))
      (out : World H × Context × Option Error) : Type 0 where
    pub stops : List Call
    pub order : map target stops ≡ shutdowns ps
    pub logged : out.0.calls ≡ w.calls ++ stops
    pub verdict : is_none out.2 ≡ (none_present errs && all_ok stops)

  Stops-cons :
      (w w' : World H) (p : Provider H) (ok : Bool) (errs errs' : List (Option Error))
      (ps : List (Provider H)) (out : World H × Context × Option Error)
      → w'.calls ≡ w.calls ++ (call stopping_down ok p ∷ [])
      → none_present errs' ≡ (none_present errs && ok)
      → Stops w' errs' ps out
      → Stops w errs (p ∷ ps) out
  unfolding all_ok
  Stops-cons w w' p ok errs errs' ps out e k b = record {
    stops = call stopping_down ok p ∷ b.stops;
    order = ap (◌∷◌ (stopping_down, p.name)) b.order;
    logged =
        b.logged
        ∙ ap (λ t. t ++ b.stops) e
        ∙ append_assoc w.calls (call stopping_down ok p ∷ []) b.stops;
    verdict = b.verdict ∙ ap (λ t. t && all_ok b.stops) k ∙ and_assoc (none_present errs) ok _;
  }

  stop_with-Stops :
      (w : World H) (ctx : Context) (errs : List (Option Error)) (ps : List (Provider H))
      (p : Provider H) (h : H) (o : Context ⊎ Error)
      (go : World H → Context → List (Option Error) → World H × Context × Option Error)
      → ((w' : World H) (next : Context) (errs' : List (Option Error))
          → Stops w' errs' ps (go w' next errs'))
      → Stops w errs (p ∷ ps) (stop_with w ctx errs p h o go)
  stop_with-Stops w ctx errs ps p h (inl next) go each =
      Stops-cons w (noted w h stopping_down p.name true) p true errs errs ps _ refl
        (sym (and_true (none_present errs))) (each _ next errs)
  stop_with-Stops w ctx errs ps p h (inr e) go each =
      Stops-cons w (noted w h stopping_down p.name false) p false errs (errs ++ (some e ∷ [])) ps _
        refl (none_present-snoc errs e ∙ sym (and_false (none_present errs))) (each _ ctx _)

  pub shutdown_each-Stops :
      (w : World H) (ctx : Context) (errs : List (Option Error)) (ps : List (Provider H))
      → Stops w errs ps (shutdown_each w ctx errs ps)
  unfolding shutdown_each all_ok
  shutdown_each-Stops w ctx errs [] = record {
    stops = [];
    order = refl;
    logged = sym (append-nil _);
    verdict = join-is_none errs ∙ sym (and_true (none_present errs));
  }
  shutdown_each-Stops w ctx errs (p ∷ ps) =
      stop_with-Stops w ctx errs ps p (p.shutdown w.host ctx).0
        (judge stopping_down p.name (p.shutdown w.host ctx).1) _
        (λ w' next errs'. shutdown_each-Stops w' next errs' ps)
