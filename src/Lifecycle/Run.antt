-- ===== src/Lifecycle/Run.antt =====
-- `Run` of lifecycle/runner.go: what it calls, in which order, and when it returns nil.
use fries.Prelude.{
  ◌≡◌, refl, sym, ap, ◌∙◌, true, false, ◌&&◌, Option, none, some, List, [], ◌∷◌, ◌++◌, map,
  append-nil, append_assoc, String, if◌then◌else◌,
}
use fries.Lifecycle.{
  Context, Error, present, join_present, Provider, Runner, state_new, state_starting, state_stopped,
  Phase, booting, handling, Call, World, Returned, noted, join, normalize_context, bootstrap_from,
  shutdown_each, shutdown_providers, shutdown_context, backward, bootstrapped, bootstrap_at,
  bootstrap, shutdown_at, shutdown, handle, close_run, run_with, run,
}
use fries.Lifecycle.Calls.{
  all_ok, all_ok-append, all_ok-booted, all_ok-failing, is_none, is_nil, target, call, shutdowns,
  failing, none_present, join-is_none, Boots, bootstrap_from-Boots, Stops, shutdown_each-Stops,
  and_true,
}

abbrev pub Handler : Type 0 → Type 0
Handler H = H → Context → H × Option Error

-- The call of the handler, which a nil one spares.
abbrev pub handler_call : {H : Type 0} → Option (Handler H) → List (Phase × String)
handler_call none = []
handler_call (some f) = (handling, "") ∷ []

-- The log of a run from its parts.
chain :
    (w0 w1 w2 w3 m f h s : List Call)
    → w1 ≡ w0 ++ (m ++ f)
    → w2 ≡ w1 ++ h
    → w3 ≡ w2 ++ s
    → w3 ≡ w0 ++ (m ++ (f ++ (h ++ s)))
chain w0 w1 w2 w3 m f h s e1 e2 e3 = e3 ∙ ap (λ t. t ++ s) (e2 ∙ ap (λ t. t ++ h) e1) ∙ parts
  where
    parts : ((w0 ++ (m ++ f)) ++ h) ++ s ≡ w0 ++ (m ++ (f ++ (h ++ s)))
    parts =
        append_assoc (w0 ++ (m ++ f)) h s
        ∙ append_assoc w0 (m ++ f) (h ++ s)
        ∙ ap (λ t. w0 ++ t) (append_assoc m f (h ++ s))

-- The errors of the handler and of the shutdown are both none.
joined_none : (a b : Option Error) → is_none (join (a ∷ b ∷ [])) ≡ (is_none a && is_none b)
unfolding none_present
joined_none a b = join-is_none (a ∷ b ∷ []) ∙ ap (λ t. is_none a && t) (and_true (is_none b))

module _ {H : Type 0} where
  pub record Ran (r : Runner H) (w : World H) (handler : Option (Handler H)) (s : Returned H)
      : Type 0 where
    pub begun : List (Provider H)
    pub rest : List (Provider H)
    pub handled : List Call
    pub stops : List Call
    pub split : r.providers ≡ begun ++ rest
    pub logged :
        s.world.calls
        ≡ w.calls ++ (map (call booting true) begun ++ (failing rest ++ (handled ++ stops)))
    pub order : map target stops ≡ shutdowns (backward begun)
    pub ran : map target handled ≡ (if is_nil rest then handler_call handler else [])
    pub verdict :
        is_none s.error
        ≡ all_ok (map (call booting true) begun ++ (failing rest ++ (handled ++ stops)))
    pub over : s.runner.state ≡ state_stopped

  parts_ok :
      (begun rest : List (Provider H)) (hs ss : List Call)
      → all_ok (map (call booting true) begun ++ (failing rest ++ (hs ++ ss)))
        ≡ (is_nil rest && (all_ok hs && all_ok ss))
  parts_ok begun rest hs ss =
      all_ok-append (map (call booting true) begun) _
      ∙ ap (λ t. t && all_ok (failing rest ++ (hs ++ ss))) (all_ok-booted begun)
      ∙ all_ok-append (failing rest) (hs ++ ss)
      ∙ ap (λ t. t && all_ok (hs ++ ss)) (all_ok-failing rest)
      ∙ ap (λ t. is_nil rest && t) (all_ok-append hs ss)

  -- The handler ran once.
  record Handled (handler : Option (Handler H)) (w : World H) (out : World H × Option Error)
      : Type 0 where
    handled : List Call
    logged : out.0.calls ≡ w.calls ++ handled
    ran : map target handled ≡ handler_call handler
    verdict : is_none out.1 ≡ all_ok handled

  noted-Handled :
      (f : Handler H) (w : World H) (out : H × Option Error)
      → Handled
          (some f)
          w
          (noted w out.0 handling "" (elim out.1 [ none ↦ true | some e ↦ false ]), out.1)
  unfolding all_ok
  noted-Handled f w (h, none) = record {
    handled = record { phase = handling; name = ""; succeeded = true } ∷ [];
    logged = refl;
    ran = refl;
    verdict = refl;
  }
  noted-Handled f w (h, some e) = record {
    handled = record { phase = handling; name = ""; succeeded = false } ∷ [];
    logged = refl;
    ran = refl;
    verdict = refl;
  }

  handle-Handled :
      (handler : Option (Handler H)) (w : World H) (ctx : Context)
      → Handled handler w (handle handler w ctx)
  unfolding handle all_ok
  handle-Handled none w ctx = record {
    handled = [];
    logged = sym (append-nil _);
    ran = refl;
    verdict = refl;
  }
  handle-Handled (some f) w ctx = noted-Handled f w (f w.host ctx)

  failing-nil : (ps : List (Provider H)) → true ≡ is_nil ps → failing ps ≡ []
  unfolding failing
  failing-nil [] e = refl
  failing-nil (p ∷ ps) e = cc

  -- After a bootstrap that succeeded.
  close_run-Ran :
      (r : Runner H) (w w1 : World H) (ctx : Context) (started : List (Provider H))
      (handler : Option (Handler H)) (out : World H × Option Error)
      → Boots w [] r.providers (w1, ctx, started, none)
      → Handled handler w1 out
      → (s : Returned H) × (close_run (bootstrapped r (w1, ctx, started, none)).runner ctx out
          ≡ some s)
        × Ran r w handler s
  unfolding close_run shutdown shutdown_at bootstrapped normalize_context shutdown_providers all_ok
      none_present
  close_run-Ran r w w1 ctx started handler (w2, error) b h = (
    _,
    refl,
    record {
      begun = b.begun;
      rest = b.rest;
      handled = h.handled;
      stops = d.stops;
      split = b.split;
      logged = chain w.calls w1.calls w2.calls _ _ _ _ _ b.logged h.logged d.logged;
      order = d.order ∙ ap (λ t. shutdowns (backward t)) b.kept;
      ran = h.ran ∙ ap (λ t. if t then handler_call handler else []) b.verdict;
      verdict =
          joined_none error _
          ∙ ap (λ t. is_none error && t) d.verdict
          ∙ ap (λ t. t && all_ok d.stops) h.verdict
          ∙ ap (λ t. t && (all_ok h.handled && all_ok d.stops)) b.verdict
          ∙ sym (parts_ok b.begun b.rest h.handled d.stops);
      over = refl;
    },
  )
    where
      d :
          Stops w2 []
            (backward started)
            (shutdown_providers w2 (shutdown_context r.shutdown_timeout ctx) started)
      d = shutdown_each-Stops w2 (shutdown_context r.shutdown_timeout ctx) [] (backward started)

  -- After a bootstrap that failed.
  rolled_back-Ran :
      (r : Runner H) (w w1 : World H) (ctx : Context) (started : List (Provider H)) (e : Error)
      (handler : Option (Handler H))
      → Boots w [] r.providers (w1, ctx, started, some e)
      → Ran r w handler (bootstrapped r (w1, ctx, started, some e))
  unfolding bootstrapped shutdown_providers join present join_present all_ok
  rolled_back-Ran r w w1 ctx started e handler b = record {
    begun = b.begun;
    rest = b.rest;
    handled = [];
    stops = d.stops;
    split = b.split;
    logged = chain w.calls w1.calls w1.calls _ _ _ _ _ b.logged (sym (append-nil _)) d.logged;
    order = d.order ∙ ap (λ t. shutdowns (backward t)) b.kept;
    ran = ap (λ t. if t then handler_call handler else []) b.verdict;
    verdict =
        ap (λ t. t && (true && all_ok d.stops)) b.verdict
        ∙ sym (parts_ok b.begun b.rest [] d.stops);
    over = refl;
  }
    where
      d :
          Stops w1 []
            (backward started)
            (shutdown_each w1 (shutdown_context r.shutdown_timeout ctx) [] (backward started))
      d = shutdown_each-Stops w1 (shutdown_context r.shutdown_timeout ctx) [] (backward started)

  bootstrapped-Ran :
      (r : Runner H) (w : World H) (out : World H × Context × List (Provider H) × Option Error)
      (handler : Option (Handler H))
      → Boots w [] r.providers out
      → (s : Returned H) × (run_with handler (bootstrapped r out) ≡ some s) × Ran r w handler s
  unfolding run_with bootstrapped join present join_present
  bootstrapped-Ran r w (w1, ctx, started, none) handler b =
      close_run-Ran r w w1 ctx started handler (handle handler w1 ctx) b
        (handle-Handled handler w1 ctx)
  bootstrapped-Ran r w (w1, ctx, started, some e) handler b =
      (_, refl, rolled_back-Ran r w w1 ctx started e handler b)

  bootstrap-new :
      (r : Runner H) (w : World H) (ctx : Option Context)
      → r.state ≡ state_new
      → bootstrap r w ctx
        ≡ bootstrapped
            (record r { state = state_starting })
            (bootstrap_from w (normalize_context ctx) [] r.providers)
  unfolding bootstrap bootstrap_at
  bootstrap-new r w ctx e = ap (λ t. bootstrap_at t r w (normalize_context ctx)) e

  -- `Run` of a new runner, alone, returns. It calls the providers' Bootstrap in order up to the first
  -- that fails, and the handler once if none fails; then it calls Shutdown of every provider that
  -- started, in the reverse order, whatever they answer; the runner ends stopped, and the error is
  -- nil exactly if every one of these calls succeeded.
  pub run-Ran :
      (r : Runner H) (w : World H) (ctx : Option Context) (handler : Option (Handler H))
      → r.state ≡ state_new
      → (s : Returned H) × (run r w ctx handler ≡ some s) × Ran r w handler s
  unfolding run
  run-Ran r w ctx handler e =
      let (s, q, ran) =
        bootstrapped-Ran (record r { state = state_starting }) w
          (bootstrap_from w (normalize_context ctx) [] r.providers) handler
          (bootstrap_from-Boots w (normalize_context ctx) [] r.providers) in
      (
        s,
        ap (run_with handler) (bootstrap-new r w ctx e) ∙ q,
        record {
          begun = ran.begun;
          rest = ran.rest;
          handled = ran.handled;
          stops = ran.stops;
          split = ran.split;
          logged = ran.logged;
          order = ran.order;
          ran = ran.ran;
          verdict = ran.verdict;
          over = ran.over;
        },
      )
