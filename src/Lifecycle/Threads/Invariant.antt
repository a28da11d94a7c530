-- ===== src/Lifecycle/Threads/Invariant.antt =====
-- What holds while calls of Bootstrap and Shutdown of lifecycle/runner.go run at once.
use fries.Prelude.{
  ◌≡◌, refl, sym, ◌∙◌, subst, ◌⊎◌, inl, inr, Bool, true, false, List, [], ◌++◌, Bool-cases,
}
use fries.Lifecycle.{
  Provider, State, state_new, state_starting, state_started, state_stopping, state_stopped,
  backward,
}
use fries.Lifecycle.Threads.{
  Shared, Pc, idle, booting_at, rolling_at, checking, awaiting_start, awaiting_stop, stopping_at,
  returned,
}

-- The call runs providers.
abbrev pub busy : {H : Type 0} → Pc H → Bool
busy (booting_at _ _ _) = true
busy (rolling_at _ _ _ _) = true
busy (stopping_at _ _ _) = true
busy _ = false

-- Some call must be running providers.
abbrev pub Owned : State → Type 0
Owned state_starting = Unit
Owned state_stopping = Unit
Owned _ = ⊥

-- A call that waits can be woken once the call it waits for is over.
abbrev pub StartSettles : {H : Type 0} → Shared H → Type 0
StartSettles m = (m.runner.state ≡ state_starting) ⊎ (m.runner.start_done ≡ true)

abbrev pub StopSettles : {H : Type 0} → Shared H → Type 0
StopSettles m = (m.runner.state ≡ state_stopping) ⊎ (m.runner.stop_done ≡ true)

module _ {H : Type 0} (ps : List (Provider H)) where
  -- What a call knows, by where it stands.
  abbrev pub Local : Shared H → Pc H → Type 0
  Local m (booting_at ctx started rest) =
      (m.runner.state ≡ state_starting)
      × (m.boots ≡ started)
      × (m.stops ≡ [])
      × (ps ≡ started ++ rest)
  Local m (rolling_at ctx e errs todo) =
      (m.runner.state ≡ state_starting) × (backward m.boots ≡ m.stops ++ todo)
  Local m (stopping_at ctx errs todo) =
      (m.runner.state ≡ state_stopping) × (backward m.boots ≡ m.stops ++ todo)
  Local m (awaiting_start ctx) = StartSettles m
  Local m (awaiting_stop ctx) = StopSettles m
  Local m _ = Unit

  -- What the runner's state says of the providers that were started and stopped.
  abbrev pub Phased : State → Shared H → Type 0
  Phased state_new m = (m.boots ≡ []) × (m.stops ≡ [])
  Phased state_started m = (m.runner.started ≡ m.boots) × (m.stops ≡ [])
  Phased state_stopped m = m.stops ≡ backward m.boots
  Phased _ m = Unit

  pub record Sound (m : Shared H) : Type 0 where
    pub same : m.runner.providers ≡ ps
    pub phased : Phased m.runner.state m
    -- The providers that are not started yet, and those that are still to be stopped.
    pub rest : List (Provider H)
    pub begun : ps ≡ m.boots ++ rest
    pub todo : List (Provider H)
    pub ended : backward m.boots ≡ m.stops ++ todo

  -- The calls that wait still can be woken.
  abbrev pub Later : Shared H → Shared H → Type 0
  Later m m' = (StartSettles m → StartSettles m') × (StopSettles m → StopSettles m')

  -- What a move of a call does to itself and to any other call, which stands at q.
  pub record Moved (m : Shared H) (p : Pc H) (m' : Shared H) (p' : Pc H) : Type 0 where
    pub sound : Sound m'
    pub own : Local m' p'
    pub others :
        (q : Pc H)
        → Local m q
        → (busy p ≡ true → busy q ≡ false)
        → Local m' q × (busy p' ≡ true → busy q ≡ false)
    pub owner : Owned m'.runner.state → (busy p' ≡ true) ⊎ (Owned m.runner.state × (busy p ≡ false))

  -- A call that runs no provider keeps what it knows.
  calm : (m m' : Shared H) → Later m m' → (q : Pc H) → busy q ≡ false → Local m q → Local m' q
  calm m m' l idle b h = tt
  calm m m' l (checking ctx) b h = tt
  calm m m' l (returned ctx e) b h = tt
  calm m m' l (awaiting_start ctx) b h = l.0 h
  calm m m' l (awaiting_stop ctx) b h = l.1 h
  calm m m' l (booting_at ctx st rest) b h = cc
  calm m m' l (rolling_at ctx e errs todo) b h = cc
  calm m m' l (stopping_at ctx errs todo) b h = cc

  -- In these states no call runs providers.
  unowned : (m : Shared H) → ¬ Owned m.runner.state → (q : Pc H) → Local m q → busy q ≡ false
  unowned m n (booting_at ctx st rest) h = absurd (n (subst Owned (sym h.0) tt))
  unowned m n (rolling_at ctx e errs todo) h = absurd (n (subst Owned (sym h.0) tt))
  unowned m n (stopping_at ctx errs todo) h = absurd (n (subst Owned (sym h.0) tt))
  unowned m n idle h = refl
  unowned m n (checking ctx) h = refl
  unowned m n (returned ctx e) h = refl
  unowned m n (awaiting_start ctx) h = refl
  unowned m n (awaiting_stop ctx) h = refl

  -- A move that changes nothing shared.
  pub still :
      (m : Shared H) (p p' : Pc H) → Sound m → Local m p' → busy p ≡ busy p' → Moved m p m p'
  still m p p' s l e = record {
    sound = s;
    own = l;
    others = λ q k f. (k, λ b. f (e ∙ b));
    owner = λ o. elim (Bool-cases (busy p)) [ inl b ↦ inl (sym e ∙ b) | inr b ↦ inr (o, b) ];
  }

  -- A move of the call that runs providers.
  pub works :
      (m m' : Shared H) (p p' : Pc H)
      → busy p ≡ true
      → Sound m'
      → Local m' p'
      → Later m m'
      → (Owned m'.runner.state → busy p' ≡ true)
      → Moved m p m' p'
  works m m' p p' b s l later o = record {
    sound = s;
    own = l;
    others = λ q k f. (calm m m' later q (f b) k, λ b'. f b);
    owner = λ w. inl (o w);
  }

  -- A move of a call that begins to run providers.
  pub takes :
      (m m' : Shared H) (p p' : Pc H)
      → ¬ Owned m.runner.state
      → busy p' ≡ true
      → Sound m'
      → Local m' p'
      → Later m m'
      → Moved m p m' p'
  takes m m' p p' n b s l later = record {
    sound = s;
    own = l;
    others = λ q k f. (calm m m' later q (unowned m n q k) k, λ b'. unowned m n q k);
    owner = λ w. inl b;
  }
