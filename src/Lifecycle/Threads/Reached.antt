-- ===== src/Lifecycle/Threads/Reached.antt =====
-- What holds whenever calls of Bootstrap and Shutdown of lifecycle/runner.go run at once.
use fries.Prelude.{
  ℕ, ◌≡◌, ◌≢◌, refl, sym, ap, ◌∙◌, subst, ◌⊎◌, inl, inr, Bool, true, false, none, some, List, [],
  ◌∷◌, ◌++◌, if_pos, if_neg, ℕ_discrete, Bool-cases,
}
use fries.Lifecycle.{Context, Reply, judge, Provider, Runner, state_new, state_stopped, backward}
use fries.Lifecycle.Threads.{
  Shared, Pc, idle, booting_at, rolling_at, stopping_at, awaiting_start, awaiting_stop, checking,
  returned, Move, boot_end, boot_step, roll_end, roll_step, stop_end, stop_step, wake_start,
  wake_stop, System, update, Step, pick, start, Reach, here, further,
}
use fries.Lifecycle.Threads.Invariant.{busy, Owned, Local, Phased, Sound, Moved}
use fries.Lifecycle.Threads.Moves.{Move-Moved}

-- The reply of a provider that gives back its context.
abbrev passes : Context → Reply
passes ctx = (some ctx, none)

bool_ne : ¬ (true ≡ false)
bool_ne e = cc

module _ {A : Type 0} (f : ℕ → A) (i : ℕ) (p : A) where
  update-here : (j : ℕ) → i ≡ j → update f i p j ≡ p
  update-here j e = if_pos _ e p (f j)

  update-other : (j : ℕ) → i ≢ j → update f i p j ≡ f j
  update-other j n = if_neg _ n p (f j)

  -- A property of the call that moved and of the others, at every call.
  update-all : (P : A → Type 0) → P p → ((j : ℕ) → i ≢ j → P (f j)) → (j : ℕ) → P (update f i p j)
  update-all P h k j = elim (ℕ_discrete i j) [
    | yes e ↦ subst P (sym (update-here j e)) h
    | no n ↦ subst P (sym (update-other j n)) (k j n)
  ]

module _ {H : Type 0} (ps : List (Provider H)) where
  record Inv (s : System H) : Type 0 where
    sound : Sound ps s.shared
    local : (i : ℕ) → Local ps s.shared (s.pc i)
    exclusive : (i j : ℕ) → i ≢ j → busy (s.pc i) ≡ true → busy (s.pc j) ≡ false
    owned : Owned s.shared.runner.state → (i : ℕ) × (busy (s.pc i) ≡ true)

  -- After the move of call i no two calls run providers.
  Moved-exclusive :
      (s : System H) (i : ℕ) (m : Shared H) (p : Pc H)
      → Inv s
      → Moved ps s.shared (s.pc i) m p
      → (a b : ℕ) → a ≢ b
      → busy (update s.pc i p a) ≡ true
      → busy (update s.pc i p b) ≡ false
  Moved-exclusive s i m p inv moved a b n h = elim (ℕ_discrete i a) [
    | yes e ↦
        let k : i ≢ b = λ f. n (sym e ∙ f) in
        ap busy (update-other s.pc i p b k)
        ∙ (moved.others (s.pc b) (inv.local b) (inv.exclusive i b k)).1
            (sym (ap busy (update-here s.pc i p a e)) ∙ h)
    | no k ↦
        let busy_a : busy (s.pc a) ≡ true = sym (ap busy (update-other s.pc i p a k)) ∙ h in
        elim (ℕ_discrete i b) [
          | yes f ↦ ap busy (update-here s.pc i p b f) ∙ elim (Bool-cases (busy p)) [
            | inl t ↦ absurd (
                bool_ne
                  (sym busy_a ∙ (moved.others (s.pc a) (inv.local a) (inv.exclusive i a k)).1 t))
            | inr t ↦ t
          ]
          | no l ↦ ap busy (update-other s.pc i p b l) ∙ inv.exclusive a b n busy_a
        ]
  ]

  Moved-Owned :
      (s : System H) (i : ℕ) (m : Shared H) (p : Pc H)
      → Inv s
      → (busy p ≡ true) ⊎ (Owned s.shared.runner.state × (busy (s.pc i) ≡ false))
      → (j : ℕ) × (busy (update s.pc i p j) ≡ true)
  Moved-Owned s i m p inv (inl b) = (i, ap busy (update-here s.pc i p i refl) ∙ b)
  Moved-Owned s i m p inv (inr (w, b)) =
      let (j, t) = inv.owned w in
      (
        j,
        ap busy
              (update-other s.pc i p j (λ e. bool_ne (sym t ∙ ap (λ k. busy (s.pc k)) (sym e) ∙ b)))
            ∙ t,
      )

  Step-Inv : {s t : System H} → Step s t → Inv s → Inv t
  Step-Inv {s} (pick i {m} {p} mv) inv =
      let moved = Move-Moved ps inv.sound (inv.local i) mv in
      record {
        sound = moved.sound;
        local =
            update-all s.pc i p (Local ps m) moved.own
              (λ j n. (moved.others (s.pc j) (inv.local j) (inv.exclusive i j n)).0);
        exclusive = Moved-exclusive s i m p inv moved;
        owned = λ w. Moved-Owned s i m p inv (moved.owner w);
      }

module _ {H : Type 0} where
  start-Inv : (r : Runner H) → r.state ≡ state_new → Inv r.providers (start r)
  unfolding backward
  start-Inv r e = record {
    sound = record {
      same = refl;
      phased = subst (λ t. Phased r.providers t (start r).shared) (sym e) (refl, refl);
      rest = r.providers;
      begun = refl;
      todo = [];
      ended = refl;
    };
    local = λ i. tt;
    exclusive = λ i j n h. refl;
    owned = λ w. absurd (subst Owned e w);
  }

  -- The invariant holds in every reachable state.
  Reach-Inv : {r : Runner H} {s : System H} → r.state ≡ state_new → Reach r s → Inv r.providers s
  Reach-Inv {r} e here = start-Inv r e
  Reach-Inv {r} e (further h st) = Step-Inv r.providers st (Reach-Inv e h)

  -- While any number of calls of Bootstrap and Shutdown run on a new runner, in any order and with
  -- any answers of the providers, the providers that were started are the first ones, in order, and
  -- those that were shut down are the last of these, each once, in the reverse order.
  pub stops_reverse :
      {r : Runner H} {s : System H}
      → r.state ≡ state_new
      → Reach r s
      → (rest : List (Provider H)) × (todo : List (Provider H)) × (r.providers
          ≡ s.shared.boots ++ rest)
        × (backward s.shared.boots ≡ s.shared.stops ++ todo)
  stops_reverse e h =
      let sound = (Reach-Inv e h).sound in (sound.rest, sound.todo, sound.begun, sound.ended)

  -- Once the runner of such a run is stopped, every provider that was started has been shut down
  -- exactly once, the last one first.
  pub stopped_all :
      {r : Runner H} {s : System H}
      → r.state ≡ state_new
      → Reach r s
      → s.shared.runner.state ≡ state_stopped
      → s.shared.stops ≡ backward s.shared.boots
  stopped_all {r} {s} e h k =
      subst (λ t. Phased r.providers t s.shared) k (Reach-Inv e h).sound.phased

  -- Two calls never run providers at once.
  pub one_call_busy :
      {r : Runner H} {s : System H}
      → r.state ≡ state_new
      → Reach r s
      → (i j : ℕ) → busy (s.pc i) ≡ true
      → busy (s.pc j) ≡ true
      → i ≡ j
  one_call_busy {s} e h i j a b = elim (ℕ_discrete i j) [
    | yes k ↦ k
    | no n ↦ absurd (bool_ne (sym b ∙ (Reach-Inv e h).exclusive i j n a))
  ]

  -- A call whose next step may be taken.
  abbrev pub CanMove : System H → ℕ → Type 0
  CanMove s i = (m : Shared H) × (p : Pc H) × Move s.shared (s.pc i) m p

  -- A call waits for another one.
  abbrev pub waiting : Pc H → Bool
  waiting (awaiting_start ctx) = true
  waiting (awaiting_stop ctx) = true
  waiting _ = false

  -- A call that runs providers has a next step, whichever provider comes next.
  busy-moves :
      (m : Shared H) (p : Pc H) → busy p ≡ true → (m' : Shared H) × (p' : Pc H) × Move m p m' p'
  unfolding judge
  busy-moves m (booting_at ctx st []) b = (_, _, boot_end)
  busy-moves m (booting_at ctx st (q ∷ rest)) b = (_, _, boot_step (passes ctx) refl)
  busy-moves m (rolling_at ctx e errs []) b = (_, _, roll_end)
  busy-moves m (rolling_at ctx e errs (q ∷ todo)) b = (_, _, roll_step (passes ctx))
  busy-moves m (stopping_at ctx errs []) b = (_, _, stop_end)
  busy-moves m (stopping_at ctx errs (q ∷ todo)) b = (_, _, stop_step (passes ctx))
  busy-moves m idle b = cc
  busy-moves m (checking ctx) b = cc
  busy-moves m (returned ctx e) b = cc
  busy-moves m (awaiting_start ctx) b = cc
  busy-moves m (awaiting_stop ctx) b = cc

  Local-wakes :
      (ps : List (Provider H)) (m : Shared H) (p : Pc H)
      → Local ps m p
      → waiting p ≡ true
      → ((m' : Shared H) × (p' : Pc H) × Move m p m' p') ⊎ Owned m.runner.state
  Local-wakes ps m (awaiting_start ctx) (inl e) w = inr (subst Owned (sym e) tt)
  Local-wakes ps m (awaiting_start ctx) (inr e) w = inl (_, _, wake_start e)
  Local-wakes ps m (awaiting_stop ctx) (inl e) w = inr (subst Owned (sym e) tt)
  Local-wakes ps m (awaiting_stop ctx) (inr e) w = inl (_, _, wake_stop e)
  Local-wakes ps m idle l w = cc
  Local-wakes ps m (checking ctx) l w = cc
  Local-wakes ps m (returned ctx e) l w = cc
  Local-wakes ps m (booting_at ctx st rest) l w = cc
  Local-wakes ps m (rolling_at ctx e errs todo) l w = cc
  Local-wakes ps m (stopping_at ctx errs todo) l w = cc

  -- A call that waits for another is never stuck: it can go on itself, or a call that runs providers
  -- can.
  pub no_deadlock :
      {r : Runner H} {s : System H}
      → r.state ≡ state_new
      → Reach r s
      → (i : ℕ) → waiting (s.pc i) ≡ true
      → CanMove s i ⊎ ((j : ℕ) × (busy (s.pc j) ≡ true) × CanMove s j)
  no_deadlock {r} {s} e h i w =
      elim (Local-wakes r.providers s.shared (s.pc i) ((Reach-Inv e h).local i) w) [
        | inl c ↦ inl c
        | inr o ↦ let (j, b) = (Reach-Inv e h).owned o in inr (j, b, busy-moves s.shared (s.pc j) b)
      ]
