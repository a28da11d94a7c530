-- ===== src/Lifecycle/Threads/Moves.antt =====
-- Each move of a call of lifecycle/runner.go keeps what Threads/Invariant states.
use fries.Prelude.{
  ◌≡◌, refl, sym, ap, ◌∙◌, subst, ◌⊎◌, inl, inr, List, [], ◌∷◌, ◌++◌, append-nil, append_assoc,
}
use fries.Lifecycle.{Provider, Runner, State, state_new, state_started, state_stopped, backward}
use fries.Lifecycle.Threads.{
  Shared, Pc, with_boot, with_stop, with_runner, Move, boot_refused, boot_enter, boot_step,
  boot_fail, boot_end, roll_step, roll_end, stop_call, check_new, check_starting, check_started,
  check_stopping, check_stopped, wake_start, wake_stop, stop_step, stop_end,
}
use fries.Lifecycle.Threads.Invariant.{Owned, Local, Phased, Sound, Moved, still, works, takes}

unless : {A B C : Type 0} → ¬ A → A ⊎ B → C ⊎ B
unless n (inl a) = absurd (n a)
unless n (inr b) = inr b

module _ {H : Type 0} (ps : List (Provider H)) where
  -- One more provider started, or stopped.
  snoc_split :
      (a b rest : List (Provider H)) (p : Provider H)
      → a ≡ b ++ (p ∷ rest)
      → a ≡ (b ++ (p ∷ [])) ++ rest
  snoc_split a b rest p e = e ∙ sym (append_assoc b (p ∷ []) rest)

  -- A provider was called to shut down.
  Sound-stop :
      (m : Shared H) (p : Provider H) (todo : List (Provider H)) (t : State)
      → m.runner.state ≡ t
      → Phased ps t (with_stop m p)
      → backward m.boots ≡ m.stops ++ (p ∷ todo)
      → Sound ps m
      → Sound ps (with_stop m p)
  Sound-stop m p todo t e h l s = record {
    same = s.same;
    phased = subst (λ u. Phased ps u (with_stop m p)) (sym e) h;
    rest = s.rest;
    begun = s.begun;
    todo = todo;
    ended = snoc_split (backward m.boots) m.stops todo p l;
  }

  -- The last one was.
  Sound-over :
      (m : Shared H) (r : Runner H)
      → r.providers ≡ m.runner.providers
      → r.state ≡ state_stopped
      → backward m.boots ≡ m.stops ++ []
      → Sound ps m
      → Sound ps (with_runner m r)
  Sound-over m r e k l s = record {
    same = e ∙ s.same;
    phased = subst (λ u. Phased ps u (with_runner m r)) (sym k) (sym (l ∙ append-nil m.stops));
    rest = s.rest;
    begun = s.begun;
    todo = [];
    ended = l;
  }

  pub Move-Moved :
      {m m' : Shared H} {p p' : Pc H}
      → Sound ps m
      → Local ps m p
      → Move m p m' p'
      → Moved ps m p m' p'
  Move-Moved {m} s l (boot_refused ctx n) = still ps m _ _ s tt refl
  Move-Moved {m} s l (boot_enter ctx e) =
      let ph : Phased ps state_new m = subst (λ t. Phased ps t m) e s.phased in
      takes ps m _ _ _ (subst (λ t. ¬ Owned t) (sym e) (λ w. w)) refl
        (record {
          same = s.same;
          phased = tt;
          rest = s.rest;
          begun = s.begun;
          todo = s.todo;
          ended = s.ended;
        })
        (refl, ph.0, ph.1, sym s.same) ((λ k. inl refl), unless (λ k. cc))
  Move-Moved {m} s l (boot_step {rest} {p} reply e) =
      works ps m _ _ _ refl
        (record {
          same = s.same;
          phased = subst (λ t. Phased ps t (with_boot m p)) (sym l.0) tt;
          rest = rest;
          begun = snoc_split ps m.boots rest p (l.3 ∙ ap (λ t. t ++ (p ∷ rest)) (sym l.1));
          todo = backward (m.boots ++ (p ∷ []));
          ended = ap (λ t. t ++ backward (m.boots ++ (p ∷ []))) (sym l.2);
        })
        (l.0, ap (λ t. t ++ (p ∷ [])) l.1, l.2, snoc_split ps _ rest p l.3) ((λ k. k), (λ k. k))
        (λ w. refl)
  Move-Moved {m} s l (boot_fail {started} reply e) =
      still ps m _ _ s (l.0, ap backward l.1 ∙ ap (λ t. t ++ backward started) (sym l.2)) refl
  Move-Moved {m} s l (boot_end {started}) =
      works ps m _ _ _ refl
        (record {
          same = s.same;
          phased = (sym l.1, l.2);
          rest = s.rest;
          begun = s.begun;
          todo = s.todo;
          ended = s.ended;
        })
        tt ((λ k. inr refl), unless (λ k. cc (l.0))) (λ w. absurd w)
  Move-Moved {m} s l (roll_step {p} {todo} reply) =
      works ps m _ _ _ refl (Sound-stop m p todo _ l.0 tt l.1 s)
        (l.0, snoc_split _ m.stops todo p l.1) ((λ k. k), (λ k. k)) (λ w. refl)
  Move-Moved {m} s l roll_end =
      works ps m _ _ _ refl (Sound-over m _ refl refl l.1 s) tt
        ((λ k. inr refl), unless (λ k. cc (l.0))) (λ w. absurd w)
  Move-Moved {m} s l (stop_call ctx) = still ps m _ _ s tt refl
  Move-Moved {m} s l (check_new e) = still ps m _ _ s tt refl
  Move-Moved {m} s l (check_starting e) = still ps m _ _ s (inl e) refl
  Move-Moved {m} s l (check_started e) =
      let ph : Phased ps state_started m = subst (λ t. Phased ps t m) e s.phased in
      takes ps m _ _ _ (subst (λ t. ¬ Owned t) (sym e) (λ w. w)) refl
        (record {
          same = s.same;
          phased = tt;
          rest = s.rest;
          begun = s.begun;
          todo = s.todo;
          ended = s.ended;
        })
        (refl, ap backward (sym ph.0) ∙ ap (λ t. t ++ backward m.runner.started) (sym ph.1))
        (unless (λ k. cc), (λ k. inl refl))
  Move-Moved {m} s l (check_stopping e) = still ps m _ _ s (inl e) refl
  Move-Moved {m} s l (check_stopped e) = still ps m _ _ s tt refl
  Move-Moved {m} s l (wake_start e) = still ps m _ _ s tt refl
  Move-Moved {m} s l (wake_stop e) = still ps m _ _ s tt refl
  Move-Moved {m} s l (stop_step {p} {todo} reply) =
      works ps m _ _ _ refl (Sound-stop m p todo _ l.0 tt l.1 s)
        (l.0, snoc_split _ m.stops todo p l.1) ((λ k. k), (λ k. k)) (λ w. refl)
  Move-Moved {m} s l stop_end =
      works ps m _ _ _ refl (Sound-over m _ refl refl l.1 s) tt
        (unless (λ k. cc (l.0)), (λ k. inr refl)) (λ w. absurd w)
