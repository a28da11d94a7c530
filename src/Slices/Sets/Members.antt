-- ===== src/Slices/Sets/Members.antt =====
-- The items of the results of the set functions of slices/slices.go.
use fries.Prelude.{
  ℕ, suc, ◌≡◌, refl, ◌∙◌, ap, sym, true, false, not, ◌||◌, List, [], ◌∷◌, ite, Bool-cases, inl, inr,
  lookup, insert, append-nil, lookup-insert, arith, arith,
}
use fries.Slices.{range_from}
use fries.Slices.Loops.{kept, one_if, collected-kept, range_from-collected, filter-kept}
use fries.Slices.{filter}
use fries.Slices.Search.{contains}
use fries.Slices.Sets.{
  Set, is_present, index_set, has, excluding, including, difference, intersect, only, without,
}

module _ {E : Type 0} (same : Discrete E) where
  -- `has` after an insertion.
  pub has-insert :
      (m : Set E) (item e : E)
      → has same (insert same item tt m) e ≡ ite (same item e) true (has same m e)
  unfolding has
  has-insert m item e = ap is_present (lookup-insert same item e tt m) ∙ ground arith

  -- The map that the loop over `s` has filled, from `m` on.
  index_from :
      (i : ℕ) (m : Set E) (s : List E) (e : E)
      → has same (range_from (λ result item i. insert same item tt result) i m s) e
        ≡ has same m e || contains same s e
  unfolding range_from contains
  index_from i m [] e = ground arith
  index_from i m (item ∷ s) e =
      index_from (suc i) (insert same item tt m) s e ∙ rw (has-insert m item e) (ground arith)

  pub index_set-contains : (s : List E) (e : E) → has same (index_set same s) e ≡ contains same s e
  unfolding index_set has lookup
  index_set-contains s e = index_from 0 [] s e

  excluding-filter :
      (s items : List E) → excluding same s items ≡ filter s (λ e. not (contains same items e))
  unfolding excluding
  excluding-filter s items =
      range_from-collected _ (one_if (λ e. not (contains same items e)))
        (λ r item i.
          rw (index_set-contains items item) (elim (Bool-cases (contains same items item)) [
            | inl e ↦ rw e (sym (append-nil r))
            | inr e ↦ rw e refl
          ]))
        0 [] s
      ∙ (collected-kept (λ e. not (contains same items e)) 0 s
          ∙ sym (filter-kept s (λ e. not (contains same items e))))

  including-filter :
      (s items : List E) → including same s items ≡ filter s (λ e. contains same items e)
  unfolding including
  including-filter s items =
      range_from-collected _ (one_if (λ e. contains same items e))
        (λ r item i.
          rw (index_set-contains items item) (elim (Bool-cases (contains same items item)) [
            | inl e ↦ rw e refl
            | inr e ↦ rw e (sym (append-nil r))
          ]))
        0 [] s
      ∙ (collected-kept (λ e. contains same items e) 0 s
          ∙ sym (filter-kept s (λ e. contains same items e)))

  kept_all : (s : List E) → kept (λ e. true) s ≡ s
  kept_all [] = refl
  kept_all (item ∷ s) = ap (◌∷◌ item) (kept_all s)

  kept_none : (s : List E) → kept (λ e. false) s ≡ []
  kept_none [] = refl
  kept_none (item ∷ s) = kept_none s

  difference-filter :
      (s1 s2 : List E) → difference same s1 s2 ≡ filter s1 (λ e. not (contains same s2 e))
  unfolding difference contains
  difference-filter [] s2 = sym (filter-kept [] _)
  difference-filter (item ∷ s1) [] = sym (filter-kept (item ∷ s1) _ ∙ kept_all (item ∷ s1))
  difference-filter (item ∷ s1) (item' ∷ s2) = excluding-filter (item ∷ s1) (item' ∷ s2)

  without-filter :
      (s items : List E) → without same s items ≡ filter s (λ e. not (contains same items e))
  unfolding without contains
  without-filter [] items = sym (filter-kept [] _)
  without-filter (item ∷ s) [] = sym (filter-kept (item ∷ s) _ ∙ kept_all (item ∷ s))
  without-filter (item ∷ s) (item' ∷ items) = excluding-filter (item ∷ s) (item' ∷ items)

  intersect-filter : (s1 s2 : List E) → intersect same s1 s2 ≡ filter s1 (λ e. contains same s2 e)
  unfolding intersect contains
  intersect-filter [] s2 = sym (filter-kept [] _)
  intersect-filter (item ∷ s1) [] = sym (filter-kept (item ∷ s1) _ ∙ kept_none (item ∷ s1))
  intersect-filter (item ∷ s1) (item' ∷ s2) = including-filter (item ∷ s1) (item' ∷ s2)

  only-filter : (s items : List E) → only same s items ≡ filter s (λ e. contains same items e)
  unfolding only contains
  only-filter [] items = sym (filter-kept [] _)
  only-filter (item ∷ s) [] = sym (filter-kept (item ∷ s) _ ∙ kept_none (item ∷ s))
  only-filter (item ∷ s) (item' ∷ items) = including-filter (item ∷ s) (item' ∷ items)

  -- The functions that look items up in a map do what a filter by Contains does: Difference and Without
  -- keep the items, in their order and with repetitions, that the other slice does not contain, and
  -- Intersect and Only the ones that it does.
  pub set_functions-filter :
      (s items : List E)
      → (difference same s items ≡ filter s (λ e. not (contains same items e)))
        × (without same s items ≡ filter s (λ e. not (contains same items e)))
        × (intersect same s items ≡ filter s (λ e. contains same items e))
        × (only same s items ≡ filter s (λ e. contains same items e))
  set_functions-filter s items = (
    difference-filter s items,
    without-filter s items,
    intersect-filter s items,
    only-filter s items,
  )
