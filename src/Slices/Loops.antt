-- ===== src/Slices/Loops.antt =====
-- The loops of slices/slices.go that append to a result.
use fries.Prelude.{
  ℕ, suc, ◌≡◌, refl, ◌∙◌, ap, sym, Bool, List, [], ◌∷◌, ◌++◌, if◌then◌else◌, append-nil,
  append_assoc, Bool-cases, inl, inr,
}
use fries.Slices.{range_from, filter}

-- What a loop appends whose body appends `g item i`.
unfoldable pub collected {ℓ κ} : {E : Type ℓ} {R : Type κ} → (E → ℕ → List R) → ℕ → List E → List R
collected g i [] = []
collected g i (item ∷ s) = g item i ++ collected g (suc i) s

module _ {ℓ κ} {E : Type ℓ} {R : Type κ} (body : List R → E → ℕ → List R) (g : E → ℕ → List R)
    (appends : (r : List R) (item : E) (i : ℕ) → body r item i ≡ r ++ g item i) where
  pub range_from-collected :
      (i : ℕ) (r : List R) (s : List E) → range_from body i r s ≡ r ++ collected g i s
  unfolding range_from collected
  range_from-collected i r [] = sym (append-nil r)
  range_from-collected i r (item ∷ s) =
      range_from-collected (suc i) (body r item i) s
      ∙ (ap (λ x. x ++ collected g (suc i) s) (appends r item i)
          ∙ append_assoc r (g item i) (collected g (suc i) s))

module _ {ℓ} {E : Type ℓ} where
  -- The items that pass, in order.
  abbrev pub kept : (E → Bool) → List E → List E
  kept fn [] = []
  kept fn (item ∷ s) = let rest = kept fn s in if fn item then item ∷ rest else rest

  abbrev pub one_if : (E → Bool) → E → ℕ → List E
  one_if fn item i = if fn item then item ∷ [] else []

  pub collected-kept : (fn : E → Bool) (i : ℕ) (s : List E) → collected (one_if fn) i s ≡ kept fn s
  unfolding collected
  collected-kept fn i [] = refl
  collected-kept fn i (item ∷ s) =
      let next = collected-kept fn (suc i) s in
      elim (Bool-cases (fn item)) [ inl e ↦ rw (e, next) refl | inr e ↦ rw (e, next) refl ]

  pub filter-kept : (s : List E) (fn : E → Bool) → filter s fn ≡ kept fn s
  unfolding filter
  filter-kept s fn =
      range_from-collected _ (one_if fn)
        (λ r item i. elim (Bool-cases (fn item)) [
          | inl e ↦ rw e refl
          | inr e ↦ rw e (sym (append-nil r))
        ])
        0 [] s
      ∙ collected-kept fn 0 s
