-- ===== src/Slices/Split.antt =====
-- `Partition`, `Filter` and `Concat` of slices/slices.go.
use fries.Prelude.{
  ℕ, suc, ◌≡◌, refl, ◌∙◌, ap, sym, subst, Bool, not, List, [], ◌∷◌, ◌++◌, if◌then◌else◌, append-nil,
  append_assoc, Bool-cases, inl, inr,
}
use mathlib.Core.List.{Perm, perm_middle}
use mathlib.Core.List.Perm
use fries.Slices.{range_from, filter, partition}
use fries.Slices.Loops.{kept, filter-kept}

module _ {ℓ} {E : Type ℓ} (fn : E → Bool) where
  abbrev rejected : List E → List E
  rejected = kept (λ item. not (fn item))

  kept-Perm : (s : List E) → Perm s (kept fn s ++ rejected s)
  kept-Perm [] = Perm.refl []
  kept-Perm (item ∷ s) =
      let rest = kept-Perm s in
      elim (Bool-cases (fn item)) [
        | inl e ↦ rw e (Perm.cons item rest)
        | inr e ↦
            rw e
              (Perm.trans (Perm.cons item rest) (Perm.symm (perm_middle (kept fn s) (rejected s))))
      ]

  partition_from :
      (i : ℕ) (a b s : List E)
      → range_from
          (λ (kept, left) item i.
            if fn item then (kept ++ (item ∷ []), left) else (kept, left ++ (item ∷ [])))
          i
          (a, b)
          s
        ≡ (a ++ kept fn s, b ++ rejected s)
  unfolding range_from
  partition_from i a b [] = rw (append-nil a, append-nil b) refl
  partition_from i a b (item ∷ s) = elim (Bool-cases (fn item)) [
    | inl e ↦ rw e (
        partition_from (suc i) (a ++ (item ∷ [])) b s
        ∙ ap (λ x. (x, b ++ rejected s)) (append_assoc a (item ∷ []) (kept fn s)))
    | inr e ↦ rw e (
        partition_from (suc i) a (b ++ (item ∷ [])) s
        ∙ ap (λ x. (a ++ kept fn s, x)) (append_assoc b (item ∷ []) (rejected s)))
  ]

  -- Partition splits a slice into what Filter keeps by the test and what it keeps by its negation;
  -- together the two are a permutation of the slice.
  pub partition_lem :
      (s : List E)
      → (partition s fn ≡ (filter s fn, filter s (λ item. not (fn item))))
        × Perm s ((partition s fn).0 ++ (partition s fn).1)
  unfolding partition
  partition_lem s =
      let parts = partition_from 0 [] [] s in
      (
        rw (filter-kept s fn, filter-kept s (λ item. not (fn item))) parts,
        subst (λ p. Perm s (p.0 ++ p.1)) (sym parts) (kept-Perm s),
      )
