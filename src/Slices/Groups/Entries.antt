-- ===== src/Slices/Groups/Entries.antt =====
-- The entries of `GroupBy` and `CountBy` of slices/slices.go.
use fries.Prelude.{
  ℕ, suc, ◌+◌, ◌<◌, ◌≡◌, refl, ◌∙◌, ap, sym, Bool, true, false, List, [], ◌∷◌, ◌++◌, ite, if_pos,
  if_neg, arith, length, lookup, lookup-insert, append-nil, append_assoc,
}
use fries.Prelude.Words.{word, add64, add64-exact}
use fries.Slices.{range_from, filter}
use fries.Slices.Loops.{kept, filter-kept}
use fries.Slices.Groups.{group_at, add_to_group, group_by, count_at, count_one, count_by}

module _ {E K : Type 0} (same : Discrete K) (fn : E → K) (k : K) where
  -- The item has the key.
  abbrev pub has_key : E → Bool
  has_key item = ite (same (fn item) k) true false

  abbrev group_step : List (K × List E) → E → ℕ → List (K × List E)
  group_step m item i = add_to_group same m (fn item) item

  group_from :
      (i : ℕ) (m : List (K × List E)) (s : List E)
      → group_at (lookup same k (range_from group_step i m s))
        ≡ group_at (lookup same k m) ++ kept has_key s
  unfolding range_from
  group_from i m [] = sym (append-nil _)
  group_from i m (item ∷ s) =
      group_from (suc i) (add_to_group same m (fn item) item) s
      ∙ rw (lookup-insert same (fn item) k (group_at (lookup same (fn item) m) ++ (item ∷ [])) m)
          (elim (same (fn item) k) [
            | yes p ↦ rw (if_pos (same (fn item) k) p) (
                rw (if_pos (same (fn item) k) p)
                  (rw p (append_assoc (group_at (lookup same k m)) (item ∷ []) (kept has_key s))))
            | no n ↦ rw (if_neg (same (fn item) k) n) (rw (if_neg (same (fn item) k) n) refl)
          ])

  -- GroupBy maps each key to the items that have it, in their order: what Filter keeps of the slice by
  -- the key.
  pub group_by_lem : (s : List E) → group_at (lookup same k (group_by same s fn)) ≡ filter s has_key
  unfolding group_by lookup
  group_by_lem s = group_from 0 [] s ∙ sym (filter-kept s has_key)

  abbrev count_step : List (K × ℕ) → E → ℕ → List (K × ℕ)
  count_step m item i = count_one same m (fn item)

  count_from :
      (i : ℕ) (m : List (K × ℕ)) (s : List E)
      → count_at (lookup same k m) + length s < word
      → count_at (lookup same k (range_from count_step i m s))
        ≡ count_at (lookup same k m) + length (kept has_key s)
  unfolding range_from
  count_from i m [] h = omega arith
  count_from i m (item ∷ s) h =
      let before = count_at (lookup same k m) in
      let m' = count_one same m (fn item) in
      let inserted =
        lookup-insert same (fn item) k (add64 (count_at (lookup same (fn item) m)) 1) m in
      elim (same (fn item) k) [
        | yes p ↦
            let here : count_at (lookup same k m') ≡ before + 1 =
              rw inserted (
                rw (if_pos (same (fn item) k) p)
                  (rw p (add64-exact before 1 (omega (arith, h))))) in
            rw (if_pos (same (fn item) k) p)
              (omega (arith, count_from (suc i) m' s (omega (arith, here, h)), here))
        | no n ↦
            let here : count_at (lookup same k m') ≡ before =
              rw inserted (rw (if_neg (same (fn item) k) n) refl) in
            rw (if_neg (same (fn item) k) n)
              (omega (arith, count_from (suc i) m' s (omega (arith, here, h)), here))
      ]

  -- CountBy maps each key to the length of the group that GroupBy maps it to. (The length of the slice
  -- is a 64-bit number.)
  pub count_by_lem :
      (s : List E)
      → length s < word
      → count_at (lookup same k (count_by same s fn))
        ≡ length (group_at (lookup same k (group_by same s fn)))
  unfolding count_by lookup
  count_by_lem s h = omega (
    arith,
    count_from 0 [] s (omega (arith, h)),
    ap length (group_by_lem s ∙ filter-kept s has_key),
  )
