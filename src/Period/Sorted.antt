-- ===== src/Period/Sorted.antt =====
-- Sorting and filtering, the first half of `Merge` in time/period/set.go.
use fries.Prelude.{ℕ, ◌≤◌, ◌<◌, ◌↔◌, ◌⊎◌, List, [], ◌∷◌, arith}
use fries.Period.{Period}
use fries.Period.Points.{Has, Covered, IsOrdered}
use fries.Period.Set.{insert_sorted, sort, non_empty}
use fries.Prelude.{All}

-- Non-empty intervals in ascending order of their starts, none of which is below the bound.
abbrev pub Ascending : ℕ → List Period → Type 0
Ascending bound [] = Unit
Ascending bound (p ∷ ps) = (bound ≤ p.start) × (p.start < p.end) × Ascending p.start ps

insert_sorted-Ascending :
    (b : ℕ) (p : Period) (ps : List Period)
    → b ≤ p.start
    → p.start < p.end
    → Ascending b ps
    → Ascending b (insert_sorted p ps)
unfolding insert_sorted
insert_sorted-Ascending b p [] h k a = (h, k, tt)
insert_sorted-Ascending b p (q ∷ qs) h k a =
    grind (arith, λ (g : q.start ≤ p.start). insert_sorted-Ascending q.start p qs g k a.2)

pub sort-Ascending : (ps : List Period) → All (λ p. p.start < p.end) ps → Ascending 0 (sort ps)
unfolding sort
sort-Ascending [] h = tt
sort-Ascending (p ∷ ps) h =
    insert_sorted-Ascending 0 p (sort ps) (omega arith) h.0 (sort-Ascending ps h.1)

insert_sorted-Covered :
    (p : Period) (ps : List Period) (n : ℕ)
    → Covered (insert_sorted p ps) n ↔ (Has p n ⊎ Covered ps n)
unfolding insert_sorted
insert_sorted-Covered p [] n = (λ h. h, λ h. h)
insert_sorted-Covered p (q ∷ qs) n =
    (ground (arith, insert_sorted-Covered p qs n), ground (arith, insert_sorted-Covered p qs n))

pub sort-Covered : (ps : List Period) (n : ℕ) → Covered (sort ps) n ↔ Covered ps n
unfolding sort
sort-Covered [] n = (λ h. h, λ h. h)
sort-Covered (p ∷ ps) n = (
  ground (arith, insert_sorted-Covered p (sort ps) n, sort-Covered ps n),
  ground (arith, insert_sorted-Covered p (sort ps) n, sort-Covered ps n),
)

pub non_empty-All :
    (ps : List Period) → All IsOrdered ps → All (λ p. p.start < p.end) (non_empty ps)
unfolding non_empty
non_empty-All [] h = tt
non_empty-All (p ∷ ps) h = ground (arith, non_empty-All ps h.1)

pub non_empty-Covered : (ps : List Period) (n : ℕ) → Covered (non_empty ps) n ↔ Covered ps n
unfolding non_empty
non_empty-Covered [] n = (λ h. h, λ h. h)
non_empty-Covered (p ∷ ps) n =
    (ground (arith, non_empty-Covered ps n), ground (arith, non_empty-Covered ps n))
