-- ===== src/Period/Tests.antt =====
-- time/period: runs of the operations, and the theorems at concrete intervals.
use fries.Prelude.{ℕ, ◌<◌, ◌≡◌, refl, ◌↔◌, some, List, [], ◌∷◌, arith}
use fries.Period.{Period, zero_period, invalid_range, at, new}
use fries.Period.Points.{Has, Covered, IsSeparated}
use fries.Period.Set.{merge, gaps, subtract}
use fries.Period.Merging.{merge_lem}
use fries.Period.Canonical.{merge-canonical}
use fries.Period.Subtracting.{subtract_lem}
use fries.Period.Gaps.{gaps-Covered}
use fries.Period.InPlace.{merge_in_place, merge_in_place-merge}

abbrev period : ℕ → ℕ → Period
period a b = record { start = a; end = b }

abbrev busy : List Period
busy = period 50 60 ∷ period 10 20 ∷ period 15 30 ∷ period 40 40 ∷ period 30 35 ∷ []

abbrev tidy : List Period
tidy = period 10 35 ∷ period 50 60 ∷ []

merge_run : merge busy ≡ tidy
unfolding merge
merge_run = refl

merge_in_place_run : merge_in_place busy ≡ tidy
unfolding merge_in_place
merge_in_place_run = refl

gaps_run : gaps busy ≡ period 35 50 ∷ []
unfolding gaps
gaps_run = refl

subtract_run : subtract (period 5 55) busy ≡ period 5 10 ∷ period 35 50 ∷ []
unfolding subtract
subtract_run = refl

new_run : new (at 9) (at 3) ≡ (zero_period, some invalid_range)
unfolding new
new_run = refl

merge_lem_example : IsSeparated (merge busy) × ((n : ℕ) → Covered (merge busy) n ↔ Covered busy n)
merge_lem_example = merge_lem busy (omega arith)

merge-canonical_example : merge busy ≡ merge tidy
merge-canonical_example =
    merge-canonical busy tidy (omega arith) (omega arith) (λ n. (ground arith, ground arith))

merge_in_place-merge_example : merge_in_place busy ≡ merge busy
merge_in_place-merge_example = merge_in_place-merge busy

subtract_lem_example :
    IsSeparated (subtract (period 5 55) busy)
    × ((n : ℕ)
        → Covered (subtract (period 5 55) busy) n ↔ (Has (period 5 55) n × (¬ Covered busy n)))
subtract_lem_example = subtract_lem (period 5 55) busy (omega arith) (omega arith)

gaps-Covered_example : Covered (gaps busy) 40 ↔ (
    (¬ Covered busy 40)
    × ((m : ℕ) × (m < 40) × Covered busy m)
    × ((m : ℕ) × (40 < m) × Covered busy m))
gaps-Covered_example = gaps-Covered busy (omega arith) 40
