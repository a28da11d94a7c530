-- ===== src/Period/Merging.antt =====
-- `Merge` of time/period/set.go: the union of the intervals, in separated form.
use fries.Prelude.{ℕ, suc, ◌≤◌, ◌<◌, ◌↔◌, ◌⊎◌, List, [], ◌∷◌, arith, All}
use fries.Period.{Period}
use fries.Period.Points.{Has, Covered, SeparatedFrom, IsSeparated, IsOrdered}
use fries.Period.Set.{absorb, merge_sorted, merge, non_empty}
use fries.Period.Sorted.{Ascending, sort-Ascending, sort-Covered, non_empty-All, non_empty-Covered}

-- `record cur { end = p.end }`, as the loop makes it.
abbrev grow : Period → Period → Period
grow cur p = record cur { end = p.end }

Ascending-mono : (b c : ℕ) (ps : List Period) → c ≤ b → Ascending b ps → Ascending c ps
Ascending-mono b c [] h a = tt
Ascending-mono b c (p ∷ ps) h a = (omega arith, a.1, a.2)

absorb-Covered :
    (cur : Period) (ps : List Period) (n : ℕ)
    → cur.start < cur.end
    → Ascending cur.start ps
    → Covered (absorb cur ps) n ↔ (Has cur n ⊎ Covered ps n)
unfolding absorb
absorb-Covered cur [] n h a = (λ h. h, λ h. h)
absorb-Covered cur (p ∷ ps) n h a =
    let up = Ascending-mono p.start cur.start ps a.0 a.2 in
    let next = absorb-Covered p ps n a.1 a.2 in
    let grown : cur.start < p.end
        → Covered (absorb (grow cur p) ps) n ↔ (Has (grow cur p) n ⊎ Covered ps n) =
      λ k. absorb-Covered (grow cur p) ps n k up in
    let same = absorb-Covered cur ps n h up in
    (ground (arith, next, grown, same), ground (arith, next, grown, same))

absorb-SeparatedFrom :
    (b : ℕ) (cur : Period) (ps : List Period)
    → b ≤ cur.start
    → cur.start < cur.end
    → Ascending cur.start ps
    → SeparatedFrom b (absorb cur ps)
unfolding absorb
absorb-SeparatedFrom b cur [] k h a = (k, h, tt)
absorb-SeparatedFrom b cur (p ∷ ps) k h a =
    let up = Ascending-mono p.start cur.start ps a.0 a.2 in
    let next : cur.end < p.start → SeparatedFrom (suc cur.end) (absorb p ps) =
      λ g. absorb-SeparatedFrom (suc cur.end) p ps g a.1 a.2 in
    let grown : cur.start < p.end → SeparatedFrom b (absorb (grow cur p) ps) =
      λ g. absorb-SeparatedFrom b (grow cur p) ps k g up in
    let same = absorb-SeparatedFrom b cur ps k h up in ground (arith, next, grown, same)

merge_sorted_lem :
    (ps : List Period)
    → Ascending 0 ps
    → IsSeparated (merge_sorted ps) × ((n : ℕ) → Covered (merge_sorted ps) n ↔ Covered ps n)
unfolding merge_sorted
merge_sorted_lem [] a = (tt, λ n. (λ h. h, λ h. h))
merge_sorted_lem (p ∷ ps) a =
    (absorb-SeparatedFrom 0 p ps a.0 a.1 a.2, λ n. absorb-Covered p ps n a.1 a.2)

-- Merge of ordered intervals returns non-empty intervals in ascending order of which none touches
-- the next, and keeps the union: an instant is in one of the merged intervals exactly if it is in
-- one of the given ones.
pub merge_lem :
    (ps : List Period)
    → All IsOrdered ps
    → IsSeparated (merge ps) × ((n : ℕ) → Covered (merge ps) n ↔ Covered ps n)
unfolding merge
merge_lem ps h =
    let (separated, same) = merge_sorted_lem _ (sort-Ascending _ (non_empty-All ps h)) in
    (
      separated,
      λ n.
          let m = same n in
          let s = sort-Covered (non_empty ps) n in
          let f = non_empty-Covered ps n in (λ c. f.0 (s.0 (m.0 c)), λ c. m.1 (s.1 (f.1 c))),
    )
