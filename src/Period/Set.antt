-- ===== src/Period/Set.antt =====
-- time/period/set.go, and `Subtract` of time/period/period.go.
--
-- `slices.SortFunc` is modelled by insertion: the comparison is zero only between equal intervals,
-- so every sorting algorithm gives the same list. The loop of `Merge` is read off its result,
-- `result[:last+1]`: the intervals that are finished, then `result[last]`, which may still grow.
-- Period/InPlace has the loop over the slice that it overwrites, and shows that they agree.
use Prim.Native.Nat.{compare, Ordering}
use fries.Prelude.{ℕ, not, List, [], ◌∷◌, ltb, leb, if◌then◌else◌}
use fries.Period.{Period, is_empty}

unfoldable pub compare_period : Period → Period → Ordering
compare_period a b = elim (compare a.start b.start) [
  | Ordering.eq ↦ compare a.end b.end
  | Ordering.lt ↦ Ordering.lt
  | Ordering.gt ↦ Ordering.gt
]

unfoldable pub insert_sorted : Period → List Period → List Period
unfolding compare_period
insert_sorted p [] = p ∷ []
insert_sorted p (q ∷ qs) = elim (compare_period p q) [
  | Ordering.gt ↦ q ∷ insert_sorted p qs
  | _ ↦ p ∷ q ∷ qs
]

unfoldable pub sort : List Period → List Period
unfolding insert_sorted
sort [] = []
sort (p ∷ ps) = insert_sorted p (sort ps)

unfoldable pub non_empty : List Period → List Period
unfolding is_empty
non_empty [] = []
non_empty (p ∷ ps) = let rest = non_empty ps in if not (is_empty p) then p ∷ rest else rest

-- The loop, with `result[last]` in hand.
unfoldable pub absorb : Period → List Period → List Period
absorb cur [] = cur ∷ []
absorb cur (p ∷ ps) =
    let next = absorb p ps in
    let grown = absorb (record cur { end = p.end }) ps in
    let same = absorb cur ps in
    if ltb cur.end p.start then cur ∷ next else if ltb cur.end p.end then grown else same

unfoldable pub merge_sorted : List Period → List Period
unfolding absorb
merge_sorted [] = []
merge_sorted (p ∷ ps) = absorb p ps

unfoldable pub merge : List Period → List Period
unfolding non_empty sort merge_sorted
merge periods = merge_sorted (sort (non_empty periods))

-- `merged[i-1].end` to `merged[i].start` for each `i`.
unfoldable pub gaps_between : List Period → List Period
gaps_between [] = []
gaps_between (p ∷ []) = []
gaps_between (p ∷ q ∷ ps) = record { start = p.end; end = q.start } ∷ gaps_between (q ∷ ps)

unfoldable pub gaps : List Period → List Period
unfolding merge gaps_between
gaps periods = gaps_between (merge periods)

-- The loop of `Subtract` over the merged cuts.
unfoldable pub subtract_from : Period → ℕ → List Period → List Period
subtract_from p cursor [] = record { start = cursor; end = p.end } ∷ []
subtract_from p cursor (cut ∷ cuts) =
    let skip = subtract_from p cursor cuts in
    let next = if ltb cut.end p.end then subtract_from p cut.end cuts else [] in
    if leb cut.end cursor
    then skip
    else if leb p.end cut.start
    then record { start = cursor; end = p.end } ∷ []
    else if ltb cursor cut.start
    then record { start = cursor; end = cut.start } ∷ next
    else next

unfoldable pub subtract : Period → List Period → List Period
unfolding is_empty merge subtract_from
subtract p others = if is_empty p then [] else subtract_from p p.start (merge others)
