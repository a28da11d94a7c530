-- ===== src/Period/Subtracting.antt =====
-- `Subtract` of time/period/period.go against the instants.
use fries.Prelude.{ℕ, suc, ◌≤◌, ◌<◌, ◌↔◌, List, [], ◌∷◌, arith, All}
use fries.Period.{Period}
use fries.Period.Points.{Has, Covered, SeparatedFrom, IsSeparated, IsOrdered, SeparatedFrom-mono}
use fries.Period.Set.{merge, subtract_from, subtract}
use fries.Period.Merging.{merge_lem}
use fries.Period.Canonical.{SeparatedFrom-above}

-- What remains from the cursor on, for cuts in separated form.
subtract_from-Covered :
    (p : Period) (cursor b : ℕ) (cuts : List Period) (n : ℕ)
    → cursor < p.end
    → SeparatedFrom b cuts
    → Covered (subtract_from p cursor cuts) n ↔ ((cursor ≤ n) × (n < p.end) × (¬ Covered cuts n))
unfolding subtract_from
subtract_from-Covered p cursor b [] n h s = ground arith
subtract_from-Covered p cursor b (cut ∷ cuts) n h s =
    let skip = subtract_from-Covered p cursor (suc cut.end) cuts n h s.2 in
    let next : cut.end < p.end → _ =
      λ k. subtract_from-Covered p cut.end (suc cut.end) cuts n k s.2 in
    let above = SeparatedFrom-above (suc cut.end) n cuts s.2 in
    (ground (arith, skip, next, above), ground (arith, skip, next, above))

subtract_from-SeparatedFrom :
    (p : Period) (cursor b : ℕ) (cuts : List Period)
    → cursor < p.end
    → SeparatedFrom b cuts
    → SeparatedFrom cursor (subtract_from p cursor cuts)
unfolding subtract_from
subtract_from-SeparatedFrom p cursor b [] h s = (omega arith, h, tt)
subtract_from-SeparatedFrom p cursor b (cut ∷ cuts) h s =
    let skip = subtract_from-SeparatedFrom p cursor (suc cut.end) cuts h s.2 in
    let next : cut.end < p.end → _ =
      λ k. subtract_from-SeparatedFrom p cut.end (suc cut.end) cuts k s.2 in
    let rest = subtract_from p cut.end cuts in
    let after : cut.end < p.end → cut.start < cut.end → SeparatedFrom (suc cut.start) rest =
      λ k g. SeparatedFrom-mono cut.end (suc cut.start) rest g (next k) in
    let later : cut.end < p.end → cursor < cut.end → SeparatedFrom cursor rest =
      λ k g. SeparatedFrom-mono cut.end cursor rest (omega arith) (next k) in
    ground (arith, skip, after, later)

-- Subtract leaves exactly the instants of the interval that no cut has, in non-empty intervals in
-- ascending order of which none touches the next; all intervals given are ordered.
pub subtract_lem :
    (p : Period) (others : List Period)
    → All IsOrdered others
    → IsOrdered p
    → IsSeparated (subtract p others)
      × ((n : ℕ) → Covered (subtract p others) n ↔ (Has p n × (¬ Covered others n)))
unfolding subtract
subtract_lem p others h o =
    let cuts = merge others in
    let s = (merge_lem others h).0 in
    let sep : p.start < p.end → IsSeparated (subtract_from p p.start cuts) = λ k.
      SeparatedFrom-mono p.start 0 (subtract_from p p.start cuts) (omega arith)
        (subtract_from-SeparatedFrom p p.start 0 cuts k s) in
    let cov : (n : ℕ) → p.start < p.end → _ = λ n k. subtract_from-Covered p p.start 0 cuts n k s in
    (
      ground (arith, sep),
      λ n. (
        ground (arith, cov n, (merge_lem others h).1 n),
        ground (arith, cov n, (merge_lem others h).1 n),
      ),
    )
